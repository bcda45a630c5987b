-- ===== src/Protocol/Capabilities.antt =====
-- Which capabilities a handler announces.
use jsonrpc.Base.{
  Bool, false, ◌||◌, List, [], ◌∷◌, ◌++◌, Str, codes, str_eq, str_eq_iff, ◌≡◌, refl, arith, ◌∙◌,
  Bool-cases, inl, inr,
}
use jsonrpc.Mime.{mime_type_cbor, mime_type_cbor_compact}
use jsonrpc.Protocol.{capabilities, add_capabilities, encoding_capability}

-- Whether a text is listed.
abbrev pub listed : Str → List Str → Bool
listed k [] = false
listed k (s ∷ ss) = str_eq s k || listed k ss

or_nil : (a : Bool) → a ≡ (a || false)
or_nil a = ground arith

or_assoc : (a b c : Bool) → ((a || b) || c) ≡ (a || (b || c))
or_assoc a b c = ground arith

listed-append : (k : Str) (xs ys : List Str) → listed k (xs ++ ys) ≡ (listed k xs || listed k ys)
listed-append k [] ys = refl
listed-append k (x ∷ xs) ys = ground (arith, listed-append k xs ys)

abbrev cbor_encoding : Str
cbor_encoding = codes "cbor-encoding"

abbrev cbor_compact_encoding : Str
cbor_compact_encoding = codes "cbor-compact-encoding"

encoding_capability_lem :
    (m : Str)
    → (listed cbor_encoding (encoding_capability m) ≡ str_eq m mime_type_cbor)
      × (listed cbor_compact_encoding (encoding_capability m) ≡ str_eq m mime_type_cbor_compact)
unfolding encoding_capability
encoding_capability_lem m = elim (Bool-cases (str_eq m mime_type_cbor)) [
  | inl h ↦ rw ((str_eq_iff m mime_type_cbor).0 h) (refl, refl)
  | inr h ↦ rw h (elim (Bool-cases (str_eq m mime_type_cbor_compact)) [
    | inl k ↦ rw k (refl, refl)
    | inr k ↦ rw k (refl, refl)
  ])
]

add_capabilities_lem :
    (ms found : List Str)
    → (listed cbor_encoding (add_capabilities ms found)
        ≡ (listed cbor_encoding found || listed mime_type_cbor ms))
      × (listed cbor_compact_encoding (add_capabilities ms found)
          ≡ (listed cbor_compact_encoding found || listed mime_type_cbor_compact ms))
unfolding add_capabilities
add_capabilities_lem [] found = (or_nil _, or_nil _)
add_capabilities_lem (m ∷ ms) found =
    let (plain, compact) = add_capabilities_lem ms (found ++ encoding_capability m) in
    let (p, c) = encoding_capability_lem m in
    (
      plain
          ∙ rw (listed-append cbor_encoding found (encoding_capability m), p)
              (or_assoc (listed cbor_encoding found) (str_eq m mime_type_cbor)
                (listed mime_type_cbor ms)),
      compact
          ∙ rw (listed-append cbor_compact_encoding found (encoding_capability m), c)
              (or_assoc (listed cbor_compact_encoding found) (str_eq m mime_type_cbor_compact)
                (listed mime_type_cbor_compact ms)),
    )

-- A handler announces the encodings by CBOR exactly when their MIME types are among its own.
pub capabilities_lem :
    (mime_types : List Str)
    → (listed (codes "cbor-encoding") (capabilities mime_types) ≡ listed mime_type_cbor mime_types)
      × (listed (codes "cbor-compact-encoding") (capabilities mime_types)
          ≡ listed mime_type_cbor_compact mime_types)
unfolding capabilities
capabilities_lem mime_types = add_capabilities_lem mime_types _
