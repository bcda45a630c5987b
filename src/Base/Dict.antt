-- ===== src/Base/Dict.antt =====
-- A Go map with string keys, as an association list: the list's order is the order in which a
-- `range` over the map visits it.
use jsonrpc.Base.{
  suc, ◌≡◌, refl, Bool, Option, none, some, List, [], ◌∷◌, arith, if◌then◌else◌, Str, str_eq,
  str_eq_iff, length, is_some, All, str_eq_refl,
}

abbrev pub Dict {ℓ} : Type ℓ → Type ℓ
Dict V = List (Str × V)

module _ {ℓ} {V : Type ℓ} where
  unfoldable pub lookup : Str → Dict V → Option V
  lookup k [] = none
  lookup k ((j, v) ∷ d) = if str_eq j k then some v else lookup k d

  -- `d[k] = v`
  unfoldable pub insert : Str → V → Dict V → Dict V
  insert k v [] = (k, v) ∷ []
  insert k v ((j, w) ∷ d) = if str_eq j k then (k, v) ∷ d else (j, w) ∷ insert k v d

  -- `delete(d, k)`
  unfoldable pub erase : Str → Dict V → Dict V
  erase k [] = []
  erase k ((j, w) ∷ d) = let rest = erase k d in if str_eq j k then rest else (j, w) ∷ rest

  -- `_, ok := d[k]`
  abbrev pub member : Str → Dict V → Bool
  member k d = is_some (lookup k d)

  pub lookup-insert :
      (k j : Str) (v : V) (d : Dict V)
      → lookup j (insert k v d) ≡ (if str_eq k j then some v else lookup j d)
  unfolding lookup insert
  lookup-insert k j v [] = refl
  lookup-insert k j v ((i, w) ∷ d) =
      ground (arith, str_eq_iff k j, str_eq_iff i k, str_eq_iff i j, lookup-insert k j v d)

  pub lookup-erase :
      (k j : Str) (d : Dict V) → lookup j (erase k d) ≡ (if str_eq k j then none else lookup j d)
  unfolding lookup erase
  lookup-erase k j [] = ground arith
  lookup-erase k j ((i, w) ∷ d) =
      ground (arith, str_eq_iff k j, str_eq_iff i k, str_eq_iff i j, lookup-erase k j d)

  -- No key stands twice, as in every Go map.
  abbrev pub Unique : Dict V → Type ℓ
  Unique [] = Unit
  Unique ((j, w) ∷ d) = (lookup j d ≡ none) × Unique d

  pub insert-Unique : (k : Str) (v : V) (d : Dict V) → Unique d → Unique (insert k v d)
  unfolding insert lookup
  insert-Unique k v [] u = (refl, tt)
  insert-Unique k v ((j, w) ∷ d) (h, u) =
      ground (arith, str_eq_iff j k, str_eq_iff k j, insert-Unique k v d u, lookup-insert k j v d)

  pub erase-Unique : (k : Str) (d : Dict V) → Unique d → Unique (erase k d)
  unfolding erase lookup
  erase-Unique k [] u = tt
  erase-Unique k ((j, w) ∷ d) (h, u) =
      ground (arith, str_eq_iff k j, erase-Unique k d u, lookup-erase k j d)

  -- Erasing a key that is not there changes nothing.
  pub erase_missing : (k : Str) (d : Dict V) → lookup k d ≡ none → erase k d ≡ d
  unfolding erase lookup
  erase_missing k [] h = refl
  erase_missing k ((j, w) ∷ d) h = ground (arith, erase_missing k d)

  -- `delete` takes exactly one entry from a map that holds the key.
  pub length-erase :
      (k : Str) (v : V) (d : Dict V)
      → Unique d
      → lookup k d ≡ some v
      → length d ≡ suc (length (erase k d))
  unfolding erase lookup
  length-erase k v [] u h = ground arith
  length-erase k v ((j, w) ∷ d) (n, u) h =
      ground (arith, str_eq_iff j k, length-erase k v d u, erase_missing k d)

  lookup_behind :
      (j : Str) (w : V) (d e : Dict V)
      → lookup j d ≡ none
      → All (λ p. lookup p.0 d ≡ some p.1) e
      → All (λ p. lookup p.0 ((j, w) ∷ d) ≡ some p.1) e
  unfolding lookup
  lookup_behind j w d [] n h = tt
  lookup_behind j w d ((i, v) ∷ e) n (h, hs) =
      (ground (arith, str_eq_iff j i), lookup_behind j w d e n hs)

  -- In a map every entry is the one that its key finds.
  pub Unique-lookup : (d : Dict V) → Unique d → All (λ e. lookup e.0 d ≡ some e.1) d
  unfolding lookup
  Unique-lookup [] u = tt
  Unique-lookup ((j, w) ∷ d) (n, u) =
      (rw (str_eq_refl j), lookup_behind j w d d n (Unique-lookup d u))
