-- ===== src/Handler/BatchRef/Resolve.antt =====
-- When a batch-local reference is resolved, and the error when it is not.
use jsonrpc.Base.{
  ℕ, ◌-◌, ◌^◌, ◌≤◌, ◌<◌, true, false, Option, none, some, List, [], ◌∷◌, ◌++◌, ◌≡◌, refl, ◌≢◌,
  arith, Str, codes, ok, err, leb, All, get_elem?, Option-cases, Result-cases, if_elim, inl, inr,
  is_some, contains, ap, sym, ◌∙◌, ◌%◌,
}
use jsonrpc.Base.Decimal.{decimal, IsDigit, decimal-IsDigit, value}
use jsonrpc.Any.{Any}
use jsonrpc.Message.{Response}
use jsonrpc.Message.Errors.{
  code_invalid_reference, code_reference_type_error, new_invalid_reference_error,
}
use jsonrpc.Handler.BatchRef.{
  resolve_batch_local_ref, resolve_index, ref_of_response, ref_of_result, forward, out_of_bounds,
  request_failed, not_a_reference, int_decimal, unresolved_error, word, is_negative,
  parse_batch_local_ref,
}
use jsonrpc.Handler.BatchRef.Parse.{
  batch_local_ref, parse_batch_local_ref-batch_local_ref, parse_batch_local_ref_reads,
}

-- A response that gives a reference: no error, and a result with a string under `$ref`.
abbrev pub Gives : (Str → Option (List (Str × Any))) → Response → Str → Type 0
Gives unmarshal_object resp ref =
    (is_some resp.error ≡ false) × (ref_of_result unmarshal_object resp.result ≡ some ref)

module _ (unmarshal_object : Str → Option (List (Str × Any))) (rs : List Response) where
  -- The reference to request `k` is the index `k`.
  resolve_at :
      (k i : ℕ)
      → k < 2 ^ 63
      → resolve_batch_local_ref unmarshal_object (batch_local_ref k) i rs
        ≡ resolve_index unmarshal_object k i rs
  unfolding resolve_batch_local_ref
  resolve_at k i small =
      rw (parse_batch_local_ref-batch_local_ref k (omega arith), resolve_batch_local_ref)

  not_negative : (k : ℕ) → k < 2 ^ 63 → is_negative k ≡ false
  not_negative k small = ground arith

  -- A reference to an earlier request resolves to what the response at its index gives.
  pub resolve_batch_local_ref_found :
      (k i : ℕ) (resp : Response) (ref : Str)
      → k < 2 ^ 63
      → k < i
      → get_elem? rs k ≡ some resp
      → Gives unmarshal_object resp ref
      → resolve_batch_local_ref unmarshal_object (batch_local_ref k) i rs ≡ ok ref
  unfolding resolve_index ref_of_response
  resolve_batch_local_ref_found k i resp ref small earlier there (fine, gives) =
      let later : leb i k ≡ false = ground arith in
      rw (
        resolve_at k i small,
        not_negative k small,
        later,
        there,
        resolve_index,
        fine,
        gives,
        ref_of_response,
      )

  -- A batch-local reference, with an index below 2^63, to its own request or to a later one is
  -- refused, whatever was answered so far.
  pub resolve_batch_local_ref-forward :
      (k i : ℕ)
      → k < 2 ^ 63
      → i ≤ k
      → resolve_batch_local_ref unmarshal_object (batch_local_ref k) i rs ≡ err (forward k)
  unfolding resolve_index
  resolve_batch_local_ref-forward k i small later =
      let ahead : leb i k ≡ true = ground arith in
      rw (resolve_at k i small, not_negative k small, ahead)

  -- A reference to an earlier request is refused where there are not enough responses.
  pub resolve_batch_local_ref_missing :
      (k i : ℕ)
      → k < 2 ^ 63
      → k < i
      → get_elem? rs k ≡ none
      → resolve_batch_local_ref unmarshal_object (batch_local_ref k) i rs ≡ err (out_of_bounds k)
  unfolding resolve_index
  resolve_batch_local_ref_missing k i small earlier absent =
      let later : leb i k ≡ false = ground arith in
      rw (resolve_at k i small, not_negative k small, later, absent, resolve_index)

  resolve_index_sound :
      (k i : ℕ) (ref : Str)
      → resolve_index unmarshal_object k i rs ≡ ok ref
      → (k < i)
        × (k < 2 ^ 63)
        × ((resp : Response) × (get_elem? rs k ≡ some resp) × Gives unmarshal_object resp ref)
  unfolding resolve_index ref_of_response
  resolve_index_sound k i ref h = elim (Option-cases (get_elem? rs k)) [
    | inl absent ↦ ground arith
    | inr (resp, there) ↦ (ground arith, ground arith, (resp, there, (ground arith, ground arith)))
  ]

  -- A text is resolved only if it is a backslash with decimal digits behind it, or nothing. The number
  -- that they spell, modulo 2^64, is then below 2^63 and the position of an earlier request; the
  -- response at that position has no error, and its result gives the reference.
  pub resolve_batch_local_ref_sound :
      (s : Str) (i : ℕ) (ref : Str)
      → resolve_batch_local_ref unmarshal_object s i rs ≡ ok ref
      → (digits : Str) × (s ≡ b'\\' ∷ digits)
        × All IsDigit digits
        × (let k = value 0 digits % 2 ^ 64 in
            (k < i)
            × (k < 2 ^ 63)
            × ((resp : Response) × (get_elem? rs k ≡ some resp) × Gives unmarshal_object resp ref))
  unfolding resolve_batch_local_ref
  resolve_batch_local_ref_sound s i ref h = elim (Result-cases (parse_batch_local_ref s)) [
    | inr (e, p) ↦ absurd (ground arith)
    | inl (k, p) ↦
        let (digits, text, all_digits, reads) = parse_batch_local_ref_reads s k p in
        let resolved : resolve_index unmarshal_object k i rs ≡ ok ref = ground arith in
        (
          digits,
          text,
          all_digits,
          resolve_index_sound (value 0 digits % 2 ^ 64) i ref
              (ap (λ n. resolve_index unmarshal_object n i rs) (sym reads) ∙ resolved),
        )
  ]

-- A character that the text `is not a reference` does not begin with.
abbrev Skipped : ℕ → Type 0
Skipped c = c ≢ b'i'

contains-Skipped :
    (d rest : Str)
    → All Skipped d
    → contains (d ++ rest) (codes "is not a reference") ≡ contains rest (codes "is not a reference")
contains-Skipped [] rest h = refl
contains-Skipped (c ∷ d) rest (h, hs) = ground (arith, contains-Skipped d rest hs)

contains-only-Skipped : (d : Str) → All Skipped d → contains d (codes "is not a reference") ≡ false
contains-only-Skipped [] h = refl
contains-only-Skipped (c ∷ d) (h, hs) = ground (arith, contains-only-Skipped d hs)

digits-Skipped : (d : Str) → All IsDigit d → All Skipped d
digits-Skipped [] h = tt
digits-Skipped (c ∷ d) (h, hs) = (ground arith, digits-Skipped d hs)

int_decimal-Skipped : (k : ℕ) → All Skipped (int_decimal k)
unfolding int_decimal
int_decimal-Skipped k =
    if_elim (All Skipped) (is_negative k) (b'-' ∷ decimal (word - k)) (decimal k)
      (cc, digits-Skipped _ (decimal-IsDigit (word - k))) (digits-Skipped _ (decimal-IsDigit k))

-- The code of the answer to a reference that is not resolved: -32003 if the earlier result is no
-- reference, and -32001 if the reference points ahead, out of the batch or to a failed request.
pub unresolved_error_code :
    (k : ℕ)
    → ((unresolved_error (not_a_reference k)).code ≡ code_reference_type_error)
      × ((unresolved_error (forward k)).code ≡ code_invalid_reference)
      × ((unresolved_error (out_of_bounds k)).code ≡ code_invalid_reference)
      × ((unresolved_error (request_failed k)).code ≡ code_invalid_reference)
unfolding unresolved_error not_a_reference forward out_of_bounds request_failed
    new_invalid_reference_error
unresolved_error_code k = (
  rw (contains-Skipped (int_decimal k) (codes " is not a reference") (int_decimal-Skipped k)),
  rw (
      contains-Skipped (int_decimal k) (codes " refers to current or future request")
        (int_decimal-Skipped k)),
  rw (contains-only-Skipped (int_decimal k) (int_decimal-Skipped k)),
  rw (contains-Skipped (int_decimal k) (codes " failed") (int_decimal-Skipped k)),
)
