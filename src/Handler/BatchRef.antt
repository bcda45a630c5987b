-- ===== src/Handler/BatchRef.antt =====
-- Batch-local references, `\0`, `\1` and so on: `isBatchLocalRef`, `parseBatchLocalRef` and
-- `resolveBatchLocalRef` of go/jsonrpc3/handler.go. An `int` has 64 bits.
pub mod Parse
pub mod Resolve
use jsonrpc.Base.{
  ℕ, zero, suc, ◌+◌, ◌-◌, ◌*◌, ◌%◌, ◌^◌, Bool, true, false, not, ◌||◌, ◌&&◌, Option, none, some,
  List, [], ◌∷◌, ◌++◌, Str, codes, Result, ok, err, length, get_elem?, ltb, leb, ◌==◌, is_some,
  contains, str_eq, if◌then◌else◌,
}
use jsonrpc.Base.Decimal.{decimal}
use jsonrpc.Any.{Any, text}
use jsonrpc.Message.{Error, Response, RawMessage}
use jsonrpc.Message.Errors.{code_reference_type_error, new_invalid_reference_error}

abbrev pub backslash : ℕ
backslash = b'\\'

-- `isBatchLocalRef`
unfoldable pub is_batch_local_ref : Str → Bool
is_batch_local_ref [] = false
is_batch_local_ref (c ∷ s) = c == backslash

abbrev pub word : ℕ
word = 2 ^ 64

-- `index*10 + int(ch-'0')`, which wraps around.
abbrev add_digit : ℕ → ℕ → ℕ
add_digit index c = (index * 10 + (c - b'0')) % word

-- The loop of `parseBatchLocalRef`, on the bit pattern of the index.
scan : Str → Str → ℕ → Result ℕ
scan ref [] index = ok index
scan ref (c ∷ s) index =
    let rest = scan ref s (add_digit index c) in
    if ltb c b'0' || ltb b'9' c
    then err (codes "invalid batch-local reference format: " ++ ref)
    else rest

parse_index : Str → Result ℕ
unfolding scan
parse_index [] = ok 0
parse_index (c ∷ s) = scan (c ∷ s) s 0

-- `parseBatchLocalRef`
unfoldable pub parse_batch_local_ref : Str → Result ℕ
unfolding parse_index is_batch_local_ref
parse_batch_local_ref ref =
    if not (is_batch_local_ref ref)
    then err (codes "not a batch-local reference: " ++ ref)
    else parse_index ref

-- Whether the bit pattern is that of a negative `int`.
abbrev is_negative : ℕ → Bool
is_negative index = leb (2 ^ 63) index

-- An `int` in decimal.
int_decimal : ℕ → Str
int_decimal index = if is_negative index then b'-' ∷ decimal (word - index) else decimal index

-- The value under a key of a decoded object; a later entry of the same key wins, as in the map.
abbrev value_at : Str → List (Str × Any) → Option Any
value_at k [] = none
value_at k ((j, v) ∷ m) =
    let rest = value_at k m in
    elim rest [ some x ↦ some x | none ↦ if str_eq j k then some v else none ]

-- The string there, if it is one.
abbrev string_at : Str → List (Str × Any) → Option Str
string_at k m = elim (value_at k m) [ some (text s) ↦ some s | _ ↦ none ]

-- The messages of `resolveBatchLocalRef`.
pub forward : ℕ → Str
unfolding int_decimal
forward index =
    codes "forward reference not allowed: \\"
    ++ (int_decimal index ++ codes " refers to current or future request")

pub out_of_bounds : ℕ → Str
unfolding int_decimal
out_of_bounds index = codes "reference index out of bounds: \\" ++ int_decimal index

pub request_failed : ℕ → Str
unfolding int_decimal
request_failed index = codes "referenced request \\" ++ (int_decimal index ++ codes " failed")

pub not_a_reference : ℕ → Str
unfolding int_decimal
not_a_reference index =
    codes "result from request \\" ++ (int_decimal index ++ codes " is not a reference")

module _ (unmarshal_object : Str → Option (List (Str × Any))) where
  -- The `$ref` of an encoded result.
  unfoldable pub ref_of_result : RawMessage → Option Str
  ref_of_result none = none
  ref_of_result (some bytes) = elim (unmarshal_object bytes) [
    | none ↦ none
    | some m ↦ string_at (codes "$ref") m
  ]

  -- The reference in a response.
  ref_of_response : ℕ → Response → Result Str
  unfolding ref_of_result
  ref_of_response index resp =
      if is_some resp.error then err (request_failed index) else elim (ref_of_result resp.result) [
        | some ref ↦ ok ref
        | none ↦ err (not_a_reference index)
      ]

  -- The checks of `resolveBatchLocalRef` on the index.
  resolve_index : ℕ → ℕ → List Response → Result Str
  unfolding ref_of_response
  resolve_index index current responses =
      if not (is_negative index) && leb current index
      then err (forward index)
      else if is_negative index
      then err (out_of_bounds index)
      else elim (get_elem? responses index) [
        | none ↦ err (out_of_bounds index)
        | some resp ↦ ref_of_response index resp
      ]

  -- `resolveBatchLocalRef`
  unfoldable pub resolve_batch_local_ref : Str → ℕ → List Response → Result Str
  unfolding resolve_index parse_batch_local_ref
  resolve_batch_local_ref ref current responses = elim (parse_batch_local_ref ref) [
    | err e ↦ err e
    | ok index ↦ resolve_index index current responses
  ]

abbrev type_error : Str → Error
type_error message = record {
  code = code_reference_type_error;
  message = codes "Reference type error";
  details = text message;
}

-- The error of `HandleBatch` for a reference that is not resolved, by the text of the failure.
unfoldable pub unresolved_error : Str → Error
unresolved_error message =
    if contains message (codes "is not a reference")
    then type_error message
    else new_invalid_reference_error (text message)
