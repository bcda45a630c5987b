-- ===== src/Batch.antt =====
-- The building of a batch, and the results of one: go/jsonrpc3/batch.go.
-- `id_gen n` is the ID that the n-th call of `idGen` gives; `unmarshal` decodes a result by its format.
pub mod Chained
pub mod Outcomes
mod Tests
use jsonrpc.Base.{
  ℕ, ◌+◌, ◌<◌, ltb, Bool, true, false, Option, none, some, List, [], ◌∷◌, ◌++◌, map, Str, codes,
  Result, ok, err, length, get_elem?, is_empty, is_some, if◌then◌else◌,
}
use jsonrpc.Base.Decimal.{decimal}
use jsonrpc.Base.Int.{ℤ, pos, negsuc}
use jsonrpc.Any.{Any, nil, is_nil}
use jsonrpc.Message.{RawMessage, Error, Request, Response, version_30, is_notification}
use jsonrpc.Handler.BatchRef.Parse.{batch_local_ref}
use jsonrpc.Mime.{Codec, get_codec, mime_type_json}

-- `made` counts the IDs that `idGen` has given.
pub record BatchBuilder : Type 0 where
  pub requests : List Request
  pub raw_params : List Any
  pub made : ℕ

-- `newBatchBuilder`
abbrev pub new_batch_builder : BatchBuilder
new_batch_builder = record { requests = []; raw_params = []; made = 0 }

-- The request of a call, with an empty placeholder for its parameters.
abbrev pub builder_request : Str → Str → Any → Request
builder_request ref method id = record {
  jsonrpc = version_30;
  ref = ref;
  method = method;
  params = some [];
  id = id;
  format = [];
}

-- What a request of `CallBatch` says.
pub record BatchRequest : Type 0 where
  pub ref : Str
  pub method : Str
  pub params : Any
  pub is_notification : Bool

module _ (id_gen : ℕ → Any) where
  abbrev add_call : Str → Str → Any → BatchBuilder → BatchBuilder × ℕ
  add_call ref method params b = (
    record {
      requests = b.requests ++ builder_request ref method (id_gen (b.made + 1)) ∷ [];
      raw_params = b.raw_params ++ params ∷ [];
      made = b.made + 1;
    },
    length b.requests,
  )

  -- `BatchBuilder.Call`: the builder after it, and the index of the promise.
  unfoldable pub builder_call : Str → Any → BatchBuilder → BatchBuilder × ℕ
  builder_call method params b = add_call [] method params b

  -- `BatchBuilderPromise.Call`, on the promise of an index.
  unfoldable pub promise_call : ℕ → Str → Any → BatchBuilder → BatchBuilder × ℕ
  promise_call index method params b = add_call (batch_local_ref index) method params b

-- The conversion of `ExecuteBatch`; requests and parameters are of one length.
abbrev pub batch_requests : List Request → List Any → List BatchRequest
batch_requests [] ps = []
batch_requests (r ∷ rs) [] = []
batch_requests (r ∷ rs) (p ∷ ps) =
    record { ref = r.ref; method = r.method; params = p; is_notification = is_nil r.id }
    ∷ batch_requests rs ps

-- `ExecuteBatch` up to the call of `CallBatch`, with the outcome of the builder function.
unfoldable pub execute_batch : Result BatchBuilder → Result (List BatchRequest)
execute_batch (err e) = err (codes "batch builder error: " ++ e)
execute_batch (ok b) = ok (batch_requests b.requests b.raw_params)

-- The responses by the position of their requests: none for a notification.
pub record BatchResults : Type 0 where
  pub responses : List (Option Response)
  pub format : Str

-- The error of a result: that of the response, or one with a text.
pub data BatchError : Type 0 where
  of_response : Error → BatchError
  with_text : Str → BatchError

pub data GetOutcome : Type 0 where
  got : Any → GetOutcome
  not_got : BatchError → GetOutcome

-- The response at an index: `none` out of bounds.
abbrev pub response_at : ℤ → List (Option Response) → Option (Option Response)
response_at (negsuc n) rs = none
response_at (pos n) rs = get_elem? rs n

abbrev int_text : ℤ → Str
int_text (pos n) = decimal n
int_text (negsuc n) = codes "-" ++ decimal (n + 1)

abbrev pub batch_bounds : ℤ → ℕ → Str
batch_bounds i n =
    codes "index " ++ int_text i ++ codes " out of bounds (batch size: " ++ decimal n ++ codes ")"

abbrev pub no_response : ℤ → Str
no_response i = codes "no response at index " ++ int_text i ++ codes " (notification)"

module _ (unmarshal : Codec → Str → Result Any) where
  -- `RawMessage.UnmarshalValue` into a nil value: an empty message leaves it nil.
  abbrev unmarshal_value : Str → RawMessage → Result Any
  unmarshal_value format none = ok nil
  unmarshal_value format (some []) = ok nil
  unmarshal_value format (some (c ∷ cs)) = unmarshal (get_codec format) (c ∷ cs)

  abbrev decoded : Result Any → GetOutcome
  decoded (ok v) = got v
  decoded (err e) = not_got (with_text (codes "failed to decode result: " ++ e))

  -- What a response holds: its error, or its decoded result.
  abbrev pub outcome_of : Str → Option Error → RawMessage → GetOutcome
  outcome_of format (some e) raw = not_got (of_response e)
  outcome_of format none raw = decoded (unmarshal_value format raw)

  abbrev pub result_at : ℤ → Str → ℕ → Option (Option Response) → GetOutcome
  result_at i format n none = not_got (with_text (batch_bounds i n))
  result_at i format n (some none) = not_got (with_text (no_response i))
  result_at i format n (some (some r)) = outcome_of format r.error r.result

  -- `BatchResults.GetResult`; `DecodeResult` differs in the type that it decodes into.
  unfoldable pub get_result : ℤ → BatchResults → GetOutcome
  get_result i br =
      let format = if is_empty br.format then mime_type_json else br.format in
      result_at i format (length br.responses) (response_at i br.responses)

  abbrev add_result : GetOutcome → Option (Result (List Any)) → Option (Result (List Any))
  add_result (not_got e) rest = some (err (codes "error at index"))
  add_result (got v) none = none
  add_result (got v) (some (err e)) = some (err e)
  add_result (got v) (some (ok vs)) = some (ok (v ∷ vs))

  -- `BatchResults.GetResults`, the text of its errors left out; `none` is the panic of a nil response.
  unfoldable pub get_results : List (Option Response) → Option (Result (List Any))
  get_results [] = some (ok [])
  get_results (none ∷ rs) = none
  get_results (some r ∷ rs) =
      add_result (outcome_of mime_type_json r.error r.result) (get_results rs)

-- `BatchResults.HasError`; `none` is the panic of a nil response.
unfoldable pub has_error : List (Option Response) → Option Bool
has_error [] = some false
has_error (none ∷ rs) = none
has_error (some r ∷ rs) = let rest = has_error rs in if is_some r.error then some true else rest
