-- ===== src/Message/Convert/RoundTrip.antt =====
-- What survives the way into a message set and back.
use jsonrpc.Base.{
  ℕ, ◌+◌, true, false, List, [], ◌∷◌, map, ◌≡◌, refl, arith, Str, codes, Result, ok, err, All,
  is_empty, is_some, ◌||◌, ◌++◌, ap, Bool-cases, inl, inr, ◌⊎◌, length, if◌then◌else◌,
}
use jsonrpc.Message.Data.{
  Request, Response, Message, MessageSet, Batch, BatchResponse, is_request, is_response, set_format,
  set_request_format,
}
use jsonrpc.Message.Convert.{
  message_of_request, request_of_message, message_of_response, request_to_message_set,
  response_to_message_set, batch_response_to_message_set, batch_to_message_set, to_request,
  to_response, requests_from, to_batch, responses_from, to_batch_response, at_index, set_formats,
}

-- A request that can be sent: it names a method.
abbrev pub HasMethod : Request → Type 0
HasMethod r = is_empty r.method ≡ false

-- A response that the reader knows as one: it has a result or an error.
abbrev pub HasOutcome : Response → Type 0
HasOutcome r = (is_some r.result || is_some r.error) ≡ true

-- A request that names a method is read back from its message set, with the reader's format.
pub to_request-request_to_message_set :
    (f : Str) (r : Request)
    → HasMethod r
    → to_request (set_formats f (request_to_message_set r)) ≡ ok (set_request_format f r)
unfolding to_request set_formats request_to_message_set set_format set_request_format is_request
to_request-request_to_message_set f r h = rw h

requests_from-map :
    (f : Str) (b : Batch) (i : ℕ)
    → All HasMethod b
    → requests_from i (map (set_format f) (map message_of_request b))
      ≡ ok (map (set_request_format f) b)
unfolding requests_from set_format set_request_format message_of_request is_request
requests_from-map f [] i h = refl
requests_from-map f (r ∷ b) i (h, hs) = rw (h, requests_from-map f b (i + 1) hs)

-- A batch of requests that name methods is read back in order, with the reader's format.
pub to_batch-batch_to_message_set :
    (f : Str) (b : Batch)
    → All HasMethod b
    → to_batch (set_formats f (batch_to_message_set b)) ≡ ok (map (set_request_format f) b)
unfolding to_batch set_formats batch_to_message_set
to_batch-batch_to_message_set f b h = requests_from-map f b 0 h

-- A response is read back from its message set exactly when it has a result or an error.
pub to_response-response_to_message_set :
    (f : Str) (r : Response)
    → to_response (set_formats f (response_to_message_set r)) ≡ (
        if is_some r.result || is_some r.error
        then ok r
        else err (codes "message is not a response"))
unfolding to_response set_formats response_to_message_set set_format is_response
to_response-response_to_message_set f r = ground arith

responses_from-map :
    (f : Str) (b : BatchResponse) (i : ℕ)
    → All HasOutcome b
    → responses_from i (map (set_format f) (map message_of_response b)) ≡ ok b
unfolding responses_from set_format message_of_response is_response
responses_from-map f [] i h = refl
responses_from-map f (r ∷ b) i (h, hs) = rw (h, responses_from-map f b (i + 1) hs)

-- A batch of responses, each with a result or an error, is read back unchanged.
pub to_batch_response-batch_response_to_message_set :
    (f : Str) (b : BatchResponse)
    → All HasOutcome b
    → to_batch_response (set_formats f (batch_response_to_message_set b)) ≡ ok b
unfolding to_batch_response set_formats batch_response_to_message_set
to_batch_response-batch_response_to_message_set f b h = responses_from-map f b 0 h

abbrev pub IsRequest : Message → Type 0
IsRequest m = is_request m ≡ true

-- The first message that is no request, with those before it and those behind it.
abbrev pub FirstOther : ℕ → List Message → Result Batch → Type 0
FirstOther i ms r =
    (before : List Message) × (m : Message) × (after : List Message) × (ms ≡ before ++ m ∷ after)
    × All IsRequest before
    × (is_request m ≡ false)
    × (r ≡ err (at_index (i + length before) (codes " is not a request")))

abbrev pub Converted : ℕ → List Message → Result Batch → Type 0
Converted i ms r = (All IsRequest ms × (r ≡ ok (map request_of_message ms))) ⊎ FirstOther i ms r

requests_from-Converted : (i : ℕ) (ms : List Message) → Converted i ms (requests_from i ms)
unfolding requests_from
requests_from-Converted i [] = inl (tt, refl)
requests_from-Converted i (m ∷ ms) = elim (Bool-cases (is_request m)) [
  | inl h ↦ elim (requests_from-Converted (i + 1) ms) [
    | inl (hs, e) ↦ inl ((h, hs), rw (h, e))
    | inr (before, x, after, split, hs, hx, e) ↦ inr (
      m ∷ before,
      x,
      after,
      ap (λ t. m ∷ t) split,
      (h, hs),
      hx,
      rw (h, e) (ap (λ k. err (at_index k (codes " is not a request"))) (omega arith)),
    )
  ]
  | inr h ↦ inr (
    [],
    m,
    ms,
    refl,
    tt,
    h,
    rw h (ap (λ k. err (at_index k (codes " is not a request"))) (omega arith)),
  )
]

-- `ToBatch` converts every message in order if all are requests, and else reports the index of the
-- first that is not.
pub to_batch-Converted : (ms : MessageSet) → Converted 0 ms.messages (to_batch ms)
unfolding to_batch
to_batch-Converted ms = requests_from-Converted 0 ms.messages
