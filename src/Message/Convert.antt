-- ===== src/Message/Convert.antt =====
-- Between requests, responses, batches and message sets: the conversions of
-- go/jsonrpc3/jsonrpc3.go.
pub mod RoundTrip
use jsonrpc.Base.{
  ℕ, suc, ◌+◌, Bool, true, false, not, Option, none, some, List, [], ◌∷◌, ◌++◌, map, Str, codes,
  Result, ok, err, length, ◌==◌, if◌then◌else◌,
}
use jsonrpc.Base.Decimal.{decimal}
use jsonrpc.Message.Data.{
  Error, Request, Response, Message, MessageSet, Batch, BatchResponse, is_request, is_response,
  set_format,
}

-- The fields of a request in a message, and of a message in a request.
unfoldable pub message_of_request : Request → Message
message_of_request r = record {
  jsonrpc = r.jsonrpc;
  ref = r.ref;
  method = r.method;
  params = r.params;
  result = none;
  error = none;
  id = r.id;
  format = [];
}

unfoldable pub request_of_message : Message → Request
request_of_message m = record {
  jsonrpc = m.jsonrpc;
  ref = m.ref;
  method = m.method;
  params = m.params;
  id = m.id;
  format = m.format;
}

unfoldable pub message_of_response : Response → Message
message_of_response r = record {
  jsonrpc = r.jsonrpc;
  ref = [];
  method = [];
  params = none;
  result = r.result;
  error = r.error;
  id = r.id;
  format = [];
}

unfoldable pub response_of_message : Message → Response
response_of_message m = record {
  jsonrpc = m.jsonrpc;
  result = m.result;
  error = m.error;
  id = m.id;
}

-- `Message.ToRequest`
unfoldable pub message_to_request : Message → Option Request
unfolding request_of_message
message_to_request m = if not (is_request m) then none else some (request_of_message m)

-- `Message.ToResponse`
unfoldable pub message_to_response : Message → Option Response
unfolding response_of_message
message_to_response m = if not (is_response m) then none else some (response_of_message m)

-- `Request.ToMessageSet` and `NewMessageSetFromRequest`
unfoldable pub request_to_message_set : Request → MessageSet
unfolding message_of_request
request_to_message_set r = record { messages = message_of_request r ∷ []; is_batch = false }

-- `Response.ToMessageSet`
unfoldable pub response_to_message_set : Response → MessageSet
unfolding message_of_response
response_to_message_set r = record { messages = message_of_response r ∷ []; is_batch = false }

-- `BatchResponse.ToMessageSet`
unfoldable pub batch_response_to_message_set : BatchResponse → MessageSet
unfolding message_of_response
batch_response_to_message_set b = record { messages = map message_of_response b; is_batch = true }

-- `Batch.ToMessageSet`
unfoldable pub batch_to_message_set : Batch → MessageSet
unfolding message_of_request
batch_to_message_set b = record { messages = map message_of_request b; is_batch = true }

not_one : List Message → Str
not_one ms = codes "MessageSet contains " ++ (decimal (length ms) ++ codes " messages, expected 1")

single_request : List Message → Result Request
unfolding request_of_message not_one
single_request (m ∷ []) =
    if not (is_request m) then err (codes "message is not a request") else ok (request_of_message m)
single_request ms = err (not_one ms)

-- `MessageSet.ToRequest`
unfoldable pub to_request : MessageSet → Result Request
unfolding single_request
to_request ms = single_request ms.messages

single_response : List Message → Result Response
unfolding response_of_message not_one
single_response (m ∷ []) =
    if not (is_response m)
    then err (codes "message is not a response")
    else ok (response_of_message m)
single_response ms = err (not_one ms)

-- `MessageSet.ToResponse`
unfoldable pub to_response : MessageSet → Result Response
unfolding single_response
to_response ms = single_response ms.messages

pub at_index : ℕ → Str → Str
at_index i what = codes "message at index " ++ (decimal i ++ what)

-- An element in front of the rest of a batch, unless the rest is an error.
abbrev prepend : {A : Type 0} → A → Result (List A) → Result (List A)
prepend a (ok rest) = ok (a ∷ rest)
prepend a (err e) = err e

-- The loop of `MessageSet.ToBatch` from index `i`.
requests_from : ℕ → List Message → Result Batch
unfolding request_of_message at_index
requests_from i [] = ok []
requests_from i (m ∷ ms) =
    if not (is_request m)
    then err (at_index i (codes " is not a request"))
    else prepend (request_of_message m) (requests_from (i + 1) ms)

-- `MessageSet.ToBatch`
unfoldable pub to_batch : MessageSet → Result Batch
unfolding requests_from
to_batch ms = requests_from 0 ms.messages

-- The loop of `MessageSet.ToBatchResponse` from index `i`.
responses_from : ℕ → List Message → Result BatchResponse
unfolding response_of_message at_index
responses_from i [] = ok []
responses_from i (m ∷ ms) =
    if not (is_response m)
    then err (at_index i (codes " is not a response"))
    else prepend (response_of_message m) (responses_from (i + 1) ms)

-- `MessageSet.ToBatchResponse`
unfoldable pub to_batch_response : MessageSet → Result BatchResponse
unfolding responses_from
to_batch_response ms = responses_from 0 ms.messages

-- What a decoder does to a message set: every message carries the decoder's mimetype.
unfoldable pub set_formats : Str → MessageSet → MessageSet
set_formats mimetype ms = record ms { messages = map (set_format mimetype) ms.messages }
