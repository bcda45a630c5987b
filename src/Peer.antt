-- ===== src/Peer.antt =====
-- A peer: its calls in progress, and what it does with what it reads: go/jsonrpc3/peer.go.
-- `float_of n` is the bit pattern of `float64(n)`. Goroutines are steps, one behind the other; the
-- queue of the write loop does not fill up.
mod Data
pub mod Calling
pub mod Sending
pub mod Matching
pub mod Numbering
pub mod Collecting
pub mod Reading
pub mod Closing
mod Tests
pub use Data.*
use jsonrpc.Base.{
  ℕ, ◌+◌, ◌%◌, ◌^◌, Bool, true, false, not, ◌||◌, ◌&&◌, ◌≡◌, Option, none, some, List, [], ◌∷◌,
  ◌++◌, map, Str, codes, Result, ok, err, is_empty, is_some, if◌then◌else◌,
}
use jsonrpc.Base.Decimal.{signed_decimal}
use jsonrpc.Any.{Any, nil, number, float64, text, slice, mapping, is_nil, deep_equal}
use jsonrpc.Message.{
  RawMessage, Error, Request, Response, Message, MessageSet, BatchResponse, version_30, is_request,
  is_response, is_notification,
}
use jsonrpc.Message.Convert.{
  message_to_request, message_to_response, request_to_message_set, response_to_message_set,
  batch_response_to_message_set, to_batch,
}
use jsonrpc.Message.Errors.{new_error_response, new_internal_error, new_invalid_request_error}
use jsonrpc.Session.{Session, Traits, Cleanup, add_local_ref, remove_local_ref, dispose_all}
use jsonrpc.Env.{Env}
use jsonrpc.Mime.{Codec, get_codec}
use jsonrpc.Handler.{Handler, handle_request, handle_batch}

-- `NewPeer`, with the random prefix that it is given.
unfoldable pub new_peer : Str → Str → Peer
new_peer content_type prefix = record {
  content_type = content_type;
  next_id = 0;
  ref_prefix = prefix;
  ref_counter = 0;
  calls = [];
  pending = [];
  queue = [];
  closed = false;
  conn_err = none;
}

-- `RegisterObject`: the counter is an `int64`, kept as its bit pattern; the reference, and the session with the object under it.
unfoldable pub register_object : Str → ℕ → Peer → Session → Peer × Session × Str
register_object ref obj p s =
    if is_empty ref
    then (let count = (p.ref_counter + 1) % 2 ^ 64 in
        let r = p.ref_prefix ++ (codes "-" ++ signed_decimal count) in
        (record p { ref_counter = count }, (add_local_ref r obj s).0, r))
    else (p, (add_local_ref ref obj s).0, ref)

-- `UnregisterObject`
unfoldable pub unregister_object : Traits → Str → Session → Session × List Cleanup
unregister_object t ref s = let (s', existed, calls) = remove_local_ref t ref s in (s', calls)

-- `setError`: the first error stays.
unfoldable pub set_error : Str → Peer → Peer
set_error e p = if is_some p.conn_err then p else record p { conn_err = some e }

abbrev pub listed : Any → List Any → Bool
listed id [] = false
listed id (j ∷ ids) = deep_equal j id || listed id ids

-- A send to a channel with room; a full one is left as it is.
abbrev pub offer : Response → Channel → Channel
offer r empty = holding r
offer r (holding q) = holding q
offer r shut = shut

abbrev pub offer_call : Any → Response → List (Any × Channel) → List (Any × Channel)
offer_call id r [] = []
offer_call id r ((j, ch) ∷ calls) =
    (j, if deep_equal j id then offer r ch else ch) ∷ offer_call id r calls

-- Whether a value can be a key of a Go map: a slice or a map cannot, and the lookup panics.
unfoldable pub is_hashable : Any → Bool
is_hashable (slice t xs) = false
is_hashable (mapping t xs) = false
is_hashable _ = true

-- A response for the call that waits for its ID; `none` is a panic.
unfoldable pub deliver : Option Response → Peer → Option Peer
unfolding is_hashable
deliver none p = some p
deliver (some resp) p =
    if not (is_hashable resp.id)
    then none
    else if listed resp.id p.pending
    then some (record p { calls = offer_call resp.id resp p.calls })
    else some p

-- `handleIncomingResponse`; `none` is the panic of a lookup by an ID that is no key.
unfoldable pub handle_incoming_response : Message → Peer → Option Peer
unfolding deliver
handle_incoming_response m p = deliver (message_to_response m) p

-- The loop over the responses of a message set.
unfoldable pub handle_responses : List Message → Peer → Option Peer
unfolding handle_incoming_response
handle_responses [] p = some p
handle_responses (m ∷ ms) p = elim (handle_incoming_response m p) [
  | none ↦ none
  | some p' ↦ handle_responses ms p'
]

-- `notifyPendingRequest` for a request that could not be sent.
unfoldable pub notify_pending_request : Request → Str → Peer → Peer
notify_pending_request req e p =
    let resp : Response = record {
      jsonrpc = req.jsonrpc;
      result = none;
      error = some (new_internal_error (text (codes "Failed to send request: " ++ e)));
      id = req.id;
    } in
    if is_nil req.id
    then p
    else if listed req.id p.pending
    then record p { calls = offer_call req.id resp p.calls }
    else p

abbrev pub add_refusal : Option Request → Error → BatchResponse → BatchResponse
add_refusal none e rest = rest
add_refusal (some req) e rest =
    if is_notification req then rest else new_error_response req.id e version_30 ∷ rest

-- The responses that `sendErrorForBatch` sends: one for each request with an ID.
unfoldable pub error_responses : List Message → Error → BatchResponse
error_responses [] e = []
error_responses (m ∷ ms) e = add_refusal (message_to_request m) e (error_responses ms e)

-- What is put into the write channel: nothing once the peer is closed.
unfoldable pub enqueue : MessageSet → Peer → Peer
enqueue ms p = if p.closed then p else record p { queue = p.queue ++ ms ∷ [] }

-- A batch of responses, if there is one at least.
unfoldable pub enqueue_batch : BatchResponse → Peer → Peer
unfolding enqueue
enqueue_batch [] p = p
enqueue_batch (r ∷ rs) p = enqueue (batch_response_to_message_set (r ∷ rs)) p

abbrev all_requests : List Message → Bool
all_requests [] = true
all_requests (m ∷ ms) = is_request m && all_requests ms

abbrev all_responses : List Message → Bool
all_responses [] = true
all_responses (m ∷ ms) = is_response m && all_responses ms

-- What the read loop takes a message set for.
pub data Incoming : Type 0 where
  batch_requests single_request responses invalid_batch : Incoming

unfoldable pub classify : MessageSet → Incoming
classify ms =
    if all_requests ms.messages && ms.is_batch
    then batch_requests
    else if all_requests ms.messages
    then single_request
    else if all_responses ms.messages
    then responses
    else invalid_batch

-- A closed channel still gives the response that it holds.
abbrev shut_channel : Bool → Channel → Channel
shut_channel true empty = shut
shut_channel true (holding r) = holding r
shut_channel true shut = shut
shut_channel false ch = ch

-- The channels of the pending calls are closed.
abbrev pub shut_calls : List Any → List (Any × Channel) → List (Any × Channel)
shut_calls ids [] = []
shut_calls ids ((j, ch) ∷ calls) = (j, shut_channel (listed j ids) ch) ∷ shut_calls ids calls

-- `Close`, which acts once.
unfoldable pub close_peer : Traits → Peer → Session → Peer × Session × List Cleanup
close_peer t p s =
    let (s', locals, remotes, cleanups) = dispose_all t s in
    if p.closed then (p, s, []) else (
      record p { closed = true; calls = shut_calls p.pending p.calls; pending = [] },
      s',
      cleanups,
    )
