-- ===== src/Socket.antt =====
-- A WebSocket client: go/jsonrpc3/websocket_client.go. It keeps its calls like a peer, but what it
-- queues for the write loop is encoded. The dialling, and the socket's own reads and writes, are left
-- out; the queue does not fill up.
pub mod Incoming
pub mod Delivery
pub mod Queueing
pub mod Refines
pub mod Server
pub mod Exchange
mod Tests
use jsonrpc.Base.{
  ℕ, ◌+◌, Bool, true, false, Option, none, some, List, [], ◌∷◌, ◌++◌, Str, codes, str_eq, Result,
  ok, err, is_some, if◌then◌else◌,
}
use jsonrpc.Base.Decimal.{decimal}
use jsonrpc.Any.{Any, nil}
use jsonrpc.Message.{RawMessage, Request, Response, MessageSet}
use jsonrpc.Message.Convert.{request_to_message_set, batch_to_message_set}
use jsonrpc.Mime.{Codec, get_codec, mime_type_json, mime_type_cbor, mime_type_cbor_compact}
use jsonrpc.Session.{Session, Traits, Cleanup}
use jsonrpc.Batch.{BatchRequest}
use jsonrpc.Peer.{Peer, empty, new_peer, close_peer, register_object, set_error}
use jsonrpc.Peer.Calling.{encode_params, call_request, call_id, get_error, end_call}
use jsonrpc.Peer.Sending.{batch_calls, batch_ids, add_request, next_call_id, next_number}
use jsonrpc.Http.{Wire}

-- `WebSocketClient`: the fields that it shares with a peer, whose own queue stays empty, and the bytes
-- in `writeChan`.
pub record Socket : Type 0 where
  pub peer : Peer
  pub out : List Str

-- The subprotocol that a client proposes, and the content type that an accepted one stands for.
abbrev pub proposed_protocol : Str → Str
proposed_protocol content_type =
    if str_eq content_type mime_type_cbor
    then codes "jsonrpc3.cbor"
    else if str_eq content_type mime_type_cbor_compact
    then codes "jsonrpc3.cbor-compact"
    else codes "jsonrpc3.json"

abbrev pub accepted_content_type : Str → Str → Str
accepted_content_type protocol content_type =
    if str_eq protocol (codes "jsonrpc3.json")
    then mime_type_json
    else if str_eq protocol (codes "jsonrpc3.cbor")
    then mime_type_cbor
    else if str_eq protocol (codes "jsonrpc3.cbor-compact")
    then mime_type_cbor_compact
    else content_type

-- `newWebSocketClient` behind the handshake.
unfoldable pub new_socket : Str → Str → Str → Socket
unfolding new_peer
new_socket protocol content_type prefix = record {
  peer = new_peer (accepted_content_type protocol content_type) prefix;
  out = [];
}

-- The bytes go into the write channel, unless the client is closed.
abbrev pub queue_bytes : Str → Socket → Socket
queue_bytes bytes c = if c.peer.closed then c else record c { out = c.out ++ bytes ∷ [] }

-- `Close`
unfoldable pub close_socket : Traits → Socket → Session → Socket × Session × List Cleanup
unfolding close_peer
close_socket t c s =
    let (p, s', calls) = close_peer t c.peer s in (record c { peer = p }, s', calls)

-- A send of encoded bytes, which fails on a closed client.
abbrev pub post_bytes : {A : Type 0} → Str → A → Socket → Socket → Socket × Result A
post_bytes bytes a held c =
    if c.peer.closed
    then (c, err (codes "connection closed"))
    else (record held { out = c.out ++ bytes ∷ [] }, ok a)

module _ (wire : Wire) where
  -- The bytes of a message set are sent, and the calls in it are held; behind an error nothing is held.
  abbrev pub post_set : {A : Type 0} → Str → A → Socket → Socket → Result Str → Socket × Result A
  post_set what a held c (err e) = (c, err (what ++ e))
  post_set what a held c (ok bytes) = post_bytes bytes a held c

  abbrev pub socket_codec : Socket → Codec
  socket_codec c = get_codec c.peer.content_type

  module _ (float_of : ℕ → ℕ) (marshal : Codec → Any → Result Str) where
    abbrev pub holding_call : Any → Socket → Socket
    holding_call id c = record c {
      peer = record c.peer { calls = (id, empty) ∷ c.peer.calls; pending = id ∷ c.peer.pending };
    }

    abbrev pub made_call : ℕ → Str → Option Str → Result RawMessage → Socket → Socket × Result Any
    made_call n method ref (err e) c = (c, err (codes "failed to create request: " ++ e))
    made_call n method ref (ok raw) c =
        let id = call_id float_of n in
        post_set (codes "failed to encode request: ") id (holding_call id c) c (
          wire.marshal_messages (socket_codec c)
            (request_to_message_set (call_request method ref raw id)))

    abbrev pub numbered : ℕ → Socket → Socket
    numbered n c = record c { peer = record c.peer { next_id = n } }

    -- The first half of `Call`: a new ID, and the request in the queue. An error ends the call.
    unfoldable pub socket_call : Str → Any → Option Str → Socket → Socket × Result Any
    socket_call method params ref c =
        let n = c.peer.next_id + 1 in
        if is_some c.peer.conn_err
        then (c, err (get_error c.peer.conn_err))
        else made_call n method ref (encode_params marshal (socket_codec c) params) (numbered n c)

    abbrev pub made_notification :
        Str → Option Str → Result RawMessage → Socket → Socket × Result Any
    made_notification method ref (err e) c = (c, err (codes "failed to create notification: " ++ e))
    made_notification method ref (ok raw) c =
        post_set (codes "failed to encode notification: ") nil c c (
          wire.marshal_messages (socket_codec c)
            (request_to_message_set (call_request method ref raw nil)))

    -- `Notify`
    unfoldable pub socket_notify : Str → Any → Option Str → Socket → Socket × Result Any
    socket_notify method params ref c =
        if is_some c.peer.conn_err
        then (c, err (get_error c.peer.conn_err))
        else made_notification method ref (encode_params marshal (socket_codec c) params) c

    abbrev pub failed_at : ℕ → Result RawMessage → Result RawMessage
    failed_at i (ok raw) = ok raw
    failed_at i (err e) =
        err (codes "failed to create request " ++ (decimal i ++ (codes ": " ++ e)))

    -- The requests of a batch, with their parameters in the client's format.
    unfoldable pub socket_requests : Codec → ℕ → ℕ → List BatchRequest → ℕ × Result (List Request)
    socket_requests codec i n [] = (n, ok [])
    socket_requests codec i n (b ∷ bs) =
        let n' = next_number float_of marshal b.is_notification n in
        let rest = socket_requests codec (i + 1) n' bs in
        add_request float_of marshal b (next_call_id float_of marshal b.is_notification n)
          (failed_at i (encode_params marshal codec b.params)) n' rest

    abbrev holding_batch : List Request → Socket → Socket
    holding_batch reqs c = record c {
      peer = record c.peer {
        calls = batch_calls float_of marshal reqs ++ c.peer.calls;
        pending = batch_ids float_of marshal reqs ++ c.peer.pending;
      };
    }

    abbrev made_batch : ℕ × Result (List Request) → Socket → Socket × Result (List Request)
    made_batch (n, err e) c = (numbered n c, err e)
    made_batch (n, ok reqs) c =
        post_set (codes "failed to encode batch: ") reqs (holding_batch reqs (numbered n c))
          (numbered n c) (wire.marshal_messages (socket_codec c) (batch_to_message_set reqs))

    abbrev is_nil_batch : List BatchRequest → Bool
    is_nil_batch [] = true
    is_nil_batch (b ∷ bs) = false

    -- The first half of `CallBatch`.
    unfoldable pub socket_batch : List BatchRequest → Socket → Socket × Result (List Request)
    unfolding socket_requests
    socket_batch bs c =
        let made = made_batch (socket_requests (socket_codec c) 0 c.peer.next_id bs) c in
        if is_some c.peer.conn_err
        then (c, err (get_error c.peer.conn_err))
        else if is_nil_batch bs
        then (c, ok [])
        else made
