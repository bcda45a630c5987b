-- ===== src/Stream.antt =====
-- Connections over one stream of bytes: `Peer`, `HTTP2Client`, `HTTP2Conn`, `WebTransportClient` and
-- `WebTransportConn` of go/jsonrpc3. Each keeps its calls like a peer; its write loop takes the items
-- from the write channel one behind the other, encodes them, and writes them to the stream.
pub mod Writing
pub mod Ends
pub mod Exchange
pub mod Http2Client
pub mod WebTransport
pub mod WebTransportClient
pub mod Formats
mod Tests
use jsonrpc.Base.{
  ℕ, Bool, Option, none, some, List, [], ◌∷◌, ◌++◌, Str, codes, Result, ok, err, is_some,
  if◌then◌else◌,
}
use jsonrpc.Any.{Any}
use jsonrpc.Message.{Request, Response, MessageSet, BatchResponse}
use jsonrpc.Message.Convert.{
  request_to_message_set, response_to_message_set, batch_response_to_message_set,
}
use jsonrpc.Session.{Session, Cleanup}
use jsonrpc.Batch.{BatchRequest}
use jsonrpc.Mime.{Codec, get_codec}
use jsonrpc.Peer.{Peer, notify_pending_request, set_error, shut_calls}
use jsonrpc.Peer.Calling.{get_error, begin_call}
use jsonrpc.Peer.Sending.{send_batch}
use jsonrpc.Socket.{socket_requests}
use jsonrpc.Http.{Wire}

-- What is sent on the write channel, a `MessageSetConvertible`.
pub data Item : Type 0 where
  request_item : Request → Item
  response_item : Response → Item
  responses_item : BatchResponse → Item
  set_item : MessageSet → Item

-- `ToMessageSet`
abbrev pub item_set : Item → MessageSet
item_set (request_item r) = request_to_message_set r
item_set (response_item r) = response_to_message_set r
item_set (responses_item rs) = batch_response_to_message_set rs
item_set (set_item ms) = ms

-- `notifyPendingRequest`: only a request has a caller that waits.
abbrev pub notify_item : Item → Str → Peer → Peer
notify_item (request_item r) e p = notify_pending_request r e p
notify_item (response_item r) e p = p
notify_item (responses_item rs) e p = p
notify_item (set_item ms) e p = p

-- `Net` is the state of the stream; `write` gives the error of a write, if there is one.
module _ (wire : Wire) (Net : Type 0) (write : Str → Net → Option Str × Net) where
  abbrev pub written : Option Str × Net → Option Str × Net
  written (none, n) = (none, n)
  written (some e, n) = (some (codes "write error: " ++ e), n)

  abbrev pub write_encoded : Result Str → Net → Option Str × Net
  write_encoded (err e) n = (some (codes "marshal error: " ++ e), n)
  write_encoded (ok bytes) n = written (write bytes n)

  -- One item on its way to the stream: the error, if there is one.
  unfoldable pub write_item : Codec → Item → Net → Option Str × Net
  write_item codec i n = write_encoded (wire.marshal_messages codec (item_set i)) n

  module _ (fails : Item → Str → Peer → Peer) (codec : Codec) where
    abbrev pub after_write :
        Item
        → List Item
        → Option Str × Net
        → Peer
        → (Net → Peer × List Item × Net)
        → Peer × List Item × Net
    after_write i is (none, n) p go = go n
    after_write i is (some e, n) p go = (fails i e p, is, n)

    -- The rounds of a write loop over the items in the channel, with the items that are left there.
    unfoldable pub write_items : List Item → Peer → Net → Peer × List Item × Net
    unfolding write_item
    write_items [] p n = (p, [], n)
    write_items (i ∷ is) p n = after_write i is (write_item codec i n) p (λ n'. write_items is p n')

  -- `writeLoop` of `WebTransportClient` and `WebTransportConn`.
  unfoldable pub web_transport_write_loop : List Item → Peer → Net → Peer × List Item × Net
  unfolding write_items
  web_transport_write_loop is p n =
      write_items (λ i e q. set_error e (notify_item i e q)) (get_codec p.content_type) is p n

  -- `writeLoop` of `HTTP2Client`.
  unfoldable pub http2_client_write_loop : List Item → Peer → Net → Peer × List Item × Net
  unfolding write_items
  http2_client_write_loop is p n =
      write_items (λ i e q. set_error e q) (get_codec p.content_type) is p n

  -- `writeLoop` of `HTTP2Conn`, which stops without a word.
  unfoldable pub http2_conn_write_loop : List Item → Peer → Net → Peer × List Item × Net
  unfolding write_items
  http2_conn_write_loop is p n = write_items (λ i e q. q) (get_codec p.content_type) is p n

module _ (wire : Wire) (Net : Type 0) (write : Str → Net → Option Str × Net) where
  abbrev then_newline : Option Str × Net → Option Str × Net
  then_newline (some e, n) = (some e, n)
  then_newline (none, n) = write (10 ∷ []) n

  -- `writeLoop` of a peer, which writes a line feed behind every message.
  unfoldable pub peer_write_loop : List Item → Peer → Net → Peer × List Item × Net
  unfolding web_transport_write_loop
  peer_write_loop is p n =
      web_transport_write_loop wire Net (λ bytes m. then_newline (write bytes m)) is p n

abbrev no_requests : List BatchRequest → Bool
no_requests [] = Bool.true
no_requests (b ∷ bs) = Bool.false

module _ (wire : Wire) (float_of : ℕ → ℕ) (marshal : Codec → Any → Result Str) where
  -- The sending of a batch, with the parameters in the connection's format.
  abbrev pub sent_batch : List BatchRequest → Peer → Peer × Result (List Request)
  sent_batch bs p =
      let made = socket_requests wire float_of marshal (get_codec p.content_type) 0 p.next_id bs in
      if no_requests bs then (p, ok []) else send_batch float_of marshal made p

  -- The first half of `CallBatch` of `HTTP2Client`, `WebTransportClient` and `WebTransportConn`.
  unfoldable pub stream_batch : List BatchRequest → Peer → Peer × Result (List Request)
  stream_batch bs p =
      if is_some p.conn_err then (p, err (get_error p.conn_err)) else sent_batch bs p
