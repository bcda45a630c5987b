-- ===== src/Stream/WebTransportClient.antt =====
-- `WebTransportClient` of go/jsonrpc3/webtransport_client.go. Its code is that of a peer but for
-- `CallBatch`, whose parameters are in the client's format, and the write loop. The dialling, and the
-- sessions and streams of webtransport-go, are left out.
use jsonrpc.Base.{ℕ, Option, List, [], ◌∷◌, Str, codes, Result, is_empty, if◌then◌else◌}
use jsonrpc.Any.{Any}
use jsonrpc.Message.{Request, version_30}
use jsonrpc.Mime.{Codec}
use jsonrpc.Session.{Session, Traits, Cleanup}
use jsonrpc.Batch.{BatchRequest}
use jsonrpc.Env.{Env}
use jsonrpc.Handler.{Handler}
use jsonrpc.Peer.{Peer, new_peer, register_object, unregister_object, close_peer}
use jsonrpc.Peer.Calling.{begin_call}
use jsonrpc.Peer.Sending.{notify}
use jsonrpc.Peer.Reading.{receive}
use jsonrpc.Http.{Wire}
use jsonrpc.Stream.{Item, stream_batch, web_transport_write_loop}
use jsonrpc.Stream.WebTransport.{failed_read}
use jsonrpc.Stream.Http2Client.{Decoded, decoded, end_of_stream, decode_error, going_on}

-- The content type of a client behind the response of the server.
unfoldable pub accepted_transport_type : Str → Str → Str
accepted_transport_type asked answered = if is_empty answered then asked else answered

-- `newWebTransportClient` behind the response, which has a content type or none.
unfoldable pub new_web_transport_client : Str → Str → Str → Peer
unfolding accepted_transport_type
new_web_transport_client asked answered prefix =
    new_peer (accepted_transport_type asked answered) prefix

-- The handler of a client, whose one MIME type is its content type.
abbrev pub transport_client_handler : Option ℕ → Str → Handler
transport_client_handler root content_type = record {
  root_object = root;
  version = version_30;
  mime_types = content_type ∷ [];
}

-- `writeLoop`: every item that the client sends can be converted.
module _ (wire : Wire) (Net : Type 0) (write : Str → Net → Option Str × Net) where
  abbrev pub web_transport_client_write_loop : List Item → Peer → Net → Peer × List Item × Net
  web_transport_client_write_loop is p n = web_transport_write_loop wire Net write is p n

module _ (wire : Wire) (float_of : ℕ → ℕ) (marshal : Codec → Any → Result Str) where
  -- The first half of `Call`.
  abbrev pub web_transport_client_call : Str → Any → Option Str → Peer → Peer × Result Any
  web_transport_client_call method params ref p = begin_call float_of marshal method params ref p

  -- `Notify`
  abbrev pub web_transport_client_notify : Str → Any → Option Str → Peer → Peer × Result Any
  web_transport_client_notify method params ref p = notify marshal method params ref p

  -- The first half of `CallBatch`.
  abbrev pub web_transport_client_batch : List BatchRequest → Peer → Peer × Result (List Request)
  web_transport_client_batch bs p = stream_batch wire float_of marshal bs p

-- `RegisterObject`
abbrev pub web_transport_client_register_object : Str → ℕ → Peer → Session → Peer × Session × Str
web_transport_client_register_object ref obj p s = register_object ref obj p s

-- `UnregisterObject`
abbrev pub web_transport_client_unregister_object : Traits → Str → Session → Session × List Cleanup
web_transport_client_unregister_object t ref s = unregister_object t ref s

-- `Close`
abbrev pub web_transport_client_close : Traits → Peer → Session → Peer × Session × List Cleanup
web_transport_client_close t p s = close_peer t p s

module _ (env : Env) where
  open env use {World, traits}

  -- One round of `readLoop`; the end of the stream is an error as any other.
  unfoldable pub web_transport_client_read :
      Handler
      → ℕ
      → Decoded
      → Peer
      → Session
      → World
      → Option (Peer × Session × World × List Cleanup)
  web_transport_client_read h now (decoded ms) p s w = going_on env (receive env h now ms p s w)
  web_transport_client_read h now end_of_stream p s w = failed_read env (codes "EOF") p s w
  web_transport_client_read h now (decode_error e) p s w = failed_read env e p s w
