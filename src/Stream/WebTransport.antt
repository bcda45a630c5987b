-- ===== src/Stream/WebTransport.antt =====
-- `WebTransportConn` of go/jsonrpc3/webtransport_server.go. Its code is that of a peer but for
-- `CallBatch`, whose parameters are in the connection's format, and the write loop, which is in Stream.
-- The sessions and streams of webtransport-go are left out.
use jsonrpc.Base.{ℕ, Option, some, List, [], ◌∷◌, ◌++◌, Str, codes, Result, is_empty, if◌then◌else◌}
use jsonrpc.Any.{Any}
use jsonrpc.Message.{Request, version_30}
use jsonrpc.Mime.{Codec, mime_type_json, mime_type_cbor, mime_type_cbor_compact}
use jsonrpc.Session.{Session, Traits, Cleanup}
use jsonrpc.Batch.{BatchRequest}
use jsonrpc.Env.{Env}
use jsonrpc.Handler.{Handler}
use jsonrpc.Peer.{Peer, new_peer, register_object, unregister_object, close_peer, set_error}
use jsonrpc.Peer.Calling.{begin_call}
use jsonrpc.Peer.Sending.{notify}
use jsonrpc.Peer.Reading.{receive}
use jsonrpc.Http.{Wire}
use jsonrpc.Stream.{stream_batch}
use jsonrpc.Stream.Http2Client.{Decoded, decoded, end_of_stream, decode_error, ended, going_on}

-- The content type that `ServeHTTP` takes and puts into the response: JSON if none is asked for.
unfoldable pub web_transport_content_type : Str → Str
web_transport_content_type asked = if is_empty asked then mime_type_json else asked

-- `newWebTransportConn`, on the content type that the request asks for.
unfoldable pub new_web_transport_conn : Str → Str → Peer
unfolding web_transport_content_type
new_web_transport_conn asked prefix = new_peer (web_transport_content_type asked) prefix

-- The handler of the connections of a `WebTransportServer`.
abbrev pub web_transport_handler : Option ℕ → Handler
web_transport_handler root = record {
  root_object = root;
  version = version_30;
  mime_types = mime_type_json ∷ mime_type_cbor ∷ mime_type_cbor_compact ∷ [];
}

module _ (wire : Wire) (float_of : ℕ → ℕ) (marshal : Codec → Any → Result Str) where
  -- The first half of `Call`.
  abbrev pub web_transport_call : Str → Any → Option Str → Peer → Peer × Result Any
  web_transport_call method params ref p = begin_call float_of marshal method params ref p

  -- `Notify`
  abbrev pub web_transport_notify : Str → Any → Option Str → Peer → Peer × Result Any
  web_transport_notify method params ref p = notify marshal method params ref p

  -- The first half of `CallBatch`.
  abbrev pub web_transport_batch : List BatchRequest → Peer → Peer × Result (List Request)
  web_transport_batch bs p = stream_batch wire float_of marshal bs p

-- `RegisterObject`
abbrev pub web_transport_register_object : Str → ℕ → Peer → Session → Peer × Session × Str
web_transport_register_object ref obj p s = register_object ref obj p s

-- `UnregisterObject`
abbrev pub web_transport_unregister_object : Traits → Str → Session → Session × List Cleanup
web_transport_unregister_object t ref s = unregister_object t ref s

-- `Close`
abbrev pub web_transport_close : Traits → Peer → Session → Peer × Session × List Cleanup
web_transport_close t p s = close_peer t p s

module _ (env : Env) where
  open env use {World, traits}

  abbrev pub failed_read :
      Str → Peer → Session → World → Option (Peer × Session × World × List Cleanup)
  failed_read e p s w =
      some (ended env (close_peer traits (set_error (codes "read error: " ++ e) p) s) w)

  -- One round of `readLoop`; the end of the stream is an error as any other.
  unfoldable pub web_transport_read :
      Handler
      → ℕ
      → Decoded
      → Peer
      → Session
      → World
      → Option (Peer × Session × World × List Cleanup)
  web_transport_read h now (decoded ms) p s w = going_on env (receive env h now ms p s w)
  web_transport_read h now end_of_stream p s w = failed_read (codes "EOF") p s w
  web_transport_read h now (decode_error e) p s w = failed_read e p s w
