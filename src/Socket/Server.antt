-- ===== src/Socket/Server.antt =====
-- The server's side of a WebSocket: `WebSocketHandler` and `WebSocketConn` of
-- go/jsonrpc3/websocket_server.go. A connection has the code of the client on the other side. The
-- upgrade, and the socket's own reads and writes, are left out.
use jsonrpc.Base.{ℕ, Option, List, [], ◌∷◌, Str, codes, str_eq, Result, if◌then◌else◌}
use jsonrpc.Any.{Any}
use jsonrpc.Message.{Request, version_30}
use jsonrpc.Mime.{Codec, mime_type_json, mime_type_cbor, mime_type_cbor_compact}
use jsonrpc.Session.{Session, Traits, Cleanup}
use jsonrpc.Batch.{BatchRequest}
use jsonrpc.Env.{Env}
use jsonrpc.Handler.{Handler}
use jsonrpc.Peer.{new_peer, register_object, unregister_object}
use jsonrpc.Http.{Wire}
use jsonrpc.Socket.{Socket, socket_call, socket_notify, socket_batch, close_socket}
use jsonrpc.Socket.Incoming.{socket_receive}

-- The subprotocols that the upgrader accepts.
abbrev pub subprotocols : List Str
subprotocols = codes "jsonrpc3.json" ∷ codes "jsonrpc3.cbor" ∷ codes "jsonrpc3.cbor-compact" ∷ []

-- The content type of a connection with an accepted subprotocol: that of `ServeHTTP`.
unfoldable pub served_content_type : Str → Str
served_content_type protocol =
    if str_eq protocol (codes "jsonrpc3.cbor")
    then mime_type_cbor
    else if str_eq protocol (codes "jsonrpc3.cbor-compact")
    then mime_type_cbor_compact
    else mime_type_json

-- The handler of the connections of a `WebSocketHandler`.
abbrev pub web_socket_handler : Option ℕ → Handler
web_socket_handler root = record {
  root_object = root;
  version = version_30;
  mime_types = mime_type_json ∷ mime_type_cbor ∷ mime_type_cbor_compact ∷ [];
}

-- `newWebSocketConn`, on the accepted subprotocol.
unfoldable pub new_web_socket_conn : Str → Str → Socket
unfolding served_content_type
new_web_socket_conn protocol prefix = record {
  peer = new_peer (served_content_type protocol) prefix;
  out = [];
}

module _ (wire : Wire) (float_of : ℕ → ℕ) (marshal : Codec → Any → Result Str) where
  -- The first half of `Call`.
  abbrev pub web_socket_conn_call : Str → Any → Option Str → Socket → Socket × Result Any
  web_socket_conn_call method params ref c = socket_call wire float_of marshal method params ref c

  -- `Notify`
  abbrev pub web_socket_conn_notify : Str → Any → Option Str → Socket → Socket × Result Any
  web_socket_conn_notify method params ref c =
      socket_notify wire float_of marshal method params ref c

  -- The first half of `CallBatch`.
  abbrev pub web_socket_conn_batch : List BatchRequest → Socket → Socket × Result (List Request)
  web_socket_conn_batch bs c = socket_batch wire float_of marshal bs c

-- `RegisterObject`
abbrev pub web_socket_conn_register_object : Str → ℕ → Socket → Session → Socket × Session × Str
web_socket_conn_register_object ref obj c s =
    let (p, s', r) = register_object ref obj c.peer s in (record c { peer = p }, s', r)

-- `UnregisterObject`
abbrev pub web_socket_conn_unregister_object : Traits → Str → Session → Session × List Cleanup
web_socket_conn_unregister_object t ref s = unregister_object t ref s

-- `Close`
abbrev pub web_socket_conn_close : Traits → Socket → Session → Socket × Session × List Cleanup
web_socket_conn_close t c s = close_socket t c s

module _ (wire : Wire) (env : Env) where
  open env use {World}

  -- One round of `readLoop` with the bytes of a message.
  abbrev pub web_socket_conn_receive :
      Handler → ℕ → Str → Socket → Session → World → Option (Socket × Session × World)
  web_socket_conn_receive h now bytes c s w = socket_receive wire env h now bytes c s w
