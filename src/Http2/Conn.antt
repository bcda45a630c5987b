-- ===== src/Http2/Conn.antt =====
-- What a connection of the HTTP/2 server does: the methods of `HTTP2Conn` in
-- go/jsonrpc3/http2_server.go. They are those of a peer, on the session of the connection's entry and
-- without an error of the connection. The waiting of `Call` is that of a peer, but for the text of the
-- timeout; `writeLoop` is in
-- Stream.
pub mod Working
use jsonrpc.Base.{ℕ, ◌+◌, Bool, Option, none, some, List, [], ◌∷◌, Str, Result, ok, err}
use jsonrpc.Any.{Any}
use jsonrpc.Message.{Request, MessageSet, version_30}
use jsonrpc.Mime.{Codec, get_codec}
use jsonrpc.Session.{Session, Traits, Cleanup}
use jsonrpc.Batch.{BatchRequest}
use jsonrpc.Env.{Env}
use jsonrpc.Handler.{Handler}
use jsonrpc.Peer.{Peer, register_object, unregister_object}
use jsonrpc.Peer.Calling.{send_call, encode_params}
use jsonrpc.Peer.Sending.{send_notification}
use jsonrpc.Peer.Reading.{receive}
use jsonrpc.Http.{Wire}
use jsonrpc.Http2.{Http2Server}
use jsonrpc.Http2.Steps.{worked}
use jsonrpc.Stream.{sent_batch}

-- The handler of every connection of a server.
abbrev pub conn_handler : Http2Server → Handler
conn_handler srv = record {
  root_object = srv.root_object;
  version = version_30;
  mime_types = srv.mime_types;
}

abbrev pub conn_peer : ℕ → Http2Server → Peer
conn_peer c srv = (srv.conns c).peer

abbrev pub conn_session : ℕ → Http2Server → Session
conn_session c srv = (srv.entries (srv.conns c).session_entry).session

module _ (env : Env) where
  open env use {World}

  -- What the handlers do with a message set: `handleIncomingRequest` and those behind it.
  abbrev pub conn_handle :
      Handler → ℕ → MessageSet → Peer → Session → World → Option (Peer × Session × World)
  conn_handle h now ms p s w = receive env h now ms p s w

  abbrev pub conn_received :
      ℕ → Http2Server → Option (Peer × Session × World) → Option (Http2Server × World)
  conn_received c srv none = none
  conn_received c srv (some (p, s, w)) = some (worked c p s srv, w)

  -- One round of `readLoop` with a decoded message set; `none` is a panic.
  unfoldable pub conn_receive :
      ℕ → ℕ → MessageSet → Http2Server → World → Option (Http2Server × World)
  conn_receive c now ms srv w =
      conn_received c srv
        (conn_handle (conn_handler srv) now ms (conn_peer c srv) (conn_session c srv) w)

-- What a connection leaves when its session stays.
abbrev pub conn_made : {A : Type 0} → ℕ → Http2Server → Peer × A → Http2Server × A
conn_made c srv (p, a) = (worked c p (conn_session c srv) srv, a)

module _ (wire : Wire) (float_of : ℕ → ℕ) (marshal : Codec → Any → Result Str) where
  -- The first half of `Call`.
  unfoldable pub conn_call : ℕ → Str → Any → Option Str → Http2Server → Http2Server × Result Any
  conn_call c method params ref srv =
      let p = conn_peer c srv in
      let n = p.next_id + 1 in
      conn_made c srv (
        send_call float_of n method ref (encode_params marshal (get_codec p.content_type) params)
          (record p { next_id = n }))

  -- `Notify`
  unfoldable pub conn_notify : ℕ → Str → Any → Option Str → Http2Server → Http2Server × Result Any
  conn_notify c method params ref srv =
      let p = conn_peer c srv in
      conn_made c srv
        (send_notification method ref (encode_params marshal (get_codec p.content_type) params) p)

  -- The first half of `CallBatch`.
  unfoldable pub conn_batch :
      ℕ → List BatchRequest → Http2Server → Http2Server × Result (List Request)
  conn_batch c bs srv = conn_made c srv (sent_batch wire float_of marshal bs (conn_peer c srv))

-- `RegisterObject`
unfoldable pub conn_register_object : ℕ → Str → ℕ → Http2Server → Http2Server × Str
conn_register_object c ref obj srv =
    let (p, s, r) = register_object ref obj (conn_peer c srv) (conn_session c srv) in
    (worked c p s srv, r)

-- `UnregisterObject`
unfoldable pub conn_unregister_object : Traits → ℕ → Str → Http2Server → Http2Server × List Cleanup
conn_unregister_object t c ref srv =
    let (s, calls) = unregister_object t ref (conn_session c srv) in
    (worked c (conn_peer c srv) s srv, calls)
