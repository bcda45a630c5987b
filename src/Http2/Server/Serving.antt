-- ===== src/Http2/Server/Serving.antt =====
-- `ServeHTTP` of `HTTP2Server`: go/jsonrpc3/http2_server.go.
use jsonrpc.Base.{
  ℕ, Bool, false, not, ◌==◌, List, [], ◌∷◌, Str, codes, str_eq, is_empty, if◌then◌else◌, ◌||◌,
}
use jsonrpc.Session.{Traits, Cleanup}
use jsonrpc.Mime.{mime_type_cbor}
use jsonrpc.Http2.{Http2Server}
use jsonrpc.Http2.Server.{get_or_create_session, store_conn, delete_session}

-- What the server reads of a request.
pub record Http2Request : Type 0 where
  pub method : Str
  pub proto_major : ℕ
  pub content_type : Str
  pub session_id : Str

-- What becomes of a request: a status with a text, or an open stream: its connection, and the content
-- type and the session ID in its headers.
pub data Http2Served : Type 0 where
  status : ℕ → Str → Http2Served
  streaming : ℕ → Str → Str → Http2Served

-- `handleDeleteSession`
unfoldable pub handle_delete_session :
    Traits → Str → Http2Server → Http2Served × Http2Server × List Cleanup
handle_delete_session t id srv =
    if is_empty id
    then (status 400 (codes "Missing RPC-Session-Id header"), srv, [])
    else (let (srv', calls) = delete_session t id srv in (status 204 [], srv', calls))

abbrev pub or_cbor : Str → Str
or_cbor content_type = if is_empty content_type then mime_type_cbor else content_type

abbrev pub supports : Str → List Str → Bool
supports content_type [] = false
supports content_type (m ∷ ms) = str_eq m content_type || supports content_type ms

-- A stream that is accepted, with the ID and the prefix that a new session and the connection are
-- given; nothing else happens between its two halves.
unfoldable pub open_stream :
    Str → Str → ℕ → Str → Str → Http2Server → Http2Served × Http2Server × List Cleanup
open_stream id content_type now fresh prefix srv =
    let (a, existed, srv1) = get_or_create_session id now fresh srv in
    (
      streaming srv1.conn_count content_type (srv1.entries a).session.id,
      store_conn a content_type prefix srv1,
      [],
    )

-- `ServeHTTP`, up to the loops of the connection.
unfoldable pub serve_http :
    Traits → Http2Request → ℕ → Str → Str → Http2Server → Http2Served × Http2Server × List Cleanup
unfolding open_stream handle_delete_session
serve_http t r now fresh prefix srv =
    if str_eq r.method (codes "DELETE")
    then handle_delete_session t r.session_id srv
    else if not (str_eq r.method (codes "POST"))
    then (status 405 (codes "Method not allowed"), srv, [])
    else if not (r.proto_major == 2)
    then (status 505 (codes "HTTP/2 required"), srv, [])
    else if not (supports (or_cbor r.content_type) srv.mime_types)
    then (status 415 (codes "Unsupported content type"), srv, [])
    else open_stream r.session_id (or_cbor r.content_type) now fresh prefix srv
