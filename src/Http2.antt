-- ===== src/Http2.antt =====
-- The HTTP/2 server: the sessions and connections of `HTTP2Server` in go/jsonrpc3/http2_server.go.
-- Entries and connections are known by their addresses, numbers below two counts. A connection keeps
-- its calls like a peer; `Close` of a connection that an operation of the server asks for is a step of
-- its own, since it runs outside the locks. Times are in nanoseconds.
pub mod Server
pub mod Steps
pub mod Tracking
pub mod Covering
pub mod Exclusion
pub mod Overlap
pub mod Reconnecting
pub mod Stopping
pub mod Conn
mod Tests
use jsonrpc.Base.{ℕ, ◌+◌, ◌==◌, Bool, false, Option, none, List, [], ◌∷◌, ◌++◌, Str, if◌then◌else◌}
use jsonrpc.Base.Dict.{Dict}
use jsonrpc.Session.{Session, new_session}
use jsonrpc.Peer.{Peer, new_peer}
use jsonrpc.Mime.{mime_type_json, mime_type_cbor, mime_type_cbor_compact}

-- `http2SessionEntry`, with the address of the connection.
pub record Http2SessionEntry : Type 0 where
  pub session : Session
  pub conn : Option ℕ
  pub last_accessed : ℕ

-- `HTTP2Conn`, with the address of its entry. Its session is that of the entry; no operation sets an
-- error of the connection.
pub record Http2Conn : Type 0 where
  pub session_entry : ℕ
  pub peer : Peer

-- `HTTP2Server`. `closing` are the connections whose `Close` has been asked for and has not run yet.
pub record Http2Server : Type 0 where
  pub root_object : Option ℕ
  pub mime_types : List Str
  pub sessions : Dict ℕ
  pub entries : ℕ → Http2SessionEntry
  pub entry_count : ℕ
  pub conns : ℕ → Http2Conn
  pub conn_count : ℕ
  pub closing : List ℕ
  pub cleanup_done : Bool

abbrev pub update {ℓ} : {A : Type ℓ} → (ℕ → A) → ℕ → A → ℕ → A
update f i x j = if i == j then x else f j

abbrev pub put_entry : ℕ → Http2SessionEntry → Http2Server → Http2Server
put_entry a e srv = record srv { entries = update srv.entries a e }

abbrev pub put_conn : ℕ → Http2Conn → Http2Server → Http2Server
put_conn c x srv = record srv { conns = update srv.conns c x }

abbrev or_all_types : List Str → List Str
or_all_types [] = mime_type_json ∷ mime_type_cbor ∷ mime_type_cbor_compact ∷ []
or_all_types (m ∷ ms) = m ∷ ms

-- `NewHTTP2Server`; no address is in use.
abbrev pub new_http2_server : Option ℕ → List Str → Http2Server
new_http2_server root mime_types = record {
  root_object = root;
  mime_types = or_all_types mime_types;
  sessions = [];
  entries = λ a. record { session = new_session [] 0; conn = none; last_accessed = 0 };
  entry_count = 0;
  conns = λ c. record { session_entry = 0; peer = new_peer [] [] };
  conn_count = 0;
  closing = [];
  cleanup_done = false;
}
