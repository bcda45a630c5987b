-- ===== src/Http/Server.antt =====
-- `HTTPHandler` of go/jsonrpc3/http_server.go: its table of sessions, and `ServeHTTP`.
-- A request is served in one step. The table holds each session by its ID; the session of a request
-- is put back when the request has been handled, since the table points to it.
pub mod Expiry
pub mod Naming
pub mod Serving
pub mod Storing
pub mod Isolation
pub mod Growth
use jsonrpc.Base.{
  ℕ, ◌+◌, ◌-◌, ◌*◌, ◌^◌, ltb, leb, Bool, true, false, not, ◌&&◌, ◌||◌, ◌==◌, Option, none, some,
  List, [], ◌∷◌, ◌++◌, map, Str, codes, str_eq, contains, starts_with, is_empty, is_some, Result,
  ok, err, if◌then◌else◌,
}
use jsonrpc.Base.Dict.{Dict, lookup, insert, erase}
use jsonrpc.Any.{nil, text}
use jsonrpc.Message.{Request, Response, MessageSet, Batch, BatchResponse}
use jsonrpc.Message.Convert.{
  to_request, to_batch, response_to_message_set, batch_response_to_message_set,
}
use jsonrpc.Message.Errors.{new_error_response, new_parse_error}
use jsonrpc.Mime.{Codec, get_codec, mime_type_json, mime_type_cbor, mime_type_cbor_compact}
use jsonrpc.Session.{Session, Traits, Cleanup, new_session, list_local_refs, dispose_all}
use jsonrpc.Env.{Env}
use jsonrpc.Protocol.{clean_up_all}
use jsonrpc.Handler.{Handler, handle_request, handle_batch}
use jsonrpc.Http.{Wire, HttpRequest, HttpResponse}
use jsonrpc.Http.ClientRefs.{scan_for_client_refs}

-- `sessionEntry`
pub record SessionEntry : Type 0 where
  pub session : Session
  pub handler : Handler
  pub last_accessed : ℕ

-- `HTTPHandler`; times are in nanoseconds.
pub record Server : Type 0 where
  pub root_object : Option ℕ
  pub mime_types : List Str
  pub version : Str
  pub sessions : Dict SessionEntry
  pub session_ttl : ℕ

abbrev second : ℕ
second = 10 ^ 9

abbrev pub default_session_ttl : ℕ
default_session_ttl = 5 * 60 * second

abbrev pub stateless_session_ttl : ℕ
stateless_session_ttl = 30 * second

-- `NewHTTPHandler`
abbrev pub new_http_handler : Option ℕ → Str → Server
new_http_handler root version = record {
  root_object = root;
  mime_types = mime_type_json ∷ mime_type_cbor ∷ mime_type_cbor_compact ∷ [];
  version = version;
  sessions = [];
  session_ttl = default_session_ttl;
}

-- `SetSessionTTL`
abbrev pub set_session_ttl : ℕ → Server → Server
set_session_ttl ttl srv = record srv { session_ttl = ttl }

-- The entry of a request, with the ID of its session and whether it was there before.
pub record Found : Type 0 where
  pub entry : SessionEntry
  pub session_id : Str
  pub was_existing : Bool

abbrev new_entry : ℕ → Str → Server → SessionEntry
new_entry now fresh srv = record {
  session = new_session fresh now;
  handler = record {
    root_object = srv.root_object;
    version = srv.version;
    mime_types = srv.mime_types;
  };
  last_accessed = now;
}

abbrev pub accessed : ℕ → SessionEntry → SessionEntry
accessed now e = record e { last_accessed = now }

abbrev found_or_new : ℕ → Str → Str → Server → Option SessionEntry → Found × Server
found_or_new now fresh id srv none =
    (record { entry = new_entry now fresh srv; session_id = fresh; was_existing = false }, srv)
found_or_new now fresh id srv (some e) = (
  record { entry = accessed now e; session_id = id; was_existing = true },
  record srv { sessions = insert id (accessed now e) srv.sessions },
)

-- `getOrCreateSession`, with the ID that a new session is given.
unfoldable pub get_or_create_session : Str → ℕ → Str → Server → Found × Server
get_or_create_session id now fresh srv =
    found_or_new now fresh id srv (if is_empty id then none else lookup id srv.sessions)

-- The entry of a session in the table: `storeSession`, and what handling a request does to a session
-- that is in the table.
abbrev pub store_session : Str → SessionEntry → Server → Server
store_session id e srv = record srv { sessions = insert id e srv.sessions }

abbrev pub is_nil_list : List Str → Bool
is_nil_list [] = true
is_nil_list (x ∷ xs) = false

-- Whether an entry has run out, by the time since its last access; a session without local
-- references by the shorter of the two limits.
unfoldable pub has_expired : ℕ → ℕ → SessionEntry → Bool
has_expired now session_ttl e =
    let shorter =
      if ltb stateless_session_ttl session_ttl then stateless_session_ttl else session_ttl in
    let ttl = if is_nil_list (list_local_refs e.session) then shorter else session_ttl in
    ltb ttl (now - e.last_accessed)

-- The first loop of `cleanupExpiredSessions`.
abbrev pub expired_ids : ℕ → ℕ → Dict SessionEntry → List Str
expired_ids now ttl [] = []
expired_ids now ttl ((id, e) ∷ d) =
    let rest = expired_ids now ttl d in if has_expired now ttl e then id ∷ rest else rest

abbrev pub disposed_calls : Traits → Option SessionEntry → List Cleanup
disposed_calls t none = []
disposed_calls t (some e) = let (s, locals, remotes, calls) = dispose_all t e.session in calls

-- The second loop: the sessions are disposed of, and leave the table.
abbrev pub delete_sessions :
    Traits → List Str → Dict SessionEntry → Dict SessionEntry × List Cleanup
delete_sessions t [] d = (d, [])
delete_sessions t (id ∷ ids) d =
    let (d', calls) = delete_sessions t ids (erase id d) in
    (d', disposed_calls t (lookup id d) ++ calls)

-- `cleanupExpiredSessions`
unfoldable pub cleanup_expired_sessions : Traits → ℕ → Server → Server × List Cleanup
unfolding has_expired
cleanup_expired_sessions t now srv =
    let (d, calls) =
      delete_sessions t (expired_ids now srv.session_ttl srv.sessions) srv.sessions in
    (record srv { sessions = d }, calls)
