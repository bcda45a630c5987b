-- ===== src/Http2/Server.antt =====
-- The operations of `HTTP2Server` on its table of sessions: go/jsonrpc3/http2_server.go.
pub mod Serving
use jsonrpc.Base.{
  ℕ, suc, ◌+◌, ◌-◌, ltb, ◌==◌, Bool, true, false, Option, none, some, List, [], ◌∷◌, ◌++◌, Str,
  is_empty, if◌then◌else◌,
}
use jsonrpc.Base.Dict.{Dict, lookup, insert, erase}
use jsonrpc.Session.{Traits, Cleanup, new_session, list_local_refs, dispose_all}
use jsonrpc.Peer.{Peer, new_peer, shut_calls}
use jsonrpc.Http.Server.{is_nil_list, default_session_ttl, stateless_session_ttl}
use jsonrpc.Http2.{Http2SessionEntry, Http2Conn, Http2Server, put_entry, put_conn}

-- An entry gives up its connection, which is to be closed.
abbrev pub dropped : ℕ → Option ℕ → Http2Server → Http2Server
dropped a none srv = srv
dropped a (some c) srv = record (put_entry a (record (srv.entries a) { conn = none }) srv) {
  closing = srv.closing ++ c ∷ [];
}

unfoldable pub drop_conn : ℕ → Http2Server → Http2Server
drop_conn a srv = dropped a (srv.entries a).conn srv

abbrev pub accessed : ℕ → ℕ → Http2Server → Http2Server
accessed now a srv = put_entry a (record (srv.entries a) { last_accessed = now }) srv

-- The entry of a session, by its address, and whether it was there before.
abbrev pub entry_or_new : ℕ → Str → Option ℕ → Http2Server → ℕ × Bool × Http2Server
entry_or_new now fresh (some a) srv = (a, true, drop_conn a (accessed now a srv))
entry_or_new now fresh none srv = (
  srv.entry_count,
  false,
  record (put_entry srv.entry_count
      (record { session = new_session fresh now; conn = none; last_accessed = now }) srv) {
        sessions = insert fresh srv.entry_count srv.sessions;
        entry_count = srv.entry_count + 1;
      },
)

-- The address under an ID; the empty one names no session.
unfoldable pub find_entry : Str → Http2Server → Option ℕ
find_entry id srv = if is_empty id then none else lookup id srv.sessions

-- `getOrCreateSession`, with the ID that a new session is given.
unfoldable pub get_or_create_session : Str → ℕ → Str → Http2Server → ℕ × Bool × Http2Server
unfolding find_entry drop_conn
get_or_create_session id now fresh srv = entry_or_new now fresh (find_entry id srv) srv

-- The connection that `ServeHTTP` makes and stores in the entry.
unfoldable pub store_conn : ℕ → Str → Str → Http2Server → Http2Server
store_conn a content_type prefix srv =
    let c = srv.conn_count in
    record (put_entry a (record (srv.entries a) { conn = some c })
      (put_conn c (record { session_entry = a; peer = new_peer content_type prefix }) srv)) {
        conn_count = c + 1;
      }

-- A connection that has been closed: the calls that wait are woken, and the session is kept.
abbrev pub closed_conn : Http2Conn → Http2Conn
closed_conn x = record x {
  peer = record x.peer {
    closed = true;
    calls = shut_calls x.peer.pending x.peer.calls;
    pending = [];
  };
}

-- A connection, unless it is the given one.
abbrev pub unless_conn : ℕ → Option ℕ → Option ℕ
unless_conn c none = none
unless_conn c (some d) = if d == c then none else some d

-- `HTTP2Conn.Close`, which acts once; the entry forgets the connection if it is still its own.
unfoldable pub close_conn : ℕ → Http2Server → Http2Server
close_conn c srv =
    let x = srv.conns c in
    let e = srv.entries x.session_entry in
    if x.peer.closed
    then srv
    else (put_entry x.session_entry (record e { conn = unless_conn c e.conn })
        (put_conn c (closed_conn x) srv))

-- The session of an entry is disposed of, and its connection given up.
unfoldable pub dispose_entry : Traits → ℕ → Http2Server → Http2Server × List Cleanup
unfolding drop_conn
dispose_entry t a srv =
    let (s, locals, remotes, calls) = dispose_all t (srv.entries a).session in
    let srv' = drop_conn a srv in
    (put_entry a (record (srv'.entries a) { session = s }) srv', calls)

-- An entry leaves the table.
unfoldable pub remove_entry : Traits → Str → ℕ → Http2Server → Http2Server × List Cleanup
unfolding dispose_entry
remove_entry t id a srv =
    let (srv', calls) = dispose_entry t a srv in
    (record srv' { sessions = erase id srv'.sessions }, calls)

abbrev pub removed : Traits → Str → Option ℕ → Http2Server → Http2Server × List Cleanup
removed t id none srv = (srv, [])
removed t id (some a) srv = remove_entry t id a srv

-- What `handleDeleteSession` does to the table.
unfoldable pub delete_session : Traits → Str → Http2Server → Http2Server × List Cleanup
unfolding remove_entry
delete_session t id srv = removed t id (lookup id srv.sessions) srv

-- Whether an entry has run out; a session without local references by the shorter limit.
unfoldable pub is_expired : ℕ → Http2SessionEntry → Bool
is_expired now e =
    let shorter =
      if ltb stateless_session_ttl default_session_ttl
      then stateless_session_ttl
      else default_session_ttl in
    let ttl = if is_nil_list (list_local_refs e.session) then shorter else default_session_ttl in
    ltb ttl (now - e.last_accessed)

-- The entries of a list leave the table if they satisfy a test.
abbrev pub remove_entries :
    Traits → (Http2SessionEntry → Bool) → Dict ℕ → Http2Server → Http2Server × List Cleanup
remove_entries t test [] srv = (srv, [])
remove_entries t test ((id, a) ∷ d) srv =
    let (srv1, calls) = if test (srv.entries a) then remove_entry t id a srv else (srv, []) in
    let (srv2, more) = remove_entries t test d srv1 in (srv2, calls ++ more)

-- `cleanupExpiredSessions`
unfoldable pub cleanup_expired_sessions : Traits → ℕ → Http2Server → Http2Server × List Cleanup
unfolding remove_entry
cleanup_expired_sessions t now srv = remove_entries t (is_expired now) srv.sessions srv

-- `Close`: every session leaves the table.
unfoldable pub close_server : Traits → Http2Server → Http2Server × List Cleanup
unfolding remove_entry
close_server t srv = remove_entries t (λ e. true) srv.sessions (record srv { cleanup_done = true })
