-- ===== src/Http2/Overlap.antt =====
-- Two streams of one session at once: go/jsonrpc3/http2_server.go.
use jsonrpc.Base.{
  ℕ, ◌+◌, ◌≡◌, refl, ap, ◌∙◌, Bool, false, Option, none, some, List, is_empty, arith, if◌then◌else◌,
  Str, str_eq_refl,
}
use mathlib.Core.Path.{subst}
use jsonrpc.Session.{Traits}
use jsonrpc.Base.Dict.{lookup, lookup-erase}
use jsonrpc.Peer.{new_peer}
use jsonrpc.Http2.{Http2Server}
use jsonrpc.Http2.Server.{
  get_or_create_session, entry_or_new, find_entry, store_conn, drop_conn, dropped, accessed,
  delete_session, remove_entry, dispose_entry,
}
use jsonrpc.Http2.Steps.{System, has, Reach}
use jsonrpc.Http2.Exclusion.{find_entry-listed}
use jsonrpc.Http2.Tracking.{conn_of, Tracked, Reach-Tracked, find-Tracked, has-append_one}

-- What finding the entry of a session leaves.
record FoundEntry (srv srv' : Http2Server) : Type 0 where
  tracked : Tracked srv'
  counted : srv'.conn_count ≡ srv.conn_count
  same_table : srv'.sessions ≡ srv.sessions

dropped-Same :
    (a : ℕ) (o : Option ℕ) (srv : Http2Server)
    → ((dropped a o srv).conn_count ≡ srv.conn_count) × ((dropped a o srv).sessions ≡ srv.sessions)
dropped-Same a none srv = (refl, refl)
dropped-Same a (some c) srv = (refl, refl)

entry-FoundEntry :
    (now : ℕ) (fresh : Str) (a : ℕ) (srv : Http2Server)
    → Tracked srv
    → FoundEntry srv (entry_or_new now fresh (some a) srv).2
unfolding drop_conn
entry-FoundEntry now fresh a srv h =
    let (counted, same_table) =
      dropped-Same a (conn_of (accessed now a srv) a) (accessed now a srv) in
    record {
      tracked = find-Tracked now fresh (some a) srv h;
      counted = counted;
      same_table = same_table;
    }

-- Both halves of two streams of a session, the first halves before the second ones.
abbrev pub both_streams : Str → ℕ → ℕ → Str → Str → Str → Str → Http2Server → Http2Server
both_streams id now later fresh content_type prefix1 prefix2 srv =
    let (a1, existed1, srv1) = get_or_create_session id now fresh srv in
    let (a2, existed2, srv2) = get_or_create_session id later fresh srv1 in
    store_conn a2 content_type prefix2 (store_conn a1 content_type prefix1 srv2)

-- A connection is open, belongs to an entry, and nobody is about to close it.
abbrev pub Left : ℕ → ℕ → Http2Server → Type 0
Left a c srv =
    ((srv.conns c).session_entry ≡ a)
    × ((srv.conns c).peer.closed ≡ false)
    × (has c srv.closing ≡ false)

stored_twice-Left :
    (a : ℕ) (content_type prefix1 prefix2 : Str) (srv : Http2Server)
    → Tracked srv
    → let srv' = store_conn a content_type prefix2 (store_conn a content_type prefix1 srv) in
      Left a srv.conn_count srv'
      × (conn_of srv' a ≡ some (srv.conn_count + 1))
      × (srv'.sessions ≡ srv.sessions)
unfolding store_conn new_peer
stored_twice-Left a content_type prefix1 prefix2 srv h =
    ((ground arith, ground arith, ground (arith, h.known srv.conn_count)), ground arith, refl)

deleted-Left :
    (t : Traits) (id : Str) (a c : ℕ) (srv : Http2Server)
    → lookup id srv.sessions ≡ some a
    → conn_of srv a ≡ some (c + 1)
    → Left a c srv
    → Left a c (delete_session t id srv).0 × (lookup id (delete_session t id srv).0.sessions ≡ none)
unfolding delete_session remove_entry dispose_entry drop_conn
deleted-Left t id a c srv known last (entry_is, is_open, quiet) =
    rw (known, last)
      (
        (entry_is, is_open, ground (arith, has-append_one c (c + 1) srv.closing)),
        rw (lookup-erase id id srv.sessions, str_eq_refl id) refl,
      )

still_found :
    (id : Str) (a : ℕ) (srv srv' : Http2Server)
    → srv'.sessions ≡ srv.sessions
    → find_entry id srv ≡ some a
    → find_entry id srv' ≡ some a
unfolding find_entry
still_found id a srv srv' same found =
    ap (λ d. if is_empty id then none else lookup id d) same ∙ found

-- While two streams of a session that is known overlap, so that both find the entry before either
-- stores its connection, the first connection is lost: it is open, and a `DELETE` of the session takes
-- the session out of the table and leaves that connection open, with nobody about to close it.
pub overlapping_streams :
    {t : Traits} {alone : Bool} {root : Option ℕ} {types : List Str} {sys : System} {a : ℕ}
    → Reach t alone root types sys
    → (id : Str) (now later : ℕ) (fresh content_type prefix1 prefix2 : Str)
    → find_entry id sys.server ≡ some a
    → let both = both_streams id now later fresh content_type prefix1 prefix2 sys.server in
      let (srv, calls) = delete_session t id both in
      let x = srv.conns sys.server.conn_count in
      (x.session_entry ≡ a)
      × (x.peer.closed ≡ false)
      × (has sys.server.conn_count srv.closing ≡ false)
      × (lookup id srv.sessions ≡ none)
unfolding get_or_create_session
overlapping_streams {t} {sys} {a} r id now later fresh content_type prefix1 prefix2 found =
    let s1 = drop_conn a (accessed now a sys.server) in
    let s2 = drop_conn a (accessed later a s1) in
    let first = entry-FoundEntry now fresh a sys.server (Reach-Tracked r) in
    let second = entry-FoundEntry later fresh a s1 first.tracked in
    let found_again = still_found id a sys.server s1 first.same_table found in
    let (left, last, same) = stored_twice-Left a content_type prefix1 prefix2 s2 second.tracked in
    let listed =
      ap (lookup id) (same ∙ (second.same_table ∙ first.same_table))
      ∙ find_entry-listed id sys.server a found in
    let both = store_conn a content_type prefix2 (store_conn a content_type prefix1 s2) in
    let ((of_entry, is_open, quiet), gone) =
      subst
        (λ c.
          Left a c (delete_session t id both).0
          × (lookup id (delete_session t id both).0.sessions ≡ none))
        (second.counted ∙ first.counted)
        (deleted-Left t id a s2.conn_count both listed last left) in
    rw (found, found_again) (of_entry, is_open, quiet, gone)
