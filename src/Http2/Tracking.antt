-- ===== src/Http2/Tracking.antt =====
-- Which connection the entry of a session holds: go/jsonrpc3/http2_server.go.
use jsonrpc.Base.{
  ℕ, ◌==◌, ◌<◌, ◌≡◌, refl, ap, Bool, true, false, ◌||◌, Option, none, some, List, [], ◌∷◌, ◌++◌,
  arith, if◌then◌else◌, if_elim, Str,
}
use jsonrpc.Session.{Session, Traits}
use mathlib.Core.Path.{subst}
use jsonrpc.Base.Dict.{Dict, lookup}
use jsonrpc.Peer.{Peer, new_peer}
use jsonrpc.Http2.{Http2Server, Http2SessionEntry, put_entry}
use jsonrpc.Http2.Server.{
  get_or_create_session, entry_or_new, find_entry, store_conn, close_conn, drop_conn, dropped,
  dispose_entry, remove_entry, removed, remove_entries, is_expired, delete_session,
  cleanup_expired_sessions, close_server,
}
use jsonrpc.Http2.Steps.{
  System, has, take_out, worked, Step, enter, store, work, end_conn, run_close, delete, expire,
  stop, Reach, start, later,
}

abbrev pub conn_of : Http2Server → ℕ → Option ℕ
conn_of srv a = (srv.entries a).conn

-- The connection that an entry holds is one of its session, open, and not about to be closed.
pub record Tracked (srv : Http2Server) : Type 0 where
  pub own :
      (a c : ℕ)
      → conn_of srv a ≡ some c
      → (c < srv.conn_count)
        × ((srv.conns c).session_entry ≡ a)
        × ((srv.conns c).peer.closed ≡ false)
        × (has c srv.closing ≡ false)
  pub known : (c : ℕ) → has c srv.closing ≡ true → c < srv.conn_count

pub has-append_one : (c d : ℕ) (cs : List ℕ) → has c (cs ++ d ∷ []) ≡ (has c cs || d == c)
has-append_one c d [] = ground arith
has-append_one c d (b ∷ bs) = ground (arith, has-append_one c d bs)

dropped-Tracked :
    (a : ℕ) (o : Option ℕ) (srv : Http2Server)
    → conn_of srv a ≡ o
    → Tracked srv
    → Tracked (dropped a o srv)
dropped-Tracked a none srv e h = h
dropped-Tracked a (some d) srv e h = record {
  own = λ b c held. ground (arith, h.own b c, h.own a d e, has-append_one c d srv.closing);
  known = λ c closing. ground (arith, h.own a d e, h.known c, has-append_one c d srv.closing);
}

drop_conn-Tracked : (a : ℕ) (srv : Http2Server) → Tracked srv → Tracked (drop_conn a srv)
unfolding drop_conn
drop_conn-Tracked a srv h = dropped-Tracked a (srv.entries a).conn srv refl h

-- A change of an entry that leaves its connection.
put_entry-Tracked :
    (a : ℕ) (e : Http2SessionEntry) (srv : Http2Server)
    → e.conn ≡ conn_of srv a
    → Tracked srv
    → Tracked (put_entry a e srv)
put_entry-Tracked a e srv same h = record {
  own = λ b c held. ground (arith, h.own b c);
  known = h.known;
}

-- A new entry, without a connection.
new_entry-Tracked :
    (now : ℕ) (fresh : Str) (srv : Http2Server)
    → Tracked srv
    → Tracked (entry_or_new now fresh none srv).2
new_entry-Tracked now fresh srv h = record {
  own = λ b c held. ground (arith, h.own b c);
  known = h.known;
}

pub find-Tracked :
    (now : ℕ) (fresh : Str) (o : Option ℕ) (srv : Http2Server)
    → Tracked srv
    → Tracked (entry_or_new now fresh o srv).2
find-Tracked now fresh none srv h = new_entry-Tracked now fresh srv h
find-Tracked now fresh (some a) srv h = drop_conn-Tracked a _ (put_entry-Tracked a _ srv refl h)

store_conn-Tracked :
    (a : ℕ) (content_type prefix : Str) (srv : Http2Server)
    → Tracked srv
    → Tracked (store_conn a content_type prefix srv)
unfolding store_conn new_peer
store_conn-Tracked a content_type prefix srv h = record {
  own = λ b c held. ground (arith, h.own b c, h.known srv.conn_count);
  known = λ c closing. ground (arith, h.known c);
}

close_conn-Tracked : (c : ℕ) (srv : Http2Server) → Tracked srv → Tracked (close_conn c srv)
unfolding close_conn
close_conn-Tracked c srv h =
    if_elim Tracked (srv.conns c).peer.closed _ _ h
      (record { own = λ b d held. ground (arith, h.own b d, h.own b c); known = h.known })

has-take_out : (c d : ℕ) (cs : List ℕ) → has c (take_out d cs) ≡ true → has c cs ≡ true
has-take_out c d [] h = h
has-take_out c d (b ∷ bs) h = ground (arith, has-take_out c d bs)

forget-Tracked :
    (c : ℕ) (srv : Http2Server)
    → Tracked srv
    → Tracked (record srv { closing = take_out c srv.closing })
forget-Tracked c srv h = record {
  own = λ b d held. ground (arith, h.own b d, has-take_out d c srv.closing);
  known = λ d closing. h.known d (has-take_out d c srv.closing closing);
}

worked-Tracked :
    (c : ℕ) (p : Peer) (s : Session) (srv : Http2Server)
    → p.closed ≡ (srv.conns c).peer.closed
    → Tracked srv
    → Tracked (worked c p s srv)
worked-Tracked c p s srv same h = record {
  own = λ b d held. ground (arith, h.own b d);
  known = h.known;
}

remove_entry-Tracked :
    (t : Traits) (id : Str) (a : ℕ) (srv : Http2Server)
    → Tracked srv
    → Tracked (remove_entry t id a srv).0
unfolding remove_entry dispose_entry
remove_entry-Tracked t id a srv h =
    let kept = put_entry-Tracked a _ (drop_conn a srv) refl (drop_conn-Tracked a srv h) in
    record { own = kept.own; known = kept.known }

-- What the removal of an entry keeps, the removal of several keeps.
pub remove_entries-keeps :
    (P : Http2Server → Type 0) (t : Traits) (test : Http2SessionEntry → Bool)
    → ((id : Str) (a : ℕ) (srv : Http2Server) → P srv → P (remove_entry t id a srv).0)
    → (d : Dict ℕ) (srv : Http2Server) → P srv
    → P (remove_entries t test d srv).0
remove_entries-keeps P t test keeps [] srv h = h
remove_entries-keeps P t test keeps ((id, a) ∷ d) srv h =
    remove_entries-keeps P t test keeps d
      (if test (srv.entries a) then remove_entry t id a srv else (srv, [])).0
      (if_elim (λ r. P r.0) (test (srv.entries a)) (remove_entry t id a srv) (srv, [])
        (keeps id a srv h) h)

pub removed-keeps :
    (P : Http2Server → Type 0) (t : Traits) (id : Str)
    → ((a : ℕ) (srv : Http2Server) → P srv → P (remove_entry t id a srv).0)
    → (o : Option ℕ) (srv : Http2Server) → P srv
    → P (removed t id o srv).0
removed-keeps P t id keeps none srv h = h
removed-keeps P t id keeps (some a) srv h = keeps a srv h

Step-Tracked :
    {t : Traits} {alone : Bool} {sys next : System}
    → Step t alone sys next
    → Tracked sys.server
    → Tracked next.server
unfolding get_or_create_session delete_session cleanup_expired_sessions close_server
Step-Tracked {t} {sys} (enter id fresh now e _) h =
    subst Tracked (ap (λ r. r.2) e) (find-Tracked now fresh (find_entry id sys.server) sys.server h)
Step-Tracked (store a content_type prefix _) h = store_conn-Tracked a content_type prefix _ h
Step-Tracked (work c p s same) h = worked-Tracked c p s _ same h
Step-Tracked (end_conn c _) h = close_conn-Tracked c _ h
Step-Tracked (run_close c _) h = close_conn-Tracked c _ (forget-Tracked c _ h)
Step-Tracked {t} {sys} (delete id) h =
    removed-keeps Tracked t id (remove_entry-Tracked t id) (lookup id sys.server.sessions) _ h
Step-Tracked {t} {sys} (expire now) h =
    remove_entries-keeps Tracked t (is_expired now) (remove_entry-Tracked t) sys.server.sessions _ h
Step-Tracked {t} {sys} stop h =
    remove_entries-keeps Tracked t (λ e. true) (remove_entry-Tracked t) sys.server.sessions _
      (record { own = h.own; known = h.known })

pub Reach-Tracked :
    {t : Traits} {alone : Bool} {root : Option ℕ} {types : List Str} {sys : System}
    → Reach t alone root types sys
    → Tracked sys.server
Reach-Tracked start = record { own = λ a c held. cc; known = λ c closing. cc }
Reach-Tracked (later r st) = Step-Tracked st (Reach-Tracked r)

-- However the streams of a server interleave, the connection that an entry holds is a connection of
-- that entry which is open and whose closing has not been asked for.
pub entry_holds_open :
    {t : Traits} {alone : Bool} {root : Option ℕ} {types : List Str} {sys : System} {a c : ℕ}
    → Reach t alone root types sys
    → (sys.server.entries a).conn ≡ some c
    → (c < sys.server.conn_count)
      × ((sys.server.conns c).session_entry ≡ a)
      × ((sys.server.conns c).peer.closed ≡ false)
      × (has c sys.server.closing ≡ false)
entry_holds_open {a} {c} r held = (Reach-Tracked r).own a c held
