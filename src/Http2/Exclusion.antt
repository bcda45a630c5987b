-- ===== src/Http2/Exclusion.antt =====
-- What keeps the connections of a session apart: go/jsonrpc3/http2_server.go.
use jsonrpc.Base.{
  ℕ, suc, ◌<◌, ◌≤◌, ◌≡◌, refl, ap, sym, true, false, Option, none, some, List, [], ◌∷◌, arith, Str,
}
use mathlib.Core.Path.{subst}
use jsonrpc.Session.{Traits}
use jsonrpc.Base.Dict.{lookup, lookup-insert}
use jsonrpc.Peer.{new_peer}
use jsonrpc.Http2.{Http2Server}
use jsonrpc.Http2.Server.{
  get_or_create_session, accessed, entry_or_new, find_entry, store_conn, drop_conn, dropped,
  is_expired, delete_session, cleanup_expired_sessions, close_server,
}
use jsonrpc.Http2.Steps.{
  System, has, count, take_out, Step, enter, store, work, end_conn, run_close, delete, expire, stop,
  Reach, start, later,
}
use jsonrpc.Http2.Tracking.{conn_of, remove_entries-keeps, removed-keeps}
use jsonrpc.Http2.Covering.{
  Covered, worked-Covered, put_entry-Covered, drop_conn-Covered, remove_entry-Covered,
  close_conn-Covered, run-Covered,
}

count-has : (a : ℕ) (cs : List ℕ) → has a cs ≡ false → count a cs ≡ 0
count-has a [] h = refl
count-has a (b ∷ bs) h = ground (arith, count-has a bs)

has-count : (a : ℕ) (cs : List ℕ) → count a cs ≡ 0 → has a cs ≡ false
has-count a [] h = refl
has-count a (b ∷ bs) h = ground (arith, has-count a bs)

count-take_out : (a b : ℕ) (cs : List ℕ) → count b (take_out a cs) ≤ count b cs
count-take_out a b [] = omega arith
count-take_out a b (d ∷ ds) = ground (arith, count-take_out a b ds)

count-take_out_same :
    (a : ℕ) (cs : List ℕ) → has a cs ≡ true → suc (count a (take_out a cs)) ≡ count a cs
count-take_out_same a [] h = ground arith
count-take_out_same a (d ∷ ds) h = ground (arith, count-take_out_same a ds)

has-take_out : (a b : ℕ) (cs : List ℕ) → has b (take_out a cs) ≡ true → has b cs ≡ true
has-take_out a b [] h = h
has-take_out a b (d ∷ ds) h = ground (arith, has-take_out a b ds)

store_conn-Covered :
    (arriving : List ℕ) (a : ℕ) (content_type prefix : Str) (srv : Http2Server)
    → has a arriving ≡ true
    → Covered arriving srv
    → Covered (take_out a arriving) (store_conn a content_type prefix srv)
unfolding store_conn new_peer
store_conn-Covered arriving a content_type prefix srv here h =
    let gone : has a (take_out a arriving) ≡ false =
      has-count a (take_out a arriving)
        (omega (arith, h.once a, count-take_out_same a arriving here)) in
    record {
      held = λ c lt is_open quiet. ground (arith, h.held c, h.waiting a here);
      waiting = λ b there. ground (arith, gone, h.waiting b, has-take_out a b arriving);
      once = λ b. omega (arith, h.once b, count-take_out a b arriving);
      entered = λ b there. h.entered b (has-take_out a b arriving there);
      based = λ c lt. ground (arith, h.based c, h.entered a here);
      listed = h.listed;
    }

new-Covered :
    (arriving : List ℕ) (now : ℕ) (fresh : Str) (srv : Http2Server)
    → Covered arriving srv
    → Covered (srv.entry_count ∷ arriving) (entry_or_new now fresh none srv).2
new-Covered arriving now fresh srv h =
    let absent : has srv.entry_count arriving ≡ false = ground (arith, h.entered srv.entry_count) in
    record {
      held = λ c lt is_open quiet. ground (arith, h.held c lt is_open quiet, h.based c lt);
      waiting = λ b there. ground (arith, h.waiting b);
      once = λ b. ground (arith, h.once b, count-has srv.entry_count arriving absent);
      entered = λ b there. ground (arith, h.entered b);
      based = λ c lt. ground (arith, h.based c lt);
      listed = λ j b there.
          ground (arith, lookup-insert fresh j srv.entry_count srv.sessions, h.listed j b);
    }

drop_conn-none : (a : ℕ) (srv : Http2Server) → conn_of (drop_conn a srv) a ≡ none
unfolding drop_conn
drop_conn-none a srv = emptied (conn_of srv a) refl
  where
    emptied : (o : Option ℕ) → conn_of srv a ≡ o → conn_of (dropped a o srv) a ≡ none
    emptied none e = e
    emptied (some c) e = ground arith

-- A stream more, of an entry without a connection.
arrive-Covered :
    (arriving : List ℕ) (a : ℕ) (srv : Http2Server)
    → has a arriving ≡ false
    → conn_of srv a ≡ none
    → a < srv.entry_count
    → Covered arriving srv
    → Covered (a ∷ arriving) srv
arrive-Covered arriving a srv absent empty lt h = record {
  held = h.held;
  waiting = λ b there. ground (arith, h.waiting b);
  once = λ b. ground (arith, h.once b, count-has a arriving absent);
  entered = λ b there. ground (arith, h.entered b);
  based = h.based;
  listed = h.listed;
}

drop_conn-entry_count :
    (a : ℕ) (srv : Http2Server) → (drop_conn a srv).entry_count ≡ srv.entry_count
unfolding drop_conn
drop_conn-entry_count a srv = kept (conn_of srv a)
  where
    kept : (o : Option ℕ) → (dropped a o srv).entry_count ≡ srv.entry_count
    kept none = refl
    kept (some c) = refl

enter-Covered :
    (arriving : List ℕ) (now : ℕ) (fresh : Str) (o : Option ℕ) (srv : Http2Server)
    → ((a : ℕ) → o ≡ some a → a < srv.entry_count)
    → has (entry_or_new now fresh o srv).0 arriving ≡ false
    → Covered arriving srv
    → Covered ((entry_or_new now fresh o srv).0 ∷ arriving) (entry_or_new now fresh o srv).2
enter-Covered arriving now fresh none srv bound absent h = new-Covered arriving now fresh srv h
enter-Covered arriving now fresh (some a) srv bound absent h =
    arrive-Covered arriving a (drop_conn a (accessed now a srv)) absent (drop_conn-none a _)
      (rw (drop_conn-entry_count a (accessed now a srv)) (bound a refl))
      (drop_conn-Covered arriving a _ (put_entry-Covered arriving a _ srv refl h))

pub find_entry-listed :
    (id : Str) (srv : Http2Server) (a : ℕ)
    → find_entry id srv ≡ some a
    → lookup id srv.sessions ≡ some a
unfolding find_entry
find_entry-listed id srv a h = ground arith

Step-Covered :
    {t : Traits} {sys next : System}
    → Step t true sys next
    → Covered sys.arriving sys.server
    → Covered next.arriving next.server
unfolding get_or_create_session delete_session cleanup_expired_sessions close_server
Step-Covered {t} {sys} (enter id fresh now {a} {existed} {srv} e lone) h =
    subst (λ r. Covered (r.0 ∷ sys.arriving) r.2) e
      (enter-Covered sys.arriving now fresh (find_entry id sys.server) sys.server
        (λ b found. h.listed id b (find_entry-listed id sys.server b found))
        (subst (λ b. has b sys.arriving ≡ false) (sym (ap (λ r. r.0) e)) (lone refl)) h)
Step-Covered (store a content_type prefix here) h =
    store_conn-Covered _ a content_type prefix _ here h
Step-Covered (work c p s same) h = worked-Covered _ c p s _ same h
Step-Covered (end_conn c _) h = close_conn-Covered _ c _ h
Step-Covered (run_close c _) h = run-Covered _ c _ h
Step-Covered {t} {sys} (delete id) h =
    removed-keeps (Covered sys.arriving) t id (remove_entry-Covered sys.arriving t id)
      (lookup id sys.server.sessions) _ h
Step-Covered {t} {sys} (expire now) h =
    remove_entries-keeps (Covered sys.arriving) t (is_expired now)
      (remove_entry-Covered sys.arriving t) sys.server.sessions _ h
Step-Covered {t} {sys} stop h =
    remove_entries-keeps (Covered sys.arriving) t (λ e. true) (remove_entry-Covered sys.arriving t)
      sys.server.sessions _
      (record {
        held = h.held;
        waiting = h.waiting;
        once = h.once;
        entered = h.entered;
        based = h.based;
        listed = h.listed;
      })

Reach-Covered :
    {t : Traits} {root : Option ℕ} {types : List Str} {sys : System}
    → Reach t true root types sys
    → Covered sys.arriving sys.server
unfolding lookup
Reach-Covered start = record {
  held = λ c lt. absurd (omega arith);
  waiting = λ a there. cc;
  once = λ a. omega arith;
  entered = λ a there. cc;
  based = λ c lt. absurd (omega arith);
  listed = λ id a there. cc;
}
Reach-Covered (later r st) = Step-Covered st (Reach-Covered r)

-- If no two streams of one session are between the halves of `ServeHTTP` at once, a session has one
-- connection at most: two open connections of one entry, neither of them about to be closed, are the
-- same.
pub one_connection :
    {t : Traits} {root : Option ℕ} {types : List Str} {sys : System}
    → Reach t true root types sys
    → (c d : ℕ) → c < sys.server.conn_count
    → d < sys.server.conn_count
    → (sys.server.conns c).session_entry ≡ (sys.server.conns d).session_entry
    → (sys.server.conns c).peer.closed ≡ false
    → (sys.server.conns d).peer.closed ≡ false
    → has c sys.server.closing ≡ false
    → has d sys.server.closing ≡ false
    → c ≡ d
one_connection r c d lt_c lt_d same open_c open_d quiet_c quiet_d =
    let h = Reach-Covered r in
    ground (arith, h.held c lt_c open_c quiet_c, h.held d lt_d open_d quiet_d)
