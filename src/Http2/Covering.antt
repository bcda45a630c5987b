-- ===== src/Http2/Covering.antt =====
-- How many connections a session of the HTTP/2 server has: go/jsonrpc3/http2_server.go.
use jsonrpc.Base.{
  ◌≢◌, ℕ, ◌<◌, ◌≤◌, ◌≡◌, refl, true, false, Option, none, some, List, [], ◌∷◌, arith, if_elim, Str,
  Bool-cases, inl, inr,
}
use jsonrpc.Session.{Session, Traits}
use jsonrpc.Base.Dict.{lookup, lookup-erase}
use jsonrpc.Peer.{Peer}
use jsonrpc.Http2.{Http2Server, Http2SessionEntry, put_entry}
use jsonrpc.Http2.Server.{close_conn, drop_conn, dropped, dispose_entry, remove_entry}
use jsonrpc.Http2.Steps.{has, count, take_out, worked}
use jsonrpc.Http2.Tracking.{conn_of, has-append_one}

-- Every open connection is held by its entry, or about to be closed; a stream that arrives is the only
-- one of its entry, which holds no connection.
pub record Covered (arriving : List ℕ) (srv : Http2Server) : Type 0 where
  pub held :
      (c : ℕ)
      → c < srv.conn_count
      → (srv.conns c).peer.closed ≡ false
      → has c srv.closing ≡ false
      → conn_of srv (srv.conns c).session_entry ≡ some c
  pub waiting : (a : ℕ) → has a arriving ≡ true → conn_of srv a ≡ none
  pub once : (a : ℕ) → count a arriving ≤ 1
  pub entered : (a : ℕ) → has a arriving ≡ true → a < srv.entry_count
  pub based : (c : ℕ) → c < srv.conn_count → (srv.conns c).session_entry < srv.entry_count
  pub listed : (id : Str) (a : ℕ) → lookup id srv.sessions ≡ some a → a < srv.entry_count

has_other : (c d : ℕ) (cs : List ℕ) → c ≢ d → has d cs ≡ true → has d (take_out c cs) ≡ true
has_other c d [] other h = h
has_other c d (b ∷ bs) other h = ground (arith, has_other c d bs other)

module _ (arriving : List ℕ) where
  dropped-Covered :
      (a : ℕ) (o : Option ℕ) (srv : Http2Server)
      → conn_of srv a ≡ o
      → Covered arriving srv
      → Covered arriving (dropped a o srv)
  dropped-Covered a none srv e h = h
  dropped-Covered a (some d) srv e h = record {
    held =
        λ c lt is_open quiet. ground (arith, h.held c lt is_open, has-append_one c d srv.closing);
    waiting = λ b there. ground (arith, h.waiting b there);
    once = h.once;
    entered = h.entered;
    based = h.based;
    listed = h.listed;
  }

  pub drop_conn-Covered :
      (a : ℕ) (srv : Http2Server) → Covered arriving srv → Covered arriving (drop_conn a srv)
  unfolding drop_conn
  drop_conn-Covered a srv h = dropped-Covered a (srv.entries a).conn srv refl h

  pub put_entry-Covered :
      (a : ℕ) (e : Http2SessionEntry) (srv : Http2Server)
      → e.conn ≡ conn_of srv a
      → Covered arriving srv
      → Covered arriving (put_entry a e srv)
  put_entry-Covered a e srv same h = record {
    held = λ c lt is_open quiet. ground (arith, h.held c lt is_open quiet);
    waiting = λ b there. ground (arith, h.waiting b there);
    once = h.once;
    entered = h.entered;
    based = h.based;
    listed = h.listed;
  }

  pub worked-Covered :
      (c : ℕ) (p : Peer) (s : Session) (srv : Http2Server)
      → p.closed ≡ (srv.conns c).peer.closed
      → Covered arriving srv
      → Covered arriving (worked c p s srv)
  worked-Covered c p s srv same h = record {
    held = λ d lt is_open quiet. ground (arith, h.held d lt);
    waiting = λ b there. ground (arith, h.waiting b there);
    once = h.once;
    entered = h.entered;
    based = λ d lt. ground (arith, h.based d lt);
    listed = h.listed;
  }

  pub remove_entry-Covered :
      (t : Traits) (id : Str) (a : ℕ) (srv : Http2Server)
      → Covered arriving srv
      → Covered arriving (remove_entry t id a srv).0
  unfolding remove_entry dispose_entry
  remove_entry-Covered t id a srv h =
      let kept = put_entry-Covered a _ (drop_conn a srv) refl (drop_conn-Covered a srv h) in
      record {
        held = kept.held;
        waiting = kept.waiting;
        once = kept.once;
        entered = kept.entered;
        based = kept.based;
        listed = λ j b there.
            ground (arith, lookup-erase id j (drop_conn a srv).sessions, kept.listed j b);
      }

  pub close_conn-Covered :
      (c : ℕ) (srv : Http2Server) → Covered arriving srv → Covered arriving (close_conn c srv)
  unfolding close_conn
  close_conn-Covered c srv h = if_elim (Covered arriving) (srv.conns c).peer.closed _ _ h (record {
    held = λ d lt is_open quiet. ground (arith, h.held d lt);
    waiting = λ b there. ground (arith, h.waiting b there);
    once = h.once;
    entered = h.entered;
    based = λ d lt. ground (arith, h.based d lt);
    listed = h.listed;
  })

  -- The running of a `Close` that was asked for.
  pub run-Covered :
      (c : ℕ) (srv : Http2Server)
      → Covered arriving srv
      → Covered arriving (close_conn c (record srv { closing = take_out c srv.closing }))
  unfolding close_conn
  run-Covered c srv h = elim (Bool-cases (srv.conns c).peer.closed) [
    | inl shut ↦ rw shut (record {
      held = λ d lt is_open quiet. ground (arith, h.held d lt is_open, has_other c d srv.closing);
      waiting = h.waiting;
      once = h.once;
      entered = h.entered;
      based = h.based;
      listed = h.listed;
    })
    | inr live ↦ rw live (record {
      held = λ d lt is_open quiet. ground (arith, h.held d lt, has_other c d srv.closing);
      waiting = λ b there. ground (arith, h.waiting b there);
      once = h.once;
      entered = h.entered;
      based = λ d lt. ground (arith, h.based d lt);
      listed = h.listed;
    })
  ]
