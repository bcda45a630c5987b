-- ===== src/Http2/Stopping.antt =====
-- The end of the HTTP/2 server: go/jsonrpc3/http2_server.go.
use jsonrpc.Base.{
  ◌⊎◌, ℕ, ◌≡◌, refl, ◌∙◌, true, Option, none, some, [], ◌∷◌, arith, if◌then◌else◌, Str, str_eq,
  Bool-cases, inl, inr,
}
use mathlib.Core.Path.{subst}
use jsonrpc.Session.{Traits}
use jsonrpc.Base.Dict.{Dict, lookup, erase, lookup-erase, member}
use jsonrpc.Http2.{Http2Server}
use jsonrpc.Http2.Server.{
  dispose_entry, drop_conn, dropped, remove_entry, remove_entries, close_server,
}
use jsonrpc.Http2.Steps.{has}
use jsonrpc.Http2.Tracking.{conn_of, has-append_one}

-- A connection that an entry holds, or whose closing has been asked for.
abbrev Known : ℕ → ℕ → Http2Server → Type 0
Known a c srv = (conn_of srv a ≡ some c) ⊎ (has c srv.closing ≡ true)

dropped-Known :
    (a c b : ℕ) (o : Option ℕ) (srv : Http2Server)
    → conn_of srv b ≡ o
    → Known a c srv
    → Known a c (dropped b o srv)
dropped-Known a c b none srv e h = h
dropped-Known a c b (some d) srv e h = ground (arith, has-append_one c d srv.closing)

remove_entry-Known :
    (t : Traits) (id : Str) (a c b : ℕ) (srv : Http2Server)
    → Known a c srv
    → Known a c (remove_entry t id b srv).0
unfolding remove_entry dispose_entry drop_conn
remove_entry-Known t id a c b srv h = ground (arith, dropped-Known a c b (conn_of srv b) srv refl h)

-- The connection of an entry that is removed is to be closed.
remove_entry-asked :
    (t : Traits) (id : Str) (a c : ℕ) (srv : Http2Server)
    → Known a c srv
    → has c (remove_entry t id a srv).0.closing ≡ true
unfolding remove_entry dispose_entry drop_conn
remove_entry-asked t id a c srv h = asked (conn_of srv a) refl
  where
    asked : (o : Option ℕ) → conn_of srv a ≡ o → has c (dropped a o srv).closing ≡ true
    asked none e = ground arith
    asked (some d) e = ground (arith, has-append_one c d srv.closing)

module _ (t : Traits) where
  emptied : Dict ℕ → Http2Server → Http2Server
  emptied d srv = (remove_entries t (λ e. true) d srv).0

  stays_asked :
      (c : ℕ) (d : Dict ℕ) (srv : Http2Server)
      → has c srv.closing ≡ true
      → has c (emptied d srv).closing ≡ true
  unfolding emptied
  stays_asked c [] srv h = h
  stays_asked c ((id, a) ∷ d) srv h = stays_asked c d _ (remove_entry-asked t id a c srv (inr h))

  all_asked :
      (id : Str) (a c : ℕ) (d : Dict ℕ) (srv : Http2Server)
      → lookup id d ≡ some a
      → Known a c srv
      → has c (emptied d srv).closing ≡ true
  unfolding emptied lookup
  all_asked id a c [] srv there h = cc
  all_asked id a c ((j, b) ∷ d) srv there h = elim (Bool-cases (str_eq j id)) [
    | inl same ↦
        stays_asked c d _
          (remove_entry-asked t j b c srv (subst (λ x. Known x c srv) (ground arith) h))
    | inr other ↦ all_asked id a c d _ (ground arith) (remove_entry-Known t j a c b srv h)
  ]

  remove_entry-sessions :
      (id : Str) (a : ℕ) (srv : Http2Server)
      → (remove_entry t id a srv).0.sessions ≡ erase id srv.sessions
  unfolding remove_entry dispose_entry drop_conn
  remove_entry-sessions id a srv = kept (conn_of srv a)
    where
      kept : (o : Option ℕ) → erase id (dropped a o srv).sessions ≡ erase id srv.sessions
      kept none = refl
      kept (some c) = refl

  lookup-emptied :
      (j : Str) (d : Dict ℕ) (srv : Http2Server)
      → lookup j (emptied d srv).sessions ≡ (if member j d then none else lookup j srv.sessions)
  unfolding emptied lookup
  lookup-emptied j [] srv = refl
  lookup-emptied j ((id, a) ∷ d) srv =
      lookup-emptied j d (remove_entry t id a srv).0
      ∙ (rw (remove_entry-sessions id a srv, lookup-erase id j srv.sessions) (ground arith))

-- `Close` leaves no session in the table, and has every connection closed that the entry of a session
-- in the table holds.
pub close_server_lem :
    (t : Traits) (srv : Http2Server)
    → let (srv', calls) = close_server t srv in
      ((j : Str) → lookup j srv'.sessions ≡ none)
      × ((id : Str) (a c : ℕ)
          → lookup id srv.sessions ≡ some a
          → (srv.entries a).conn ≡ some c
          → has c srv'.closing ≡ true)
unfolding close_server emptied
close_server_lem t srv = (
  λ j. lookup-emptied t j srv.sessions (record srv { cleanup_done = true }) ∙ ground arith,
  λ id a c there held.
      all_asked t id a c srv.sessions (record srv { cleanup_done = true }) there (inl held),
)
