-- ===== src/Http2/Reconnecting.antt =====
-- Streams of a session that is known: go/jsonrpc3/http2_server.go.
use jsonrpc.Base.{ℕ, ◌≡◌, refl, sym, ap, ◌∙◌, true, Option, none, some, arith, if_elim, Str, codes}
use mathlib.Core.Path.{subst}
use jsonrpc.Session.{Traits, Session}
use jsonrpc.Http2.{Http2Server}
use jsonrpc.Http2.Server.{
  get_or_create_session, find_entry, store_conn, close_conn, drop_conn, dropped, accessed,
}
use jsonrpc.Http2.Server.Serving.{
  Http2Request, streaming, serve_http, open_stream, or_cbor, supports,
}
use jsonrpc.Http2.Steps.{has}
use jsonrpc.Http2.Tracking.{conn_of, has-append_one}

session_of : Http2Server → ℕ → Session
session_of srv a = (srv.entries a).session

-- A request that the server accepts as a stream.
abbrev pub OpensStream : Http2Request → Http2Server → Type 0
OpensStream r srv =
    (r.method ≡ codes "POST")
    × (r.proto_major ≡ 2)
    × (supports (or_cbor r.content_type) srv.mime_types ≡ true)

serve_http-open_stream :
    (t : Traits) (r : Http2Request) (now : ℕ) (fresh prefix : Str) (srv : Http2Server)
    → OpensStream r srv
    → serve_http t r now fresh prefix srv
      ≡ open_stream r.session_id (or_cbor r.content_type) now fresh prefix srv
unfolding serve_http
serve_http-open_stream t r now fresh prefix srv (post, version, supported) =
    rw (post, version, supported) refl

-- What giving up the connection of an entry leaves.
record Dropped (a : ℕ) (srv srv' : Http2Server) : Type 0 where
  same_session : (srv'.entries a).session ≡ (srv.entries a).session
  same_count : srv'.conn_count ≡ srv.conn_count
  asked : (d : ℕ) → conn_of srv a ≡ some d → has d srv'.closing ≡ true

drop_conn-Dropped : (a : ℕ) (srv : Http2Server) → Dropped a srv (drop_conn a srv)
unfolding drop_conn
drop_conn-Dropped a srv = cases (conn_of srv a) refl
  where
    cases : (o : Option ℕ) → conn_of srv a ≡ o → Dropped a srv (dropped a o srv)
    cases none e = record { same_session = refl; same_count = refl; asked = λ d held. ground arith }
    cases (some c) e = record {
      same_session = ground arith;
      same_count = refl;
      asked = λ d held. ground (arith, has-append_one d c srv.closing);
    }

-- The entry that a stream of a known session has, with the new connection.
store_conn-entry :
    (a : ℕ) (content_type prefix : Str) (srv : Http2Server)
    → let srv' = store_conn a content_type prefix srv in
      ((srv'.entries a).session ≡ (srv.entries a).session)
      × (conn_of srv' a ≡ some srv.conn_count)
      × (srv'.closing ≡ srv.closing)
unfolding store_conn
store_conn-entry a content_type prefix srv = (ground arith, ground arith, refl)

-- A stream of a known session is answered with the ID of that session and gets the session's entry:
-- the session is what it was, the entry holds the new connection, and the connection that it held
-- before is to be closed.
pub serve_http_known :
    (t : Traits) (r : Http2Request) (now : ℕ) (fresh prefix : Str) (srv : Http2Server) (a : ℕ)
    → OpensStream r srv
    → find_entry r.session_id srv ≡ some a
    → let (served, srv', calls) = serve_http t r now fresh prefix srv in
      (served ≡ streaming srv.conn_count (or_cbor r.content_type) (srv.entries a).session.id)
      × ((srv'.entries a).session ≡ (srv.entries a).session)
      × ((srv'.entries a).conn ≡ some srv.conn_count)
      × ((d : ℕ) → (srv.entries a).conn ≡ some d → has d srv'.closing ≡ true)
unfolding open_stream get_or_create_session
serve_http_known t r now fresh prefix srv a opens found =
    let touched = accessed now a srv in
    let left = drop_conn-Dropped a touched in
    let (session_is, conn_is, closing_is) =
      store_conn-entry a (or_cbor r.content_type) prefix (drop_conn a touched) in
    let same : (touched.entries a).session ≡ (srv.entries a).session = ground arith in
    let held : conn_of touched a ≡ conn_of srv a = ground arith in
    rw (serve_http-open_stream t r now fresh prefix srv opens, found)
      (
        rw (left.same_count, ap (λ s. s.id) (left.same_session ∙ same)) refl,
        session_is ∙ (left.same_session ∙ same),
        conn_is ∙ ap some left.same_count,
        λ d e. subst (λ l. has d l ≡ true) (sym closing_is) (left.asked d (held ∙ e)),
      )

-- What the closing of a connection leaves.
record Closed (srv srv' : Http2Server) : Type 0 where
  same_table : (id : Str) → find_entry id srv' ≡ find_entry id srv
  same_types : srv'.mime_types ≡ srv.mime_types
  same_count : srv'.conn_count ≡ srv.conn_count
  same_sessions : (a : ℕ) → (srv'.entries a).session ≡ (srv.entries a).session

close_conn-Closed : (c : ℕ) (srv : Http2Server) → Closed srv (close_conn c srv)
unfolding close_conn find_entry
close_conn-Closed c srv =
    if_elim (Closed srv) (srv.conns c).peer.closed _ _
      (record {
        same_table = λ id. refl;
        same_types = refl;
        same_count = refl;
        same_sessions = λ a. refl;
      })
      (record {
        same_table = λ id. refl;
        same_types = refl;
        same_count = refl;
        same_sessions = λ a. ground arith;
      })

-- The closing of a connection, whichever it is, does not end its session: a later stream that names a
-- session of the table is answered with that session's ID, and has the session with the references that
-- it had before.
pub reconnect_keeps_session :
    (t : Traits) (r : Http2Request) (now : ℕ) (fresh prefix : Str) (c : ℕ) (srv : Http2Server)
    (a : ℕ)
    → OpensStream r srv
    → find_entry r.session_id srv ≡ some a
    → let (served, srv', calls) = serve_http t r now fresh prefix (close_conn c srv) in
      (served ≡ streaming srv.conn_count (or_cbor r.content_type) (srv.entries a).session.id)
      × ((srv'.entries a).session ≡ (srv.entries a).session)
      × ((srv'.entries a).conn ≡ some srv.conn_count)
reconnect_keeps_session t r now fresh prefix c srv a (post, version, supported) found =
    let k = close_conn-Closed c srv in
    let opens : OpensStream r (close_conn c srv) =
      (post, version, ap (supports (or_cbor r.content_type)) k.same_types ∙ supported) in
    let (served, session_is, conn_is, _) =
      serve_http_known t r now fresh prefix (close_conn c srv) a opens
        (k.same_table r.session_id ∙ found) in
    (
      served ∙ rw (k.same_count, k.same_sessions a) refl,
      session_is ∙ k.same_sessions a,
      conn_is ∙ ap some k.same_count,
    )
