-- ===== src/Http2/Steps.antt =====
-- The HTTP/2 server at work, its streams interleaved: go/jsonrpc3/http2_server.go. `ServeHTTP` is two
-- steps, since it lets go of the locks between finding the entry and storing the connection.
use jsonrpc.Base.{
  ℕ, ◌+◌, ◌==◌, ◌<◌, ◌≡◌, Bool, true, false, ◌||◌, List, [], ◌∷◌, Option, Str, if◌then◌else◌,
}
use jsonrpc.Session.{Session, Traits}
use jsonrpc.Peer.{Peer}
use jsonrpc.Http2.{Http2Server, put_entry, put_conn, new_http2_server}
use jsonrpc.Http2.Server.{
  get_or_create_session, store_conn, close_conn, delete_session, cleanup_expired_sessions,
  close_server,
}

-- The server, and the entries of the streams between the two halves of `ServeHTTP`.
pub record System : Type 0 where
  pub server : Http2Server
  pub arriving : List ℕ

abbrev pub has : ℕ → List ℕ → Bool
has a [] = false
has a (b ∷ bs) = b == a || has a bs

abbrev pub count : ℕ → List ℕ → ℕ
count a [] = 0
count a (b ∷ bs) = let rest = count a bs in if b == a then rest + 1 else rest

-- A list without the first of its elements that is the given one.
abbrev pub take_out : ℕ → List ℕ → List ℕ
take_out a [] = []
take_out a (b ∷ bs) = let rest = take_out a bs in if b == a then bs else b ∷ rest

-- What a connection does while it is served: its calls, its queue and its session change in any way.
abbrev pub worked : ℕ → Peer → Session → Http2Server → Http2Server
worked c p s srv =
    let a = (srv.conns c).session_entry in
    put_entry a (record (srv.entries a) { session = s })
      (put_conn c (record (srv.conns c) { peer = p }) srv)

-- The steps; `alone` says that no two streams of one session are between the halves of `ServeHTTP`.
pub data Step (t : Traits) (alone : Bool) (sys : System) : System → Type 0 where
  -- The first half of `ServeHTTP`.
  enter :
      (id fresh : Str) (now : ℕ) {a : ℕ} {existed : Bool} {srv : Http2Server}
      → get_or_create_session id now fresh sys.server ≡ (a, existed, srv)
      → (alone ≡ true → has a sys.arriving ≡ false)
      → Step t alone sys (record { server = srv; arriving = a ∷ sys.arriving })
  -- Its second half.
  store :
      (a : ℕ) (content_type prefix : Str)
      → has a sys.arriving ≡ true
      → Step t alone sys (record {
        server = store_conn a content_type prefix sys.server;
        arriving = take_out a sys.arriving;
      })
  -- A connection reads, writes and calls.
  work :
      (c : ℕ) (p : Peer) (s : Session)
      → p.closed ≡ (sys.server.conns c).peer.closed
      → Step t alone sys (record sys { server = worked c p s sys.server })
  -- A connection ends, since its stream does.
  end_conn :
      (c : ℕ)
      → c < sys.server.conn_count
      → Step t alone sys (record sys { server = close_conn c sys.server })
  -- A `Close` that was asked for runs.
  run_close :
      (c : ℕ)
      → has c sys.server.closing ≡ true
      → Step t alone sys (record sys {
        server = close_conn c (record sys.server { closing = take_out c sys.server.closing });
      })
  -- `DELETE`
  delete :
      (id : Str) → Step t alone sys (record sys { server = (delete_session t id sys.server).0 })
  -- The cleanup loop.
  expire :
      (now : ℕ)
      → Step t alone sys (record sys { server = (cleanup_expired_sessions t now sys.server).0 })
  -- `Close`
  stop : Step t alone sys (record sys { server = (close_server t sys.server).0 })

-- The states that a new server comes to.
pub data Reach (t : Traits) (alone : Bool) (root : Option ℕ) (types : List Str)
    : System → Type 0 where
  start : Reach t alone root types (record { server = new_http2_server root types; arriving = [] })
  later :
      {sys next : System}
      → Reach t alone root types sys
      → Step t alone sys next
      → Reach t alone root types next
