-- ===== src/Http2/Tests.antt =====
-- The theorems on the HTTP/2 server at concrete states.
use jsonrpc.Base.{ℕ, ◌+◌, ◌<◌, ◌≡◌, refl, true, false, Bool, none, some, [], ◌∷◌, codes, Str, arith}
use jsonrpc.Base.Dict.{lookup}
use jsonrpc.Mime.{mime_type_cbor}
use jsonrpc.Samples.{sample_traits}
use jsonrpc.Http2.{Http2Server, new_http2_server}
use jsonrpc.Http2.Server.{
  get_or_create_session, store_conn, close_conn, delete_session, close_server,
}
use jsonrpc.Http2.Server.Serving.{Http2Request, streaming, serve_http}
use jsonrpc.Http2.Steps.{System, Reach, start, later, enter, store, has}
use jsonrpc.Http2.Tracking.{entry_holds_open}
use jsonrpc.Http2.Exclusion.{one_connection}
use jsonrpc.Http2.Overlap.{both_streams, overlapping_streams}
use jsonrpc.Http2.Reconnecting.{reconnect_keeps_session}
use jsonrpc.Http2.Stopping.{close_server_lem}

abbrev made : Http2Server
made = new_http2_server (some 1) []

-- A stream of a new session, between its halves and behind them.
abbrev arrived : System
arrived = record { server = (get_or_create_session [] 5 (codes "s") made).2; arriving = 0 ∷ [] }

abbrev streamed : System
streamed = record { server = store_conn 0 mime_type_cbor (codes "p") arrived.server; arriving = [] }

reached : (alone : Bool) → Reach sample_traits alone (some 1) [] streamed
unfolding get_or_create_session
reached alone =
    later (later start (enter [] (codes "s") 5 refl (λ a. refl)))
      (store 0 mime_type_cbor (codes "p") refl)

entry_holds_open_example :
    (0 < streamed.server.conn_count)
    × ((streamed.server.conns 0).session_entry ≡ 0)
    × ((streamed.server.conns 0).peer.closed ≡ false)
    × (has 0 streamed.server.closing ≡ false)
unfolding store_conn get_or_create_session
entry_holds_open_example = entry_holds_open {a = 0} {c = 0} (reached false) refl

-- A second stream of the same session.
abbrev back : System
back = record {
  server = (get_or_create_session (codes "s") 6 (codes "t") streamed.server).2;
  arriving = 0 ∷ [];
}

abbrev taken_over : System
taken_over = record { server = store_conn 0 mime_type_cbor (codes "q") back.server; arriving = [] }

reached_again : Reach sample_traits true (some 1) [] taken_over
unfolding get_or_create_session lookup store_conn jsonrpc.Base.Dict.insert
reached_again =
    later (later (reached true) (enter (codes "s") (codes "t") 6 refl (λ a. refl)))
      (store 0 mime_type_cbor (codes "q") refl)

one_connection_example : ◌≡◌ {A = ℕ} 1 1
unfolding store_conn get_or_create_session lookup jsonrpc.Base.Dict.insert jsonrpc.Peer.new_peer
one_connection_example =
    one_connection reached_again 1 1 (omega arith) (omega arith) refl refl refl refl refl

overlapping_streams_example :
    let both =
      both_streams
        (codes "s")
        6
        7
        (codes "t")
        mime_type_cbor
        (codes "q")
        (codes "r")
        streamed.server in
    let (srv, calls) = delete_session sample_traits (codes "s") both in
    let x = srv.conns 1 in
    (x.session_entry ≡ 0)
    × (x.peer.closed ≡ false)
    × (has 1 srv.closing ≡ false)
    × (lookup (codes "s") srv.sessions ≡ none)
unfolding jsonrpc.Http2.Server.find_entry lookup store_conn get_or_create_session
    jsonrpc.Base.Dict.insert
overlapping_streams_example =
    overlapping_streams {a = 0} (reached false) (codes "s") 6 7 (codes "t") mime_type_cbor
      (codes "q") (codes "r") refl

abbrev post : Http2Request
post = record { method = codes "POST"; proto_major = 2; content_type = []; session_id = codes "s" }

reconnect_keeps_session_example :
    let (served, srv', calls) =
      serve_http sample_traits post 6 (codes "t") (codes "q") (close_conn 0 streamed.server) in
    (served ≡ streaming 1 mime_type_cbor (codes "s"))
    × ((srv'.entries 0).session ≡ (streamed.server.entries 0).session)
    × ((srv'.entries 0).conn ≡ some 1)
unfolding store_conn get_or_create_session lookup jsonrpc.Base.Dict.insert
reconnect_keeps_session_example =
    reconnect_keeps_session sample_traits post 6 (codes "t") (codes "q") 0 streamed.server 0
      (refl, refl, refl) refl

close_server_lem_example :
    let (srv', calls) = close_server sample_traits streamed.server in
    ((j : Str) → lookup j srv'.sessions ≡ none)
    × ((id : Str) (a c : ℕ)
        → lookup id streamed.server.sessions ≡ some a
        → (streamed.server.entries a).conn ≡ some c
        → has c srv'.closing ≡ true)
close_server_lem_example = close_server_lem sample_traits streamed.server
