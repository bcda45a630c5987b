-- ===== src/Http/EndToEnd/Answering.antt =====
-- What the server makes of a request that a client posts: go/jsonrpc3/http_server.go.
use jsonrpc.Base.{if◌then◌else◌, ℕ, Bool, true, false, some, Str, is_empty, ok, ◌≡◌, refl, ap, ◌∙◌}
use jsonrpc.Message.{Request, Response, set_request_format}
use jsonrpc.Message.Convert.{set_formats, request_to_message_set, response_to_message_set}
use jsonrpc.Message.Convert.RoundTrip.{to_request-request_to_message_set}
use jsonrpc.Mime.{get_codec, codec_mime_type}
use jsonrpc.Session.{Session}
use jsonrpc.Env.{Env}
use jsonrpc.Handler.{handle_request}
use jsonrpc.Http.{Wire}
use jsonrpc.Http.ClientRefs.{scan_for_client_refs}
use jsonrpc.Http.Server.{Server, Found, get_or_create_session, SessionEntry, store_session}
use jsonrpc.Http.Server.Serving.{
  serve_http, serve_body, serve_messages, serve_single, finish_single, write_response, write_data,
  is_web_socket_upgrade, stored_id, store_if, used,
}
use jsonrpc.Http.EndToEnd.{post, reply_of, stays_behind, behind, to_server, sent}

store_if-store_session :
    (b : Bool) (id : Str) (e : SessionEntry) (srv : Server)
    → store_if b id e srv ≡ (if b then store_session id e srv else srv)
store_if-store_session true id e srv = refl
store_if-store_session false id e srv = refl

module _ (wire : Wire) (env : Env) (now : ℕ) (fresh : Str) where
  open env use {World}

  serve_http-serve_body :
      (bytes ct id : Str) (srv : Server) (w : World)
      → serve_http wire env (post bytes ct id) now fresh srv w
        ≡ some (serve_body wire env (post bytes ct id) bytes now fresh srv w)
  unfolding serve_http is_web_socket_upgrade
  serve_http-serve_body bytes ct id srv w = refl

  -- A single request without references of the client, as the server finishes it.
  serve_body-finish_single :
      (bytes ct id : Str) (req : Request) (srv : Server) (w : World)
      → is_empty ct ≡ false
      → is_empty req.method ≡ false
      → wire.unmarshal_messages (get_codec ct) bytes
        ≡ ok (set_formats (codec_mime_type (get_codec ct)) (request_to_message_set req))
      → scan_for_client_refs wire req.params ≡ false
      → let (f, srv') = get_or_create_session id now fresh srv in
        let req' = set_request_format (codec_mime_type (get_codec ct)) req in
        serve_body wire env (post bytes ct id) bytes now fresh srv w
        ≡ finish_single wire env ct req' f srv'
            (handle_request env f.entry.handler now req' f.entry.session w)
  unfolding serve_body serve_messages serve_single set_formats request_to_message_set
      set_request_format
  serve_body-finish_single bytes ct id req srv w some_type named decoded no_refs =
      let back = to_request-request_to_message_set (codec_mime_type (get_codec ct)) req named in
      rw (some_type, decoded, back, no_refs) refl

  -- The answer to a request that was handled, as the network carries it.
  finish_single-to_server :
      (ct : Str) (req : Request) (f : Found) (srv : Server) (resp : Response) (s : Session)
      (w : World) (bytes : Str)
      → wire.marshal_messages (get_codec ct) (response_to_message_set resp) ≡ ok bytes
      → finish_single wire env ct req f srv (some resp, s, w) ≡ (
        write_data (stored_id (stays_behind f req s) f.session_id) ct bytes,
        behind f req s srv,
        w,
      )
  unfolding finish_single write_response
  finish_single-to_server ct req f srv resp s w bytes h = rw h (
      ap (λ x. (write_data (stored_id (stays_behind f req s) f.session_id) ct bytes, x, w))
        (store_if-store_session (stays_behind f req s) f.session_id (used f s) srv))

  -- A request that the server answers, as the network carries it.
  pub to_server-write_data :
      (bytes ct id : Str) (sent_req : Request) (srv : Server) (resp : Response) (s : Session)
      (w w' : World) (resp_bytes : Str)
      → is_empty ct ≡ false
      → is_empty sent_req.method ≡ false
      → wire.unmarshal_messages (get_codec ct) bytes
        ≡ ok (set_formats (codec_mime_type (get_codec ct)) (request_to_message_set sent_req))
      → scan_for_client_refs wire sent_req.params ≡ false
      → wire.marshal_messages (get_codec ct) (response_to_message_set resp) ≡ ok resp_bytes
      → let (f, srv') = get_or_create_session id now fresh srv in
        let req = set_request_format (codec_mime_type (get_codec ct)) sent_req in
        handle_request env f.entry.handler now req f.entry.session w ≡ (some resp, s, w')
        → to_server wire env now fresh bytes ct id (srv, w) ≡ (
          ok (reply_of (write_data (stored_id (stays_behind f req s) f.session_id) ct resp_bytes)),
          (behind f req s srv', w'),
        )
  unfolding to_server
  to_server-write_data bytes ct id sent_req srv resp s w w' resp_bytes some_type named reads no_refs
        answers handled =
      let (f, srv') = get_or_create_session id now fresh srv in
      let req = set_request_format (codec_mime_type (get_codec ct)) sent_req in
      ap (sent wire env now fresh (srv, w)) (serve_http-serve_body bytes ct id srv w)
      ∙ ap (λ x. sent wire env now fresh (srv, w) (some x))
          (serve_body-finish_single bytes ct id sent_req srv w some_type named reads no_refs
            ∙ (ap (finish_single wire env ct req f srv') handled
                ∙ finish_single-to_server ct req f srv' resp s w' resp_bytes answers))
