-- ===== src/Http/EndToEnd/Asking.antt =====
-- What a client makes of the answer of a server: go/jsonrpc3/http_client.go.
use jsonrpc.Base.{
  ℕ, false, Option, some, Str, codes, starts_with, is_empty, Result, ok, ◌≡◌, refl, ap,
}
use jsonrpc.Any.{Any}
use jsonrpc.Message.{RawMessage, Response, set_format, set_request_format, is_response}
use jsonrpc.Message.Convert.{
  set_formats, request_to_message_set, response_to_message_set, message_to_response,
  message_of_response, response_of_message,
}
use jsonrpc.Message.Convert.RoundTrip.{HasOutcome}
use jsonrpc.Mime.{get_codec, codec_mime_type}
use jsonrpc.Session.{Session}
use jsonrpc.Env.{Env}
use jsonrpc.Handler.{handle_request}
use jsonrpc.Peer.Calling.{encode_params, call_request}
use jsonrpc.Http.{Wire}
use jsonrpc.Http.ClientRefs.{scan_for_client_refs}
use jsonrpc.Http.Server.{Server, get_or_create_session}
use jsonrpc.Http.Server.Serving.{write_data, stored_id}
use jsonrpc.Http.Client.{
  HttpClient, HttpReply, client_session_id, do_request, try_formats, Attempt, finished, generate_id,
  name_session,
}
use jsonrpc.Http.Client.Calls.{
  HttpOutcome, outcome_of, settle, call_http, attempt_call, encode_call, read_reply, one_response,
}
use jsonrpc.Http.EndToEnd.{Carries, reply_of, stays_behind, behind, to_server}
use jsonrpc.Http.EndToEnd.Answering.{to_server-write_data}

module _ (wire : Wire) (env : Env) where
  open env use {World, marshal}

  encode_call-ok :
      (method : Str) (params : Any) (ref : Option Str) (id : Any) (ct : Str) (raw : RawMessage)
      (bytes : Str)
      → encode_params marshal (get_codec ct) params ≡ ok raw
      → wire.marshal_messages
          (get_codec ct)
          (request_to_message_set (call_request method ref raw id))
        ≡ ok bytes
      → encode_call wire env method params ref id ct ≡ ok bytes
  unfolding encode_call
  encode_call-ok method params ref id ct raw bytes h hm = rw (h, hm) refl

  one_response-response_to_message_set :
      (f : Str) (resp : Response)
      → HasOutcome resp
      → one_response (set_formats f (response_to_message_set resp)).messages ≡ ok resp
  unfolding one_response set_formats response_to_message_set set_format message_of_response
      message_to_response is_response response_of_message
  one_response-response_to_message_set f resp h = rw h refl

  -- A response that was written as a single one is read as its outcome.
  read_reply-write_data :
      (now : ℕ) (sid : Option Str) (ct : Str) (resp : Response) (bytes : Str) (c : HttpClient)
      (w : World)
      → starts_with ct (codes "text/event-stream") ≡ false
      → HasOutcome resp
      → wire.unmarshal_messages (get_codec ct) bytes
        ≡ ok (set_formats (codec_mime_type (get_codec ct)) (response_to_message_set resp))
      → read_reply wire env now ct (reply_of (write_data sid ct bytes)) c w
        ≡ (finished (outcome_of (get_codec ct) resp.error resp.result), settle ct c, w)
  unfolding read_reply
  read_reply-write_data now sid ct resp bytes c w no_stream outcome h =
      rw
        (
          no_stream,
          h,
          one_response-response_to_message_set (codec_mime_type (get_codec ct)) resp outcome,
        )
        refl

module _ (wire : Wire) (env server_env : Env) (now : ℕ) (fresh : Str) where
  -- The network that leads to the server.
  abbrev pub network :
      Str → Str → Str → Server × server_env.World → Result HttpReply × (Server × server_env.World)
  network = to_server wire server_env now fresh

  -- A reply to the first format that a client tries is the end of its call.
  call_http-finished :
      (method : Str) (params : Any) (ref : Option Str) (c c' : HttpClient) (o : HttpOutcome)
      (st st' : env.World × (Server × server_env.World))
      → attempt_call wire env
          (Server × server_env.World)
          network
          now
          method
          params
          ref
          c.content_type
          c
          st
        ≡ (finished o, c', st')
      → call_http wire env (Server × server_env.World) network now method params ref c st
        ≡ (o, c', st')
  unfolding call_http try_formats
  call_http-finished method params ref c c' o st st' h = rw h refl

  -- An attempt whose request is encoded and replied to.
  attempt_call-read_reply :
      (method : Str) (params : Any) (ref : Option Str) (c c' : HttpClient) (bytes : Str)
      (reply : HttpReply) (cw : env.World) (n n' : Server × server_env.World)
      (a : Attempt HttpOutcome)
      → let c1 = (generate_id c).0 in
        encode_call wire env method params ref (generate_id c).1 c.content_type ≡ ok bytes
        → network bytes c.content_type (client_session_id c) n ≡ (ok reply, n')
        → read_reply wire env now c.content_type reply (name_session now reply c1) cw ≡ (a, c', cw)
        → attempt_call wire env
            (Server × server_env.World)
            network
            now
            method
            params
            ref
            c.content_type
            c
            (cw, n)
          ≡ (a, c', (cw, n'))
  unfolding attempt_call do_request
  attempt_call-read_reply method params ref c c' bytes reply cw n n' a h hn hr = rw (h, hn, hr) refl

  -- A call of a client reaches the method on the server, and brings its response back. Its conditions:
  -- the client's format is no event stream; the codec carries the request and the response, each up to
  -- its ID, whose kind of number the codec may change; the parameters hold no references of the client;
  -- and the server's handler responds with a result or an error. Then the outcome is that of the
  -- response, the application of the client is left alone, and the server's session is what the handler
  -- left.
  pub call_http-handle_request :
      (method : Str) (params : Any) (ref : Option Str) (c : HttpClient) (raw : RawMessage)
      (srv : Server) (cw : env.World) (w w' : server_env.World) (resp : Response) (s : Session)
      (bytes resp_bytes : Str) (id id' : Any)
      → let codec = get_codec c.content_type in
        let sent = call_request method ref raw (generate_id c).1 in
        let arrived = record sent { id = id } in
        let req = set_request_format (codec_mime_type codec) arrived in
        let (f, srv') = get_or_create_session (client_session_id c) now fresh srv in
        let (o, c', st) =
          call_http wire env
            (Server × server_env.World)
            network
            now
            method
            params
            ref
            c
            (cw, (srv, w)) in
        is_empty c.content_type ≡ false
        → starts_with c.content_type (codes "text/event-stream") ≡ false
        → is_empty method ≡ false
        → encode_params env.marshal codec params ≡ ok raw
        → scan_for_client_refs wire raw ≡ false
        → Carries wire codec (request_to_message_set sent) (request_to_message_set arrived) bytes
        → Carries wire codec
            (response_to_message_set resp)
            (response_to_message_set (record resp { id = id' }))
            resp_bytes
        → HasOutcome resp
        → handle_request server_env f.entry.handler now req f.entry.session w ≡ (some resp, s, w')
        → (o ≡ outcome_of codec resp.error resp.result) × (st ≡ (cw, (behind f req s srv', w')))
  call_http-handle_request method params ref c raw srv cw w w' resp s bytes resp_bytes id id'
        some_type no_stream named encoded no_refs (writes, reads) (answers, back) outcome handled =
      let (f, srv') = get_or_create_session (client_session_id c) now fresh srv in
      let req =
        set_request_format (codec_mime_type (get_codec c.content_type))
          (call_request method ref raw id) in
      let sid = stored_id (stays_behind f req s) f.session_id in
      let reply = reply_of (write_data sid c.content_type resp_bytes) in
      let e =
        call_http-finished method params ref c
          (settle c.content_type (name_session now reply (generate_id c).0))
          (outcome_of (get_codec c.content_type) resp.error resp.result) (cw, (srv, w)) _
          (attempt_call-read_reply method params ref c _ bytes reply cw (srv, w) _ _
            (encode_call-ok wire env method params ref (generate_id c).1 c.content_type raw bytes
              encoded writes)
            (to_server-write_data wire server_env now fresh bytes c.content_type
              (client_session_id c) (call_request method ref raw id) srv resp s w w' resp_bytes
              some_type named reads no_refs answers handled)
            (read_reply-write_data wire env now sid c.content_type (record resp { id = id' })
              resp_bytes (name_session now reply (generate_id c).0) cw no_stream outcome back)) in
      (ap (λ x. x.0) e, ap (λ x. x.2) e)
