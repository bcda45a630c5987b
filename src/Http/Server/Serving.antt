-- ===== src/Http/Server/Serving.antt =====
-- `ServeHTTP` and the handlers that it calls: go/jsonrpc3/http_server.go.
use jsonrpc.Base.{
  ℕ, ◌+◌, leb, Bool, true, false, not, ◌&&◌, ◌||◌, ◌==◌, Option, none, some, [], ◌∷◌, ◌++◌, map,
  Str, codes, str_eq, contains, starts_with, is_empty, Result, ok, err, if◌then◌else◌,
}
use jsonrpc.Base.Dict.{lookup, erase}
use jsonrpc.Any.{nil, text}
use jsonrpc.Message.{Request, Response, MessageSet, Batch, BatchResponse}
use jsonrpc.Message.Convert.{
  to_request, to_batch, response_to_message_set, batch_response_to_message_set,
}
use jsonrpc.Message.Errors.{new_error_response, new_parse_error}
use jsonrpc.Mime.{get_codec, mime_type_json, mime_type_cbor, mime_type_cbor_compact}
use jsonrpc.Session.{Session, list_local_refs}
use jsonrpc.Env.{Env}
use jsonrpc.Protocol.{clean_up_all}
use jsonrpc.Handler.{handle_request, handle_batch}
use jsonrpc.Http.{Wire, HttpRequest, HttpResponse}
use jsonrpc.Http.ClientRefs.{scan_for_client_refs}
use jsonrpc.Http.Server.{
  SessionEntry, Server, Found, get_or_create_session, store_session, is_nil_list, disposed_calls,
}

-- `strings.ToLower`, as far as it gives ASCII letters that are in `upgrade` and `websocket`: the
-- Kelvin sign is the one character beyond ASCII that does.
abbrev lower_code : ℕ → ℕ
lower_code c = if leb b'A' c && leb c b'Z' then c + 32 else if c == 0x212A then b'k' else c

abbrev to_lower : Str → Str
to_lower = map lower_code

-- `isWebSocketUpgrade`
unfoldable pub is_web_socket_upgrade : HttpRequest → Bool
is_web_socket_upgrade r =
    str_eq r.method (codes "GET")
    && (contains (to_lower r.connection) (codes "upgrade")
        && str_eq (to_lower r.upgrade) (codes "websocket"))

-- The content type of a WebSocket connection, by the subprotocol that was agreed on.
abbrev pub subprotocol_content_type : Str → Str
subprotocol_content_type sub =
    if str_eq sub (codes "jsonrpc3.cbor")
    then mime_type_cbor
    else if str_eq sub (codes "jsonrpc3.cbor-compact")
    then mime_type_cbor_compact
    else mime_type_json

-- `http.Error`
abbrev pub http_error : Option Str → Str → ℕ → HttpResponse
http_error session_id message status = record {
  status = status;
  content_type = codes "text/plain; charset=utf-8";
  session_id = session_id;
  body = message ++ codes "\n";
}

-- `WriteHeader(http.StatusNoContent)`
abbrev pub no_content : Option Str → HttpResponse
no_content session_id = record {
  status = 204;
  content_type = [];
  session_id = session_id;
  body = [];
}

-- `writeData`
abbrev pub write_data : Option Str → Str → Str → HttpResponse
write_data session_id content_type bytes = record {
  status = 200;
  content_type = content_type;
  session_id = session_id;
  body = bytes;
}

abbrev encoding_failed : Option Str → HttpResponse
encoding_failed session_id = http_error session_id (codes "Failed to encode response") 500

abbrev pub data_or_error : Option Str → Str → Result Str → HttpResponse
data_or_error session_id content_type (ok bytes) = write_data session_id content_type bytes
data_or_error session_id content_type (err e) = encoding_failed session_id

-- `writeResponse`
unfoldable pub write_response : Wire → Option Str → Str → Response → HttpResponse
write_response wire session_id content_type resp =
    data_or_error session_id content_type
      (wire.marshal_messages (get_codec content_type) (response_to_message_set resp))

-- What follows a handled single request.
abbrev pub answer_or_no_content : Wire → Option Str → Str → Option Response → HttpResponse
answer_or_no_content wire session_id content_type none = no_content session_id
answer_or_no_content wire session_id content_type (some resp) =
    write_response wire session_id content_type resp

-- `writeSSEEvent`: one event with the data.
unfoldable pub sse_event : Str → Str
sse_event bytes = codes "data: " ++ (bytes ++ codes "\n\n")

-- The body of an event stream: no event for no response, or for one that cannot be encoded.
abbrev sse_of_encoded : Result Str → Str
sse_of_encoded (ok bytes) = sse_event bytes
sse_of_encoded (err e) = []

abbrev sse_body : Wire → Str → Option Response → Str
sse_body wire content_type none = []
sse_body wire content_type (some resp) =
    sse_of_encoded (wire.marshal_messages (get_codec content_type) (response_to_message_set resp))

-- Whether a request calls a protocol method.
abbrev pub is_protocol_method : Request → Bool
is_protocol_method r = str_eq r.ref (codes "$rpc") || starts_with r.method (codes "$rpc.")

-- The entry after its session was used.
abbrev pub used : Found → Session → SessionEntry
used f s = record f.entry { session = s }

-- The header `RPC-Session-Id`, which names a session that is stored.
abbrev pub stored_id : Bool → Str → Option Str
stored_id true id = some id
stored_id false id = none

abbrev pub store_if : Bool → Str → SessionEntry → Server → Server
store_if true id e srv = store_session id e srv
store_if false id e srv = srv

module _ (wire : Wire) (env : Env) where
  open env use {World, traits}

  abbrev pub Served : Type 0
  Served = HttpResponse × Server × World

  -- The answer to a body that is no message set.
  abbrev parse_failure : Str → Str → Server → World → Served
  parse_failure content_type e srv w = (
    write_response wire none content_type
        (new_error_response nil (new_parse_error (text e)) srv.version),
    srv,
    w,
  )

  -- A single request has been handled: the session stays if it was there, if a protocol method was
  -- called, or if it has local references.
  unfoldable pub finish_single :
      Str → Request → Found → Server → Option Response × Session × World → Served
  finish_single content_type req f srv (resp, s, w) =
      let stays =
        f.was_existing || (is_protocol_method req || not (is_nil_list (list_local_refs s))) in
      (
        answer_or_no_content wire (stored_id stays f.session_id) content_type resp,
        store_if stays f.session_id (used f s) srv,
        w,
      )

  -- `handleSSERequest` behind the storing of the session: the response as an event.
  unfoldable pub finish_sse : Str → Found → Server → Option Response × Session × World → Served
  unfolding sse_event
  finish_sse content_type f srv (resp, s, w) = (
    record {
      status = 200;
      content_type = codes "text/event-stream";
      session_id = some f.session_id;
      body = sse_body wire content_type resp;
    },
    store_session f.session_id (used f s) srv,
    w,
  )

  -- `handleSSERequest`
  unfoldable pub handle_sse_request : Bool → Str → ℕ → Request → Found → Server → World → Served
  unfolding finish_sse
  handle_sse_request can_flush content_type now req f srv w =
      let srv' = store_session f.session_id f.entry srv in
      if can_flush
      then finish_sse content_type f srv'
          (handle_request env f.entry.handler now req f.entry.session w)
      else (http_error (some f.session_id) (codes "Streaming not supported") 500, srv', w)

  -- A single request.
  unfoldable pub serve_single : Bool → Str → ℕ → Request → Found → Server → World → Served
  unfolding finish_single handle_sse_request
  serve_single can_flush content_type now req f srv w =
      if scan_for_client_refs wire req.params
      then handle_sse_request can_flush content_type now req f srv w
      else finish_single content_type req f srv
          (handle_request env f.entry.handler now req f.entry.session w)

  -- Encoded responses of a batch: no content for none.
  abbrev pub encode_batch : Str → BatchResponse → Option (Result Str)
  encode_batch content_type [] = none
  encode_batch content_type (r ∷ rs) =
      some (wire.marshal_messages (get_codec content_type) (batch_response_to_message_set (r ∷ rs)))

  -- A session that was there is used in place; a new one is lost when the responses cannot be encoded.
  abbrev pub answer_batch : Str → Found → Session → Server → World → Option (Result Str) → Served
  answer_batch content_type f s srv w (some (err e)) =
      (encoding_failed none, store_if f.was_existing f.session_id (used f s) srv, w)
  answer_batch content_type f s srv w none =
      let stays = f.was_existing || not (is_nil_list (list_local_refs s)) in
      (no_content (stored_id stays f.session_id), store_if stays f.session_id (used f s) srv, w)
  answer_batch content_type f s srv w (some (ok bytes)) =
      let stays = f.was_existing || not (is_nil_list (list_local_refs s)) in
      (
        write_data (stored_id stays f.session_id) content_type bytes,
        store_if stays f.session_id (used f s) srv,
        w,
      )

  unfoldable pub finish_batch : Str → Found → Server → BatchResponse × Session × World → Served
  finish_batch content_type f srv (rs, s, w) =
      answer_batch content_type f s srv w (encode_batch content_type rs)

  abbrev pub serve_converted_request :
      Bool → Str → ℕ → Found → Server → World → Result Request → Served
  serve_converted_request can_flush content_type now f srv w (err e) =
      parse_failure content_type e srv w
  serve_converted_request can_flush content_type now f srv w (ok req) =
      serve_single can_flush content_type now req f srv w

  abbrev pub serve_converted_batch : Str → ℕ → Found → Server → World → Result Batch → Served
  serve_converted_batch content_type now f srv w (err e) = parse_failure content_type e srv w
  serve_converted_batch content_type now f srv w (ok batch) =
      finish_batch content_type f srv (handle_batch env f.entry.handler now batch f.entry.session w)

  unfoldable pub serve_messages :
      Bool → Str → ℕ → Found → Server → World → Result MessageSet → Served
  unfolding serve_single finish_batch
  serve_messages can_flush content_type now f srv w (err e) = parse_failure content_type e srv w
  serve_messages can_flush content_type now f srv w (ok ms) =
      if ms.is_batch
      then serve_converted_batch content_type now f srv w (to_batch ms)
      else serve_converted_request can_flush content_type now f srv w (to_request ms)

  -- A POST with a body.
  unfoldable pub serve_body : HttpRequest → Str → ℕ → Str → Server → World → Served
  unfolding serve_messages
  serve_body r bytes now fresh srv w =
      let content_type = if is_empty r.content_type then mime_type_json else r.content_type in
      let (f, srv') = get_or_create_session r.session_id now fresh srv in
      serve_messages r.can_flush content_type now f srv' w
        (wire.unmarshal_messages (get_codec content_type) bytes)

  abbrev pub serve_post : HttpRequest → ℕ → Str → Server → World → Option Str → Served
  serve_post r now fresh srv w none =
      (http_error none (codes "Failed to read request body") 400, srv, w)
  serve_post r now fresh srv w (some bytes) = serve_body r bytes now fresh srv w

  -- A DELETE: the objects of the session are disposed of, and it leaves the table.
  unfoldable pub serve_delete : HttpRequest → Server → World → Served
  serve_delete r srv w = if is_empty r.session_id then (no_content none, srv, w) else (
    no_content none,
    record srv { sessions = erase r.session_id srv.sessions },
    clean_up_all env (disposed_calls traits (lookup r.session_id srv.sessions)) w,
  )

  -- `ServeHTTP`, at a time, with the ID of a session that it may create; `none` stands for a connection
  -- that goes on as a WebSocket.
  unfoldable pub serve_http : HttpRequest → ℕ → Str → Server → World → Option Served
  unfolding serve_delete serve_body is_web_socket_upgrade
  serve_http r now fresh srv w =
      if str_eq r.method (codes "DELETE")
      then some (serve_delete r srv w)
      else if is_web_socket_upgrade r
      then none
      else if not (str_eq r.method (codes "POST"))
      then some (http_error none (codes "Method not allowed") 405, srv, w)
      else some (serve_post r now fresh srv w r.body)
