-- ===== src/Http/EndToEnd.antt =====
-- A client and a server over HTTP: go/jsonrpc3/http_client.go and http_server.go.
pub mod Answering
pub mod Asking
use jsonrpc.Base.{
  if◌then◌else◌, ℕ, Bool, true, false, not, ◌||◌, Option, none, some, [], Str, codes, starts_with,
  is_empty, Result, ok, err, ◌≡◌, refl, ap, ◌∙◌,
}
use jsonrpc.Any.{Any}
use jsonrpc.Message.{
  RawMessage, Request, Response, MessageSet, set_format, set_request_format, is_response,
}
use jsonrpc.Message.Convert.{
  set_formats, request_to_message_set, response_to_message_set, message_to_response,
  message_of_response, response_of_message,
}
use jsonrpc.Message.Convert.RoundTrip.{HasOutcome, to_request-request_to_message_set}
use jsonrpc.Mime.{Codec, get_codec, codec_mime_type}
use jsonrpc.Session.{Session, list_local_refs}
use jsonrpc.Env.{Env}
use jsonrpc.Handler.{handle_request}
use jsonrpc.Peer.Calling.{encode_params, call_request}
use jsonrpc.Http.{Wire, HttpRequest, HttpResponse}
use jsonrpc.Http.ClientRefs.{scan_for_client_refs}
use jsonrpc.Http.Server.{
  Server, Found, get_or_create_session, is_nil_list, SessionEntry, store_session,
}
use jsonrpc.Http.Server.Serving.{
  Served, serve_http, serve_body, serve_messages, serve_single, finish_single, write_response,
  write_data, is_web_socket_upgrade, stored_id, store_if, used, is_protocol_method,
}
use jsonrpc.Http.Client.{
  HttpClient, HttpReply, client_session_id, do_request, try_formats, Attempt, finished, generate_id,
  name_session,
}
use jsonrpc.Http.Client.Calls.{
  HttpOutcome, outcome_of, settle, call_http, attempt_call, encode_call, read_reply, one_response,
}

-- What the encoder makes of a message set, and that the decoder reads it back, marked with the format.
abbrev pub Recovers : Wire → Codec → MessageSet → Str → Type 0
Recovers wire codec ms bytes =
    (wire.marshal_messages codec ms ≡ ok bytes)
    × (wire.unmarshal_messages codec bytes ≡ ok (set_formats (codec_mime_type codec) ms))

-- What the encoder makes of one message set, and that the decoder reads it as another, marked with the
-- format: a codec may change the kind of a number that is an ID.
abbrev pub Carries : Wire → Codec → MessageSet → MessageSet → Str → Type 0
Carries wire codec ms arrived bytes =
    (wire.marshal_messages codec ms ≡ ok bytes)
    × (wire.unmarshal_messages codec bytes ≡ ok (set_formats (codec_mime_type codec) arrived))

-- A POST, as the client makes it.
abbrev pub post : Str → Str → Str → HttpRequest
post bytes content_type id = record {
  method = codes "POST";
  content_type = content_type;
  session_id = id;
  connection = [];
  upgrade = [];
  body = some bytes;
  can_flush = true;
}

abbrev header_text : Option Str → Str
header_text none = []
header_text (some s) = s

abbrev pub reply_of : HttpResponse → HttpReply
reply_of r = record {
  status = r.status;
  content_type = r.content_type;
  session_id = header_text r.session_id;
  body = some r.body;
}

-- Whether the session of a single request is in the table behind it.
abbrev pub stays_behind : Found → Request → Session → Bool
stays_behind f req s =
    f.was_existing || (is_protocol_method req || not (is_nil_list (list_local_refs s)))

-- The table behind a single request.
abbrev pub behind : Found → Request → Session → Server → Server
behind f req s srv = if stays_behind f req s then store_session f.session_id (used f s) srv else srv

module _ (wire : Wire) (env : Env) (now : ℕ) (fresh : Str) where
  open env use {World}

  abbrev pub sent : Server × World → Option (Served wire env) → Result HttpReply × (Server × World)
  sent n none = (err (codes "upgraded"), n)
  sent n (some (resp, srv, w)) = (ok (reply_of resp), (srv, w))

  -- The network that leads straight to the server.
  unfoldable pub to_server : Str → Str → Str → Server × World → Result HttpReply × (Server × World)
  to_server bytes content_type id (srv, w) =
      sent (srv, w) (serve_http wire env (post bytes content_type id) now fresh srv w)
