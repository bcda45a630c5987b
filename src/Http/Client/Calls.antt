-- ===== src/Http/Client/Calls.antt =====
-- `Call` and `Notify` of go/jsonrpc3/http_client.go.
use jsonrpc.Base.{
  ℕ, not, ◌==◌, Option, none, some, List, [], ◌∷◌, ◌++◌, Str, codes, starts_with, Result, ok, err,
  length, if◌then◌else◌,
}
use jsonrpc.Base.Decimal.{decimal}
use jsonrpc.Any.{Any}
use jsonrpc.Message.{
  RawMessage, Request, Response, Error, Message, MessageSet, is_message_notification, is_response,
}
use jsonrpc.Message.Convert.{message_to_request, message_to_response, request_to_message_set}
use jsonrpc.Mime.{Codec, get_codec}
use jsonrpc.Session.{Session}
use jsonrpc.Env.{Env}
use jsonrpc.Handler.{Handler, handle_request}
use jsonrpc.Peer.Calling.{encode_params, call_request}
use jsonrpc.Http.{Wire}
use jsonrpc.Http.EventStream.{Events, done, too_long, event, events, split_lines}
use jsonrpc.Http.Client.{
  HttpClient, HttpReply, Attempt, finished, rejected, generate_id, should_fallback, reject,
  status_error, formats, do_request, try_formats,
}

-- How a call ends: with an encoded value and the codec for it, with nil, with the error of the
-- response, or with the text of another error.
pub data HttpOutcome : Type 0 where
  value : Codec → Str → HttpOutcome
  nil_value : HttpOutcome
  rpc_error : Error → HttpOutcome
  call_error : Str → HttpOutcome

abbrev result_outcome : Codec → RawMessage → HttpOutcome
result_outcome codec none = nil_value
result_outcome codec (some bytes) = value codec bytes

-- The outcome of a response.
abbrev pub outcome_of : Codec → Option Error → RawMessage → HttpOutcome
outcome_of codec (some e) raw = rpc_error e
outcome_of codec none raw = result_outcome codec raw

-- The content type of a client that a format worked for.
abbrev pub settle : Str → HttpClient → HttpClient
settle format c = record c { content_type = format }

-- The handler of a client's session: it has no root object.
abbrev callback_handler : Handler
callback_handler = record { root_object = none; version = []; mime_types = [] }

abbrev as_response : Option Response → Result Response
as_response none = err (codes "invalid response message")
as_response (some r) = ok r

-- A single response, from a message set that was decoded.
unfoldable pub one_response : List Message → Result Response
one_response (m ∷ []) = as_response (message_to_response m)
one_response ms =
    err (codes "expected single response, got " ++ (decimal (length ms) ++ codes " messages"))

module _ (wire : Wire) (env : Env) where
  open env use {World, marshal}

  -- The notification of an event is handled in the client's session, if there is one.
  abbrev notified : ℕ → Option Request → Option Session × World → Option Session × World
  notified now (some req) (some s, w) =
      let (resp, s', w') = handle_request env callback_handler now req s w in (some s', w')
  notified now req st = st

  -- What the events lead to. A response ends them.
  abbrev event_outcome :
      ℕ
      → Codec
      → List Message
      → Option Session × World
      → (Option Session × World → HttpOutcome × Option Session × World)
      → HttpOutcome × Option Session × World
  event_outcome now codec [] st go = go st
  event_outcome now codec (m ∷ ms) st go =
      let rest = go (notified now (message_to_request m) st) in
      let skipped = go st in
      if is_message_notification m
      then rest
      else if is_response m
      then (outcome_of codec m.error m.result, st.0, st.1)
      else skipped

  abbrev decoded_event : Result MessageSet → List Message
  decoded_event (ok ms) = ms.messages
  decoded_event (err e) = []

  -- `handleSSEResponse`, on the events of the body.
  unfoldable pub handle_events :
      ℕ → Codec → Events → Option Session × World → HttpOutcome × Option Session × World
  handle_events now codec done st =
      (call_error (codes "no final result received in SSE stream"), st.0, st.1)
  handle_events now codec too_long st =
      (call_error (codes "error reading SSE stream: bufio.Scanner: token too long"), st.0, st.1)
  handle_events now codec (event bytes rest) st =
      event_outcome now codec (decoded_event (wire.unmarshal_messages codec bytes)) st
        (λ st'. handle_events now codec rest st')

  -- The request of an attempt, encoded.
  abbrev encode_message : Codec → Result MessageSet → Result Str
  encode_message codec (err e) = err e
  encode_message codec (ok ms) = elim (wire.marshal_messages codec ms) [
    | ok bytes ↦ ok bytes
    | err e ↦ err (codes "failed to encode request: " ++ e)
  ]

  abbrev request_message : Str → Option Str → Any → Result RawMessage → Result MessageSet
  request_message method ref id (err e) = err (codes "failed to create request: " ++ e)
  request_message method ref id (ok raw) =
      ok (request_to_message_set (call_request method ref raw id))

  unfoldable pub encode_call : Str → Any → Option Str → Any → Str → Result Str
  encode_call method params ref id format =
      encode_message (get_codec format)
        (request_message method ref id (encode_params marshal (get_codec format) params))

  -- A reply of one response: only this one settles the format.
  abbrev pub settled : Str → HttpClient → Result Response → HttpOutcome × HttpClient
  settled format c (err e) = (call_error e, c)
  settled format c (ok r) = (outcome_of (get_codec format) r.error r.result, settle format c)

  abbrev pub read_decoded : Str → HttpClient → Result MessageSet → HttpOutcome × HttpClient
  read_decoded format c (err e) = (call_error (codes "failed to decode response: " ++ e), c)
  read_decoded format c (ok ms) = settled format c (one_response ms.messages)

  abbrev pub read_single : Str → HttpClient → Option Str → HttpOutcome × HttpClient
  read_single format c none = (call_error (codes "failed to read response"), c)
  read_single format c (some bytes) =
      read_decoded format c (wire.unmarshal_messages (get_codec format) bytes)

  -- A reply that is an event stream: the session may change, and the application.
  abbrev pub read_stream :
      ℕ → Str → HttpClient → World → Option Str → HttpOutcome × HttpClient × World
  read_stream now format c w none = (call_error (codes "error reading SSE stream"), c, w)
  read_stream now format c w (some bytes) =
      let (o, s, w') =
        handle_events now (get_codec format) (events [] (split_lines bytes)) (c.session, w) in
      (o, record c { session = s }, w')

  -- What an attempt makes of a reply.
  unfoldable pub read_reply :
      ℕ → Str → HttpReply → HttpClient → World → Attempt HttpOutcome × HttpClient × World
  unfolding handle_events one_response
  read_reply now format r c w =
      let (stream, c1, w1) = read_stream now format c w r.body in
      let (single, c2) = read_single format c r.body in
      if should_fallback r.status
      then (rejected (reject format r.status), c, w)
      else if not (r.status == 200)
      then (finished (call_error (status_error r)), c, w)
      else if starts_with r.content_type (codes "text/event-stream")
      then (finished stream, c1, w1)
      else (finished single, c2, w)

module _ (wire : Wire) (env : Env) (Net : Type 0)
    (send : Str → Str → Str → Net → Result HttpReply × Net) where
  open env use {World, marshal}

  abbrev State : Type 0
  State = World × Net

  abbrev pub replied :
      ℕ
      → Str
      → World
      → Result HttpReply × HttpClient × Net
      → Attempt HttpOutcome × HttpClient × State
  replied now format w (err e, c, n) = (rejected e, c, (w, n))
  replied now format w (ok r, c, n) =
      let (a, c', w') = read_reply wire env now format r c w in (a, c', (w', n))

  abbrev pub posted :
      ℕ → Str → HttpClient → State → Result Str → Attempt HttpOutcome × HttpClient × State
  posted now format c st (err e) = (finished (call_error e), c, st)
  posted now format c (w, n) (ok bytes) =
      replied now format w (do_request Net send now bytes format c n)

  -- One attempt of `Call`, in a format.
  unfoldable pub attempt_call :
      ℕ
      → Str
      → Any
      → Option Str
      → Str
      → HttpClient
      → State
      → Attempt HttpOutcome × HttpClient × State
  unfolding encode_call read_reply do_request
  attempt_call now method params ref format c st =
      let (c1, id) = generate_id c in
      posted now format c1 st (encode_call wire env method params ref id format)

  -- `Call`
  unfoldable pub call_http :
      ℕ → Str → Any → Option Str → HttpClient → State → HttpOutcome × HttpClient × State
  unfolding attempt_call try_formats
  call_http now method params ref c st =
      try_formats (attempt_call now method params ref) call_error (formats c) [] c st
