-- ===== src/Stream/Ends.antt =====
-- Two ends of one WebTransport stream: what the write loop of one end writes, the read loop of the other
-- reads, in that order: go/jsonrpc3/webtransport_client.go and webtransport_server.go.
use jsonrpc.Base.{
  ℕ, true, false, Option, none, some, List, [], ◌∷◌, ◌++◌, Str, Result, ok, err, is_empty, ◌≡◌,
  refl, ap, ◌∙◌,
}
use jsonrpc.Message.{
  Request, Response, MessageSet, set_request_format, set_format, is_request, is_response,
}
use jsonrpc.Message.Convert.{
  set_formats, request_to_message_set, response_to_message_set, message_to_request,
  request_of_message, message_of_request, message_of_response, message_to_response,
  response_of_message,
}
use jsonrpc.Message.Convert.RoundTrip.{HasOutcome}
use jsonrpc.Mime.{get_codec}
use jsonrpc.Session.{Session}
use jsonrpc.Env.{Env}
use jsonrpc.Handler.{Handler, handle_request}
use jsonrpc.Peer.{
  Peer, enqueue, classify, deliver, is_hashable, listed, offer_call, responses, handle_responses,
  handle_incoming_response,
}
use jsonrpc.Peer.Reading.{
  receive, dispatch_incoming, handle_incoming_request, answer_request, send_answer,
}
use jsonrpc.Socket.Delivery.{handle_responses-step, responses_from}
use jsonrpc.Http.{Wire}

-- An end: its connection, and its session and application behind it.
abbrev pub End : Env → Type 0
End env = Peer × Session × env.World

module _ (wire : Wire) (env : Env) (h : Handler) (now : ℕ) where
  -- What arrives is decoded and handled; `none` is a panic, or that the read loop ends with an error.
  abbrev pub read_set : Result MessageSet → End env → Option (End env)
  read_set (err e) (p, s, w) = none
  read_set (ok ms) (p, s, w) = receive env h now ms p s w

  abbrev pub carried : Result Str → End env → Option (End env)
  carried (err e) end = none
  carried (ok bytes) (p, s, w) =
      read_set (wire.unmarshal_messages (get_codec p.content_type) bytes) (p, s, w)

  abbrev pub paired : Peer → Option (End env) → Option (Peer × End env)
  paired p none = none
  paired p (some end) = some (p, end)

  -- One item on its way: the first of the sender's queue, encoded, written, read and handled.
  abbrev pub taken : List MessageSet → Peer → End env → Option (Peer × End env)
  taken [] p end = some (p, end)
  taken (ms ∷ rest) p end =
      paired (record p { queue = rest })
        (carried (wire.marshal_messages (get_codec p.content_type) ms) end)

  unfoldable pub pass_one : Peer → End env → Option (Peer × End env)
  pass_one p end = taken p.queue p end

module _ (env : Env) (h : Handler) (now : ℕ) (f : Str) where
  open env use {World}

  read_formatted :
      (req : Request)
      → is_empty req.method ≡ false
      → message_to_request (set_format f (message_of_request req)) ≡ some (set_request_format f req)
  unfolding message_to_request request_of_message message_of_request is_request set_format
      set_request_format
  read_formatted req named = rw named refl

  -- A request that an end reads, in its own format, and answers.
  pub receive-answer :
      (req : Request) (resp : Response) (q : Peer) (s s' : Session) (w w' : World)
      → is_empty req.method ≡ false
      → q.closed ≡ false
      → handle_request env h now (set_request_format f req) s w ≡ (some resp, s', w')
      → receive env h now (set_formats f (request_to_message_set req)) q s w
        ≡ some (record q { queue = q.queue ++ response_to_message_set resp ∷ [] }, s', w')
  unfolding receive dispatch_incoming classify handle_incoming_request answer_request set_formats
      request_to_message_set message_of_request is_request set_format send_answer enqueue
  receive-answer req resp q s s' w w' named is_open handled =
      rw (named, read_formatted req named, handled, is_open) refl

  read_response :
      (resp : Response)
      → HasOutcome resp
      → message_to_response (set_format f (message_of_response resp)) ≡ some resp
  unfolding message_to_response response_of_message message_of_response is_response set_format
  read_response resp outcome = rw outcome refl

  deliver-waiting :
      (resp : Response) (p : Peer)
      → is_hashable resp.id ≡ true
      → listed resp.id p.pending ≡ true
      → deliver (some resp) p ≡ some (record p { calls = offer_call resp.id resp p.calls })
  unfolding deliver
  deliver-waiting resp p key waits = rw (key, waits) refl

  classify-response :
      (resp : Response)
      → HasOutcome resp
      → classify (set_formats f (response_to_message_set resp)) ≡ responses
  unfolding classify set_formats response_to_message_set message_of_response is_request is_response
      set_format
  classify-response resp outcome = rw outcome refl

  one_response :
      (resp : Response) (p : Peer)
      → HasOutcome resp
      → is_hashable resp.id ≡ true
      → listed resp.id p.pending ≡ true
      → handle_responses (set_format f (message_of_response resp) ∷ []) p
        ≡ some (record p { calls = offer_call resp.id resp p.calls })
  unfolding handle_responses handle_incoming_response
  one_response resp p outcome key waits =
      handle_responses-step (set_format f (message_of_response resp)) [] p
      ∙ rw (read_response resp outcome) (ap (responses_from []) (deliver-waiting resp p key waits))

  -- A response with an outcome that an end reads, while a call waits for it.
  pub receive-woken :
      (resp : Response) (p : Peer) (s : Session) (w : World)
      → HasOutcome resp
      → is_hashable resp.id ≡ true
      → listed resp.id p.pending ≡ true
      → receive env h now (set_formats f (response_to_message_set resp)) p s w
        ≡ some (record p { calls = offer_call resp.id resp p.calls }, s, w)
  unfolding receive dispatch_incoming handle_responses handle_incoming_response set_formats
      response_to_message_set
  receive-woken resp p s w outcome key waits =
      rw (classify-response resp outcome, dispatch_incoming)
        (ap (λ o. elim o [ none ↦ none | some p' ↦ some (p', s, w) ])
          (one_response resp p outcome key waits))
