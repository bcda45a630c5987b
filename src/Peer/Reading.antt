-- ===== src/Peer/Reading.antt =====
-- The read loop of go/jsonrpc3/peer.go: what it does with a message set.
use jsonrpc.Base.{
  ℕ, Bool, false, not, append-nil, ◌&&◌, ◌≡◌, Option, none, some, List, [], ◌∷◌, ◌++◌, map, codes,
  ok, err, is_empty, refl, ap, sym, Bool-cases, inl, inr, if◌then◌else◌,
}
use jsonrpc.Any.{Any, text, is_nil}
use jsonrpc.Message.{
  Error, Request, Response, Message, MessageSet, is_request, is_response, is_notification,
  version_30,
}
use jsonrpc.Message.Convert.{
  message_to_request, request_of_message, request_to_message_set, message_of_request,
  message_of_response, to_batch, response_to_message_set,
}
use jsonrpc.Message.Errors.{new_internal_error, new_invalid_request_error, new_error_response}
use jsonrpc.Session.{Session}
use jsonrpc.Env.{Env}
use jsonrpc.Handler.{Handler, Outcome, handle_request, handle_batch}
use jsonrpc.Peer.{
  Peer, Incoming, batch_requests, single_request, responses, invalid_batch, classify,
  error_responses, enqueue, enqueue_batch, handle_responses,
}

module _ (env : Env) where
  open env use {World}

  abbrev After : Type 0
  After = Peer × Session × World

  -- The response of a request goes into the queue, if there is one.
  unfoldable pub send_answer : Outcome env → Peer → After
  send_answer (none, s, w) p = (p, s, w)
  send_answer (some r, s, w) p = (enqueue (response_to_message_set r) p, s, w)

  unfoldable pub answer_request : Handler → ℕ → Option Request → Peer → Session → World → After
  unfolding send_answer
  answer_request h now none p s w = (p, s, w)
  answer_request h now (some req) p s w = send_answer (handle_request env h now req s w) p

  -- `handleIncomingRequest`
  unfoldable pub handle_incoming_request : Handler → ℕ → Message → Peer → Session → World → After
  unfolding answer_request
  handle_incoming_request h now m p s w = answer_request h now (message_to_request m) p s w

  -- `handleIncomingBatch`
  unfoldable pub handle_incoming_batch : Handler → ℕ → MessageSet → Peer → Session → World → After
  handle_incoming_batch h now ms p s w = elim (to_batch ms) [
    | err e ↦ (
      enqueue_batch
          (error_responses ms.messages
            (new_internal_error (text (codes "failed to parse batch: " ++ e))))
          p,
      s,
      w,
    )
    | ok batch ↦ let (rs, s', w') = handle_batch env h now batch s w in (enqueue_batch rs p, s', w')
  ]

  -- The handlers by the kind of the message set; `none` is a panic.
  unfoldable pub dispatch_incoming :
      Incoming → Handler → ℕ → MessageSet → Peer → Session → World → Option After
  unfolding handle_incoming_request handle_incoming_batch
  dispatch_incoming batch_requests h now ms p s w = some (handle_incoming_batch h now ms p s w)
  dispatch_incoming single_request h now ms p s w = elim ms.messages [
    | [] ↦ none
    | m ∷ rest ↦ some (handle_incoming_request h now m p s w)
  ]
  dispatch_incoming responses h now ms p s w = elim (handle_responses ms.messages p) [
    | none ↦ none
    | some p' ↦ some (p', s, w)
  ]
  dispatch_incoming invalid_batch h now ms p s w = some (
    enqueue_batch
        (error_responses ms.messages
          (new_invalid_request_error (text (codes "mixed requests and responses in batch"))))
        p,
    s,
    w,
  )

  -- One round of `readLoop` with a decoded message set.
  unfoldable pub receive : Handler → ℕ → MessageSet → Peer → Session → World → Option After
  unfolding dispatch_incoming
  receive h now ms p s w = dispatch_incoming (classify ms) h now ms p s w

-- A request that asks for an answer.
abbrev pub asks : Message → Bool
asks m = is_request m && not (is_nil m.id)

abbrev pub asking_ids : List Message → List Any
asking_ids [] = []
asking_ids (m ∷ ms) = if asks m then m.id ∷ asking_ids ms else asking_ids ms

abbrev pub refusal : Error → Any → Response
refusal e id = new_error_response id e version_30

-- The refusals are those of the requests with an ID, in their order.
error_responses_lem :
    (ms : List Message) (e : Error) → error_responses ms e ≡ map (refusal e) (asking_ids ms)
unfolding error_responses message_to_request is_notification request_of_message
error_responses_lem [] e = refl
error_responses_lem (m ∷ ms) e =
    let rest = error_responses_lem ms e in
    elim (Bool-cases (is_request m)) [
      | inr other ↦ rw (other, rest) refl
      | inl request ↦ elim (Bool-cases (is_nil m.id)) [
        | inl silent ↦ rw (request, silent, rest) refl
        | inr loud ↦ rw (request, loud, rest) refl
      ]
    ]

module _ (env : Env) (h : Handler) (now : ℕ) where
  open env use {World}

  -- A message set that is neither all requests nor all responses changes neither the session nor the
  -- application: one batch goes into the queue, which refuses each request with an ID, in their order,
  -- as an invalid request.
  pub receive_mixed :
      (ms : MessageSet) (p : Peer) (s : Session) (w : World)
      → classify ms ≡ invalid_batch
      → receive env h now ms p s w
        ≡ some (
          enqueue_batch
              (map
                (refusal (
                  new_invalid_request_error (text (codes "mixed requests and responses in batch"))))
                (asking_ids ms.messages))
              p,
          s,
          w,
        )
  unfolding receive dispatch_incoming
  receive_mixed ms p s w mixed = rw (mixed, error_responses_lem ms.messages _) refl

  -- What a handled request adds to the queue.
  abbrev pub answers : Option Response → List MessageSet
  answers none = []
  answers (some r) = response_to_message_set r ∷ []

  send_answer_lem :
      (o : Outcome env) (p : Peer)
      → p.closed ≡ false
      → send_answer env o p ≡ (record p { queue = p.queue ++ answers o.0 }, o.1, o.2)
  unfolding send_answer enqueue
  send_answer_lem (none, s, w) p is_open =
      ap (λ q. (record p { queue = q }, s, w)) (sym (append-nil p.queue))
  send_answer_lem (some r, s, w) p is_open = rw is_open refl

  read_back :
      (req : Request)
      → is_empty req.method ≡ false
      → message_to_request (message_of_request req) ≡ some (record req { format = [] })
  unfolding message_to_request request_of_message message_of_request is_request
  read_back req named = rw named refl

  -- A single request with a method, read by an open peer, puts the response that its handling gives
  -- into the queue, and nothing if the handling gives none; the session and the application are left
  -- as the handling leaves them.
  pub receive_request :
      (req : Request) (p : Peer) (s : Session) (w : World)
      → is_empty req.method ≡ false
      → p.closed ≡ false
      → receive env h now (request_to_message_set req) p s w ≡ (
          let (resp, s', w') = handle_request env h now (record req { format = [] }) s w in
          some (record p { queue = p.queue ++ answers resp }, s', w'))
  unfolding receive dispatch_incoming classify handle_incoming_request answer_request
      request_to_message_set message_of_request is_request
  receive_request req p s w named is_open =
      rw (named, read_back req named)
        (ap some
          (send_answer_lem (handle_request env h now (record req { format = [] }) s w) p is_open))

  -- A response with neither a result nor an error, which is what a method's nil gives, is read as an
  -- invalid batch and dropped: the peer stays as it is, its calls still waiting.
  pub receive_nil_response :
      (resp : Response) (p : Peer) (s : Session) (w : World)
      → resp.result ≡ none
      → resp.error ≡ none
      → receive env h now (response_to_message_set resp) p s w ≡ some (p, s, w)
  unfolding receive dispatch_incoming classify response_to_message_set message_of_response
      message_to_request error_responses enqueue_batch is_request is_response
  receive_nil_response resp p s w no_result no_error = rw (no_result, no_error) refl
