-- ===== src/Socket/Refines.antt =====
-- A WebSocket client does what a peer does: go/jsonrpc3/websocket_client.go and peer.go.
use jsonrpc.Base.{
  ℕ, Option, none, some, List, [], ◌∷◌, ◌++◌, Str, codes, ok, ◌≡◌, refl, sym, ap, ◌∙◌, Result-cases,
  Option-cases, inl, inr,
}
use mathlib.Core.Path.{subst}
use jsonrpc.Any.{text}
use jsonrpc.Message.{Request, Message, MessageSet, BatchResponse}
use jsonrpc.Message.Convert.{
  message_to_request, to_batch, response_to_message_set, batch_response_to_message_set,
}
use jsonrpc.Message.Errors.{new_internal_error, new_invalid_request_error}
use jsonrpc.Session.{Session}
use jsonrpc.Env.{Env}
use jsonrpc.Mime.{Codec, get_codec}
use jsonrpc.Handler.{Handler, Outcome, handle_request, handle_batch}
use jsonrpc.Peer.{
  Peer, Incoming, batch_requests, single_request, responses, invalid_batch, classify,
  error_responses, enqueue_batch, handle_responses,
}
use jsonrpc.Peer.Reading.{
  send_answer, answer_request, handle_incoming_request, handle_incoming_batch, dispatch_incoming,
  receive,
}
use jsonrpc.Peer.Sending.{map_option}
use jsonrpc.Http.{Wire}
use jsonrpc.Socket.Delivery.{dressed, handle_responses-dressed}
use jsonrpc.Socket.Incoming.{
  send_error_for_batch, answered, socket_answer, socket_incoming_request, answered_batch,
  socket_incoming_batch, first_request, with_peer, socket_dispatch, socket_receive,
}
use jsonrpc.Socket.Queueing.{
  Encodes, encoded, encode_after, queue_encoded-encoded, send_errors-encoded,
  queue_responses-encoded,
}

module _ (wire : Wire) (env : Env) (enc : Codec → MessageSet → Str) where
  open env use {World}

  answered-encoded :
      (o : Outcome env) (p : Peer)
      → Encodes wire env enc (send_answer env o p).0
      → answered wire env o (encoded wire env enc p)
        ≡ encode_after wire env enc (send_answer env o p)
  unfolding send_answer
  answered-encoded (none, s, w) p h = refl
  answered-encoded (some r, s, w) p h =
      ap (λ c. (c, s, w)) (queue_encoded-encoded wire env enc (response_to_message_set r) p h)

  socket_answer-encoded :
      (h : Handler) (now : ℕ) (o : Option Request) (p : Peer) (s : Session) (w : World)
      → Encodes wire env enc (answer_request env h now o p s w).0
      → socket_answer wire env h now o (encoded wire env enc p) s w
        ≡ encode_after wire env enc (answer_request env h now o p s w)
  unfolding answer_request
  socket_answer-encoded h now none p s w fits = refl
  socket_answer-encoded h now (some req) p s w fits =
      answered-encoded (handle_request env h now req s w) p fits

  abbrev after_batch : BatchResponse × Session × World → Peer → Peer × Session × World
  after_batch (rs, s, w) p = (enqueue_batch rs p, s, w)

  answered_batch-encoded :
      (ms : MessageSet) (o : BatchResponse × Session × World) (p : Peer)
      → Encodes wire env enc (after_batch o p).0
      → answered_batch wire env ms o (encoded wire env enc p)
        ≡ encode_after wire env enc (after_batch o p)
  unfolding enqueue_batch
  answered_batch-encoded ms ([], s, w) p h = refl
  answered_batch-encoded ms (r ∷ rs, s, w) p h =
      ap (λ c. (c, s, w))
        (queue_responses-encoded wire env enc ms (batch_response_to_message_set (r ∷ rs)) p h)

  incoming_batch-encoded :
      (h : Handler) (now : ℕ) (ms : MessageSet) (p : Peer) (s : Session) (w : World)
      → Encodes wire env enc (handle_incoming_batch env h now ms p s w).0
      → socket_incoming_batch wire env h now ms (encoded wire env enc p) s w
        ≡ encode_after wire env enc (handle_incoming_batch env h now ms p s w)
  unfolding socket_incoming_batch handle_incoming_batch send_error_for_batch
  incoming_batch-encoded h now ms p s w = elim (Result-cases (to_batch ms)) [
    | inl (batch, e) ↦
        rw (e, handle_incoming_batch)
          (λ fits. answered_batch-encoded ms (handle_batch env h now batch s w) p fits)
    | inr (t, e) ↦
        rw (e, handle_incoming_batch)
          (λ fits.
            ap (λ c. (c, s, w))
              (send_errors-encoded wire env enc
                (error_responses ms.messages
                  (new_internal_error (text (codes "failed to parse batch: " ++ t))))
                p fits))
  ]

  abbrev as_after : Session → World → Option Peer → Option (Peer × Session × World)
  as_after s w none = none
  as_after s w (some p) = some (p, s, w)

  with_peer-dressed :
      (p : Peer) (s : Session) (w : World) (o : Option Peer)
      → let kept = map_option (dressed p.content_type p.queue) o in
        with_peer wire env
          (encoded wire env enc p)
          s
          w
          (map_option (dressed p.content_type []) kept)
        ≡ map_option (encode_after wire env enc) (as_after s w kept)
  with_peer-dressed p s w none = refl
  with_peer-dressed p s w (some x) = refl

  with_peer-encoded :
      (ms : List Message) (p : Peer) (s : Session) (w : World)
      → with_peer wire env
          (encoded wire env enc p)
          s
          w
          (handle_responses ms (encoded wire env enc p).peer)
        ≡ map_option (encode_after wire env enc) (as_after s w (handle_responses ms p))
  with_peer-encoded ms p s w =
      ap (with_peer wire env (encoded wire env enc p) s w)
        (handle_responses-dressed p.content_type [] ms p)
      ∙ subst
          (λ o.
            with_peer wire env (encoded wire env enc p) s w
              (map_option (dressed p.content_type []) o)
            ≡ map_option (encode_after wire env enc) (as_after s w o))
          (sym (handle_responses-dressed p.content_type p.queue ms p))
          (with_peer-dressed p s w (handle_responses ms p))

  -- Everything in the queue behind a step is encoded, unless the step panics.
  abbrev pub EncodesAfter : Option (Peer × Session × World) → Type 0
  EncodesAfter none = Unit
  EncodesAfter (some (p, s, w)) = Encodes wire env enc p

  first_request-encoded :
      (h : Handler) (now : ℕ) (ms : MessageSet) (p : Peer) (s : Session) (w : World)
      (xs : List Message)
      → ms.messages ≡ xs
      → EncodesAfter (dispatch_incoming env single_request h now ms p s w)
      → first_request wire env h now ms.messages (encoded wire env enc p) s w
        ≡ map_option
            (encode_after wire env enc)
            (dispatch_incoming env single_request h now ms p s w)
  unfolding dispatch_incoming socket_incoming_request handle_incoming_request
  first_request-encoded h now ms p s w [] e = rw (e, dispatch_incoming) (λ fits. refl)
  first_request-encoded h now ms p s w (m ∷ xs) e =
      rw (e, dispatch_incoming)
        (λ fits. ap (λ x. some x) (socket_answer-encoded h now (message_to_request m) p s w fits))

  dispatch_responses :
      (h : Handler) (now : ℕ) (ms : MessageSet) (p : Peer) (s : Session) (w : World)
      → as_after s w (handle_responses ms.messages p)
        ≡ dispatch_incoming env responses h now ms p s w
  unfolding dispatch_incoming
  dispatch_responses h now ms p s w = elim (Option-cases (handle_responses ms.messages p)) [
    | inl e ↦ rw (e, dispatch_incoming) refl
    | inr (x, e) ↦ rw (e, dispatch_incoming) refl
  ]

  socket_dispatch-encoded :
      (k : Incoming) (h : Handler) (now : ℕ) (ms : MessageSet) (p : Peer) (s : Session) (w : World)
      → EncodesAfter (dispatch_incoming env k h now ms p s w)
      → socket_dispatch wire env k h now ms (encoded wire env enc p) s w
        ≡ map_option (encode_after wire env enc) (dispatch_incoming env k h now ms p s w)
  unfolding dispatch_incoming send_error_for_batch
  socket_dispatch-encoded batch_requests h now ms p s w fits =
      ap (λ x. some x) (incoming_batch-encoded h now ms p s w fits)
  socket_dispatch-encoded single_request h now ms p s w fits =
      first_request-encoded h now ms p s w ms.messages refl fits
  socket_dispatch-encoded responses h now ms p s w fits =
      with_peer-encoded ms.messages p s w
      ∙ ap (map_option (encode_after wire env enc)) (dispatch_responses h now ms p s w)
  socket_dispatch-encoded invalid_batch h now ms p s w fits =
      ap (λ c. some (c, s, w))
        (send_errors-encoded wire env enc
          (error_responses ms.messages
            (new_invalid_request_error (text (codes "mixed requests and responses in batch"))))
          p fits)

  -- If the codec decodes a message, and encodes every message set in the queue of the peer behind it,
  -- then a WebSocket client that stands for a peer does with the message what the peer does with the
  -- message set: the queue holds the encodings of the peer's, and the calls, the session and the
  -- application are the same. Where the peer panics, so does the client.
  pub socket_receive-receive :
      (h : Handler) (now : ℕ) (bytes : Str) (ms : MessageSet) (p : Peer) (s : Session) (w : World)
      → wire.unmarshal_messages (get_codec p.content_type) bytes ≡ ok ms
      → EncodesAfter (receive env h now ms p s w)
      → socket_receive wire env h now bytes (encoded wire env enc p) s w
        ≡ map_option (encode_after wire env enc) (receive env h now ms p s w)
  unfolding socket_receive receive
  socket_receive-receive h now bytes ms p s w decoded fits =
      rw decoded (socket_dispatch-encoded (classify ms) h now ms p s w fits)
