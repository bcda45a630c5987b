-- ===== src/Peer/Matching.antt =====
-- Which response a call of a peer may get: go/jsonrpc3/peer.go.
use jsonrpc.Base.{
  All-append, ℕ, Bool, true, false, ◌≡◌, Option, none, some, List, [], ◌∷◌, ◌++◌, Str, Result, ok,
  err, All, if_elim, refl, sym, ◌∙◌, if◌then◌else◌, Bool-cases, inl, inr, is_some, is_empty,
}
use mathlib.Core.Path.{subst}
use jsonrpc.Any.{Any, deep_equal, is_nil}
use jsonrpc.Any.Equality.{deep_equal_sound}
use jsonrpc.Message.{Request, Response, Message, MessageSet, RawMessage}
use jsonrpc.Message.Convert.{message_to_response}
use jsonrpc.Mime.{Codec}
use jsonrpc.Session.{Session, Traits}
use jsonrpc.Batch.{BatchRequest}
use jsonrpc.Peer.Sending.{
  notify, send_notification, begin_batch, send_batch, make_requests, batch_calls,
}
use jsonrpc.Peer.{
  Peer, Channel, empty, holding, shut, offer, offer_call, shut_channel, shut_calls, listed,
  is_hashable, handle_incoming_response, deliver, notify_pending_request, close_peer, set_error,
  enqueue, register_object, new_peer,
}
use jsonrpc.Peer.Calling.{drop_call, begin_call, send_call, end_call}

-- A channel holds nothing but a response with the ID of its call.
abbrev pub HoldsOwn : Any × Channel → Type 0
HoldsOwn (id, empty) = Unit
HoldsOwn (id, holding r) = r.id ≡ id
HoldsOwn (id, shut) = Unit

abbrev pub IsMatched : Peer → Type 0
IsMatched p = All HoldsOwn p.calls

offer-own :
    (id j : Any) (r : Response) (c : Channel) → r.id ≡ j → HoldsOwn (j, c) → HoldsOwn (j, offer r c)
offer-own id j r empty own h = own
offer-own id j r (holding q) own h = h
offer-own id j r shut own h = tt

offer-HoldsOwn :
    (id j : Any) (r : Response) (ch : Channel)
    → r.id ≡ id
    → HoldsOwn (j, ch)
    → HoldsOwn (j, if deep_equal j id then offer r ch else ch)
offer-HoldsOwn id j r ch own h = elim (Bool-cases (deep_equal j id)) [
  | inl same ↦ rw same (offer-own id j r ch (own ∙ sym (deep_equal_sound j id same)) h)
  | inr other ↦ rw other h
]

offer_call-All :
    (id : Any) (r : Response) (calls : List (Any × Channel))
    → r.id ≡ id
    → All HoldsOwn calls
    → All HoldsOwn (offer_call id r calls)
offer_call-All id r [] own h = tt
offer_call-All id r ((j, ch) ∷ calls) own (h, hs) =
    (offer-HoldsOwn id j r ch own h, offer_call-All id r calls own hs)

drop_call-All :
    (id : Any) (calls : List (Any × Channel))
    → All HoldsOwn calls
    → All HoldsOwn (drop_call id calls)
drop_call-All id [] h = tt
drop_call-All id ((j, ch) ∷ calls) (h, hs) =
    if_elim (All HoldsOwn) (deep_equal j id) (drop_call id calls) ((j, ch) ∷ drop_call id calls)
      (drop_call-All id calls hs) (h, drop_call-All id calls hs)

shut-HoldsOwn :
    (j : Any) (b : Bool) (ch : Channel) → HoldsOwn (j, ch) → HoldsOwn (j, shut_channel b ch)
shut-HoldsOwn j true empty h = tt
shut-HoldsOwn j true (holding r) h = h
shut-HoldsOwn j true shut h = tt
shut-HoldsOwn j false ch h = h

shut_calls-All :
    (ids : List Any) (calls : List (Any × Channel))
    → All HoldsOwn calls
    → All HoldsOwn (shut_calls ids calls)
shut_calls-All ids [] h = tt
shut_calls-All ids ((j, ch) ∷ calls) (h, hs) =
    (shut-HoldsOwn j (listed j ids) ch h, shut_calls-All ids calls hs)

pub All-middle {ℓ κ} :
    {A : Type ℓ} (P : A → Type κ) (before : List A) (x : A) (after : List A)
    → All P (before ++ x ∷ after)
    → P x
All-middle P [] x after (h, hs) = h
All-middle P (y ∷ before) x after (h, hs) = All-middle P before x after hs

pub deliver_waiting :
    (resp : Response) (p : Peer)
    → is_hashable resp.id ≡ true
    → listed resp.id p.pending ≡ true
    → some (record p { calls = offer_call resp.id resp p.calls }) ≡ deliver (some resp) p
unfolding deliver
deliver_waiting resp p key waiting = rw (key, waiting) refl

pub deliver_unknown :
    (resp : Response) (p : Peer)
    → is_hashable resp.id ≡ true
    → listed resp.id p.pending ≡ false
    → some p ≡ deliver (some resp) p
unfolding deliver
deliver_unknown resp p key unknown = rw (key, unknown) refl

pub deliver_unhashable :
    (resp : Response) (p : Peer) → is_hashable resp.id ≡ false → none ≡ deliver (some resp) p
unfolding deliver
deliver_unhashable resp p slice_id = rw slice_id refl

module _ (float_of : ℕ → ℕ) (marshal : Codec → Any → Result Str) (t : Traits) where
  -- What may happen to a peer: its operations, the messages it reads, and the failures of its write
  -- loop, in any order.
  pub data Step : Peer → Peer → Type 0 where
    begins :
        (method : Str) (params : Any) (ref : Option Str) (p : Peer)
        → Step p (begin_call float_of marshal method params ref p).0
    reads : (m : Message) (p q : Peer) → handle_incoming_response m p ≡ some q → Step p q
    unsent : (req : Request) (e : Str) (p : Peer) → Step p (notify_pending_request req e p)
    sends : (ms : MessageSet) (p : Peer) → Step p (enqueue ms p)
    registers :
        (ref : Str) (obj : ℕ) (p : Peer) (s : Session) → Step p (register_object ref obj p s).0
    fails : (e : Str) (p : Peer) → Step p (set_error e p)
    ends : (id : Any) (p : Peer) → Step p (end_call id p)
    notifies :
        (method : Str) (params : Any) (ref : Option Str) (p : Peer)
        → Step p (notify marshal method params ref p).0
    batches : (reqs : List BatchRequest) (p : Peer) → Step p (begin_batch float_of marshal reqs p).0
    closes : (p : Peer) (s : Session) → Step p (close_peer t p s).0

  pub data Steps : Peer → Peer → Type 0 where
    done : (p : Peer) → Steps p p
    next : (p q r : Peer) → Step p q → Steps q r → Steps p r

  send_call-IsMatched :
      (n : ℕ) (method : Str) (ref : Option Str) (raw : Result RawMessage) (p : Peer)
      → IsMatched p
      → IsMatched (send_call float_of n method ref raw p).0
  unfolding send_call enqueue
  send_call-IsMatched n method ref (err e) p h = h
  send_call-IsMatched n method ref (ok raw) p h = elim (Bool-cases p.closed) [
    | inl over ↦ rw over h
    | inr live ↦ rw live (tt, h)
  ]

  begin_call-IsMatched :
      (method : Str) (params : Any) (ref : Option Str) (p : Peer)
      → IsMatched p
      → IsMatched (begin_call float_of marshal method params ref p).0
  unfolding begin_call
  begin_call-IsMatched method params ref p h = elim (Bool-cases (is_some p.conn_err)) [
    | inl broken ↦ rw broken h
    | inr sound ↦ rw sound (send_call-IsMatched _ method ref _ _ h)
  ]

  send_notification-IsMatched :
      (method : Str) (ref : Option Str) (raw : Result RawMessage) (p : Peer)
      → IsMatched p
      → IsMatched (send_notification method ref raw p).0
  unfolding send_notification enqueue
  send_notification-IsMatched method ref (err e) p h = h
  send_notification-IsMatched method ref (ok raw) p h = elim (Bool-cases p.closed) [
    | inl over ↦ rw over h
    | inr live ↦ rw live h
  ]

  batch_calls-All : (reqs : List Request) → All HoldsOwn (batch_calls float_of marshal reqs)
  batch_calls-All [] = tt
  batch_calls-All (r ∷ reqs) = elim (Bool-cases (is_nil r.id)) [
    | inl silent ↦ rw silent (batch_calls-All reqs)
    | inr loud ↦ rw loud (tt, batch_calls-All reqs)
  ]

  send_batch-IsMatched :
      (made : ℕ × Result (List Request)) (p : Peer)
      → IsMatched p
      → IsMatched (send_batch float_of marshal made p).0
  unfolding send_batch enqueue
  send_batch-IsMatched (n, err e) p h = h
  send_batch-IsMatched (n, ok reqs) p h = elim (Bool-cases p.closed) [
    | inl over ↦ rw over h
    | inr live ↦
        rw live
          (All-append HoldsOwn (batch_calls float_of marshal reqs) p.calls (batch_calls-All reqs) h)
  ]

  deliver-IsMatched :
      (resp : Option Response) (p q : Peer) → deliver resp p ≡ some q → IsMatched p → IsMatched q
  unfolding deliver
  deliver-IsMatched none p q e h = let same : p ≡ q = cc in subst IsMatched same h
  deliver-IsMatched (some resp) p q e h = elim (Bool-cases (is_hashable resp.id)) [
    | inr slice_id ↦ let e' = deliver_unhashable resp p slice_id in absurd (cc)
    | inl key ↦ elim (Bool-cases (listed resp.id p.pending)) [
      | inl waiting ↦
          let e' = deliver_waiting resp p key waiting in
          let same : record p { calls = offer_call resp.id resp p.calls } ≡ q = cc in
          subst IsMatched same (offer_call-All resp.id resp p.calls refl h)
      | inr unknown ↦
          let e' = deliver_unknown resp p key unknown in
          let same : p ≡ q = cc in subst IsMatched same h
    ]
  ]

  unsent-IsMatched :
      (req : Request) (e : Str) (p : Peer)
      → IsMatched p
      → IsMatched (notify_pending_request req e p)
  unfolding notify_pending_request
  unsent-IsMatched req e p h =
      if_elim IsMatched (is_nil req.id) p _ h
        (if_elim IsMatched (listed req.id p.pending) _ p (offer_call-All req.id _ p.calls refl h) h)

  close_peer-IsMatched : (p : Peer) (s : Session) → IsMatched p → IsMatched (close_peer t p s).0
  unfolding close_peer
  close_peer-IsMatched p s h = elim (Bool-cases p.closed) [
    | inl over ↦ rw over h
    | inr live ↦ rw live (shut_calls-All p.pending p.calls h)
  ]

  notify-IsMatched :
      (method : Str) (params : Any) (ref : Option Str) (p : Peer)
      → IsMatched p
      → IsMatched (notify marshal method params ref p).0
  unfolding notify
  notify-IsMatched method params ref p h = elim (Bool-cases (is_some p.conn_err)) [
    | inl broken ↦ rw broken h
    | inr sound ↦ rw sound (send_notification-IsMatched method ref _ p h)
  ]

  begin_batch-IsMatched :
      (reqs : List BatchRequest) (p : Peer)
      → IsMatched p
      → IsMatched (begin_batch float_of marshal reqs p).0
  unfolding begin_batch
  begin_batch-IsMatched [] p h = elim (Bool-cases (is_some p.conn_err)) [
    | inl broken ↦ rw broken h
    | inr sound ↦ rw sound h
  ]
  begin_batch-IsMatched (b ∷ bs) p h = elim (Bool-cases (is_some p.conn_err)) [
    | inl broken ↦ rw broken h
    | inr sound ↦
        rw sound (send_batch-IsMatched (make_requests float_of marshal 0 p.next_id (b ∷ bs)) p h)
  ]

  Step-IsMatched : (p q : Peer) → Step p q → IsMatched p → IsMatched q
  unfolding handle_incoming_response enqueue register_object set_error end_call
  Step-IsMatched _ _ (begins method params ref p) h = begin_call-IsMatched method params ref p h
  Step-IsMatched _ _ (reads m p q e) h = deliver-IsMatched (message_to_response m) p q e h
  Step-IsMatched _ _ (unsent req e p) h = unsent-IsMatched req e p h
  Step-IsMatched _ _ (sends ms p) h = if_elim IsMatched p.closed p _ h h
  Step-IsMatched _ _ (registers ref obj p s) h = elim (Bool-cases (is_empty ref)) [
    | inl fresh ↦ rw fresh h
    | inr given ↦ rw given h
  ]
  Step-IsMatched _ _ (fails e p) h = if_elim IsMatched (is_some p.conn_err) p _ h h
  Step-IsMatched _ _ (ends id p) h = drop_call-All id p.calls h
  Step-IsMatched _ _ (notifies method params ref p) h = notify-IsMatched method params ref p h
  Step-IsMatched _ _ (batches reqs p) h = begin_batch-IsMatched reqs p h
  Step-IsMatched _ _ (closes p s) h = close_peer-IsMatched p s h

  pub Steps-IsMatched : (p q : Peer) → Steps p q → IsMatched p → IsMatched q
  Steps-IsMatched _ _ (done p) h = h
  Steps-IsMatched _ _ (next p q r one more) h = Steps-IsMatched q r more (Step-IsMatched p q one h)

-- However a new peer's operations, the messages that it reads and the failures of its write loop
-- follow each other, a response that the channel of a call in progress holds has the call's own ID.
pub Steps-own_response :
    (float_of : ℕ → ℕ) (marshal : Codec → Any → Result Str) (t : Traits) (content_type prefix : Str)
    (p : Peer)
    → Steps float_of marshal t (new_peer content_type prefix) p
    → (id : Any) (r : Response) → (before after : List (Any × Channel))
    → p.calls ≡ before ++ (id, holding r) ∷ after
    → r.id ≡ id
unfolding new_peer
Steps-own_response float_of marshal t content_type prefix p steps id r before after e =
    (All-middle HoldsOwn before (id, holding r) after
      (subst (All HoldsOwn) e (Steps-IsMatched float_of marshal t _ p steps tt)))
