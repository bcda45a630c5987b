-- ===== src/Peer/Numbering/Kept.antt =====
-- The IDs of the calls in progress along the steps of a peer: go/jsonrpc3/peer.go.
use jsonrpc.Base.{
  ℕ, ◌+◌, ◌≤◌, ◌<◌, ◌≡◌, Option, List, [], ◌∷◌, ◌++◌, Str, Result, ok, err, All-append, if_elim,
  refl, sym, Bool-cases, inl, inr, is_some, is_empty, arith,
}
use mathlib.Core.Path.{subst}
use jsonrpc.Any.{Any}
use jsonrpc.Message.{Request, RawMessage}
use jsonrpc.Message.Convert.{message_to_response}
use jsonrpc.Mime.{Codec}
use jsonrpc.Session.{Traits}
use jsonrpc.Batch.{BatchRequest}
use jsonrpc.Peer.Sending.{notify, send_notification, begin_batch, send_batch, batch_calls}
use jsonrpc.Peer.{Peer, handle_incoming_response, set_error, enqueue, register_object, new_peer}
use jsonrpc.Peer.Calling.{begin_call, send_call, call_id}
use jsonrpc.Peer.Matching.{
  Step, begins, reads, unsent, sends, registers, fails, ends, notifies, batches, closes, Steps,
  done, next,
}
use jsonrpc.Peer.Numbering.{
  ids, Distinct, Separate, Among-widen, append-Distinct, Made, make_requests-Made,
}
use jsonrpc.Peer.Numbering.Steady.{
  ids-append, Numbered, Keeps, same_ids, later, Keeps-trans, ends-Keeps, deliver-Keeps,
  unsent-Keeps, close_peer-Keeps, one_more,
}

module _ (float_of : ℕ → ℕ) (bound : ℕ) where
  module _ (apart : Separate float_of bound) where
    send_call-Keeps :
        (method : Str) (ref : Option Str) (raw : Result RawMessage) (p : Peer)
        → Keeps float_of bound p
            (send_call float_of
              (p.next_id + 1)
              method
              ref
              raw
              (record p { next_id = p.next_id + 1 })).0
    unfolding send_call enqueue
    send_call-Keeps method ref (err e) p = later float_of bound p (p.next_id + 1) (omega arith)
    send_call-Keeps method ref (ok raw) p = elim (Bool-cases p.closed) [
      | inl over ↦ rw over (later float_of bound p (p.next_id + 1) (omega arith))
      | inr live ↦
          rw live
            (omega arith, λ fits h. one_more float_of bound p.next_id (ids p.calls) apart fits h)
    ]

    module _ (marshal : Codec → Any → Result Str) where
      begin_call-Keeps :
          (method : Str) (params : Any) (ref : Option Str) (p : Peer)
          → Keeps float_of bound p (begin_call float_of marshal method params ref p).0
      unfolding begin_call
      begin_call-Keeps method params ref p = elim (Bool-cases (is_some p.conn_err)) [
        | inl broken ↦ rw broken (same_ids float_of bound p p.calls refl)
        | inr sound ↦ rw sound (send_call-Keeps method ref _ p)
      ]

      send_notification-Keeps :
          (method : Str) (ref : Option Str) (raw : Result RawMessage) (p : Peer)
          → Keeps float_of bound p (send_notification method ref raw p).0
      unfolding send_notification enqueue
      send_notification-Keeps method ref (err e) p = same_ids float_of bound p p.calls refl
      send_notification-Keeps method ref (ok raw) p = elim (Bool-cases p.closed) [
        | inl over ↦ rw over (same_ids float_of bound p p.calls refl)
        | inr live ↦ rw live (same_ids float_of bound p p.calls refl)
      ]

      notify-Keeps :
          (method : Str) (params : Any) (ref : Option Str) (p : Peer)
          → Keeps float_of bound p (notify marshal method params ref p).0
      unfolding notify
      notify-Keeps method params ref p = elim (Bool-cases (is_some p.conn_err)) [
        | inl broken ↦ rw broken (same_ids float_of bound p p.calls refl)
        | inr sound ↦ rw sound (send_notification-Keeps method ref _ p)
      ]

      -- The calls of a batch in front of the others.
      batch_more :
          (n : ℕ) (reqs : List Request) (p : Peer)
          → Made float_of marshal bound p.next_id (n, ok reqs)
          → n ≤ bound
          → Numbered float_of bound p.next_id (ids p.calls)
          → Numbered float_of bound n (ids (batch_calls float_of marshal reqs ++ p.calls))
      batch_more n reqs p (le, among, made) fits (old, distinct) =
          subst (Numbered float_of bound n)
            (sym (ids-append (batch_calls float_of marshal reqs) p.calls))
            (
              All-append (λ j. (k : ℕ) × (0 < k) × (k ≤ n) × (j ≡ call_id float_of k))
                  (ids (batch_calls float_of marshal reqs)) (ids p.calls)
                  (Among-widen float_of p.next_id n 0 n _ (omega arith) (omega arith) among)
                  (Among-widen float_of 0 p.next_id 0 n _ (omega arith) le old),
              append-Distinct float_of bound p.next_id n _ _ apart fits le among (made fits) old
                  distinct,
            )

      send_batch-Keeps :
          (made : ℕ × Result (List Request)) (p : Peer)
          → Made float_of marshal bound p.next_id made
          → Keeps float_of bound p (send_batch float_of marshal made p).0
      unfolding send_batch enqueue
      send_batch-Keeps (n, err e) p le = later float_of bound p n le
      send_batch-Keeps (n, ok reqs) p made = elim (Bool-cases p.closed) [
        | inl over ↦ rw over (later float_of bound p n made.0)
        | inr live ↦ rw live (made.0, λ fits h. batch_more n reqs p made fits h)
      ]

      begin_batch-Keeps :
          (reqs : List BatchRequest) (p : Peer)
          → Keeps float_of bound p (begin_batch float_of marshal reqs p).0
      unfolding begin_batch
      begin_batch-Keeps [] p = elim (Bool-cases (is_some p.conn_err)) [
        | inl broken ↦ rw broken (same_ids float_of bound p p.calls refl)
        | inr sound ↦ rw sound (same_ids float_of bound p p.calls refl)
      ]
      begin_batch-Keeps (b ∷ bs) p = elim (Bool-cases (is_some p.conn_err)) [
        | inl broken ↦ rw broken (same_ids float_of bound p p.calls refl)
        | inr sound ↦ rw sound (
            send_batch-Keeps _ p
              (make_requests-Made float_of marshal bound 0 p.next_id (b ∷ bs) apart))
      ]

      Step-Keeps :
          (t : Traits) (p q : Peer) → Step float_of marshal t p q → Keeps float_of bound p q
      unfolding handle_incoming_response enqueue register_object set_error
      Step-Keeps t _ _ (begins method params ref p) = begin_call-Keeps method params ref p
      Step-Keeps t _ _ (reads m p q e) = deliver-Keeps float_of bound (message_to_response m) p q e
      Step-Keeps t _ _ (unsent req e p) = unsent-Keeps float_of bound req e p
      Step-Keeps t _ _ (sends ms p) =
          if_elim (Keeps float_of bound p) p.closed p _ (same_ids float_of bound p p.calls refl)
            (same_ids float_of bound p p.calls refl)
      Step-Keeps t _ _ (registers ref obj p s) = elim (Bool-cases (is_empty ref)) [
        | inl fresh ↦ rw fresh (same_ids float_of bound p p.calls refl)
        | inr given ↦ rw given (same_ids float_of bound p p.calls refl)
      ]
      Step-Keeps t _ _ (fails e p) =
          if_elim (Keeps float_of bound p) (is_some p.conn_err) p _
            (same_ids float_of bound p p.calls refl) (same_ids float_of bound p p.calls refl)
      Step-Keeps t _ _ (ends id p) = ends-Keeps float_of bound id p
      Step-Keeps t _ _ (notifies method params ref p) = notify-Keeps method params ref p
      Step-Keeps t _ _ (batches reqs p) = begin_batch-Keeps reqs p
      Step-Keeps t _ _ (closes p s) = close_peer-Keeps float_of bound t p s

      pub Steps-Keeps :
          (t : Traits) (p q : Peer) → Steps float_of marshal t p q → Keeps float_of bound p q
      Steps-Keeps t _ _ (done p) = same_ids float_of bound p p.calls refl
      Steps-Keeps t _ _ (next p q r one more) =
          Keeps-trans float_of bound p q r (Step-Keeps t p q one) (Steps-Keeps t q r more)

-- However a new peer's operations, the messages that it reads and the failures of its write loop
-- follow each other, no two calls in progress have one ID, as long as the floats of the numbers up to
-- the last one that was given out are distinct.
pub Steps-Distinct :
    (float_of : ℕ → ℕ) (marshal : Codec → Any → Result Str) (t : Traits) (content_type prefix : Str)
    (p : Peer)
    → Separate float_of p.next_id
    → Steps float_of marshal t (new_peer content_type prefix) p
    → Distinct (ids p.calls)
unfolding new_peer
Steps-Distinct float_of marshal t content_type prefix p apart steps =
    let (grows, kept) = Steps-Keeps float_of p.next_id apart marshal t _ p steps in
    (kept (omega arith) (tt, tt)).1
