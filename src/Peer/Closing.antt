-- ===== src/Peer/Closing.antt =====
-- The end of a peer of go/jsonrpc3/peer.go, and what ends it too early.
use jsonrpc.Base.{
  true, false, ◌≡◌, none, List, [], ◌∷◌, ◌++◌, Str, refl, ap, ◌∙◌, Bool-cases, inl, inr, is_some,
}
use jsonrpc.Any.{Any, ElemType, Items, slice}
use jsonrpc.Message.{Message, is_response}
use jsonrpc.Message.Convert.{message_to_response, response_of_message}
use jsonrpc.Session.{Session, Traits}
use jsonrpc.Peer.{
  Peer, Channel, empty, shut, panics, shut_channel, shut_calls, listed, deliver,
  handle_incoming_response, close_peer, set_error, is_hashable,
}
use jsonrpc.Peer.Calling.{Wakes, by_shut}

-- Closing a closed peer does nothing: neither the peer nor the session changes, and no object is
-- cleaned up twice.
pub close_peer_twice :
    (t : Traits) (p : Peer) (s : Session)
    → let (p', s', _) = close_peer t p s in close_peer t p' s' ≡ (p', s', [])
unfolding close_peer
close_peer_twice t p s = elim (Bool-cases p.closed) [
  | inl over ↦ rw over refl
  | inr live ↦ rw live refl
]

-- The channel of a call is among those of a peer's calls.
shut_calls_middle :
    (ids : List Any) (before : List (Any × Channel)) (id : Any) (ch : Channel)
    (after : List (Any × Channel))
    → shut_calls ids (before ++ (id, ch) ∷ after)
      ≡ shut_calls ids before ++ (id, shut_channel (listed id ids) ch) ∷ shut_calls ids after
shut_calls_middle ids [] id ch after = refl
shut_calls_middle ids (c ∷ before) id ch after =
    ap (λ cs. (c.0, shut_channel (listed c.0 ids) c.1) ∷ cs)
      (shut_calls_middle ids before id ch after)

close_open :
    (t : Traits) (p : Peer) (s : Session)
    → p.closed ≡ false
    → (close_peer t p s).0
      ≡ record p { closed = true; calls = shut_calls p.pending p.calls; pending = [] }
unfolding close_peer
close_open t p s live = elim (Bool-cases p.closed) [
  | inl over ↦ absurd (cc)
  | inr open_ ↦ rw live refl
]

-- When an open peer is closed while a call waits without a response, the call's channel is closed, and
-- the call may then wake up by a nil response, which it dereferences: it panics.
pub close_peer_panics :
    (t : Traits) (p : Peer) (s : Session) (id : Any) (before after : List (Any × Channel))
    → p.closed ≡ false
    → listed id p.pending ≡ true
    → p.calls ≡ before ++ (id, empty) ∷ after
    → let p' = (close_peer t p s).0 in
      (p'.calls ≡ shut_calls p.pending before ++ (id, shut) ∷ shut_calls p.pending after)
      × Wakes p' shut panics
close_peer_panics t p s id before after live waiting e = (
  ap (λ q. q.calls) (close_open t p s live)
      ∙ (ap (shut_calls p.pending) e
          ∙ (shut_calls_middle p.pending before id empty after
              ∙ ap
                  (λ b.
                    shut_calls p.pending before
                    ++ (id, shut_channel b empty) ∷ shut_calls p.pending after)
                  waiting)),
  by_shut,
)

-- The first error of a connection stays, whatever errors follow.
pub set_error_first : (p : Peer) (e e' : Str) → set_error e' (set_error e p) ≡ set_error e p
unfolding set_error
set_error_first p e e' = elim (Bool-cases (is_some p.conn_err)) [
  | inl broken ↦ rw (broken, broken) refl
  | inr sound ↦ rw sound refl
]

-- A response message whose ID is an array makes the reader panic.
pub handle_incoming_response_slice :
    (m : Message) (p : Peer) (t : ElemType) (xs : Items)
    → is_response m ≡ true
    → m.id ≡ slice t xs
    → handle_incoming_response m p ≡ none
unfolding handle_incoming_response deliver message_to_response response_of_message is_hashable
handle_incoming_response_slice m p t xs answer e = rw (answer, e) refl
