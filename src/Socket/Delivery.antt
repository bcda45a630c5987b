-- ===== src/Socket/Delivery.antt =====
-- Delivering responses looks neither at the queue nor at the content type: go/jsonrpc3/peer.go and
-- websocket_client.go.
use jsonrpc.Base.{
  Bool, true, false, not, Option, none, some, List, [], ◌∷◌, Str, if◌then◌else◌, ◌≡◌, refl, sym, ap,
  ◌∙◌, Option-cases, inl, inr,
}
use jsonrpc.Message.{Response, Message, MessageSet}
use jsonrpc.Message.Convert.{message_to_response}
use jsonrpc.Peer.{
  Peer, deliver, listed, offer_call, is_hashable, handle_incoming_response, handle_responses,
}
use jsonrpc.Peer.Sending.{map_option}

-- The peer with another content type and another queue.
abbrev pub dressed : Str → List MessageSet → Peer → Peer
dressed ct q p = record p { content_type = ct; queue = q }

-- Delivering a response looks at neither.
held-dressed :
    (ct : Str) (q : List MessageSet) (b : Bool) (x y : Peer)
    → map_option (dressed ct q) (if b then none else some x)
      ≡ (if b then none else some (dressed ct q x))
held-dressed ct q true x y = refl
held-dressed ct q false x y = refl

deliver-dressed :
    (ct : Str) (q : List MessageSet) (o : Option Response) (p : Peer)
    → deliver o (dressed ct q p) ≡ map_option (dressed ct q) (deliver o p)
unfolding deliver
deliver-dressed ct q none p = refl
deliver-dressed ct q (some r) p = branches (not (is_hashable r.id)) (listed r.id p.pending)
  where
    branches :
        (b l : Bool)
        → (if b
            then none
            else if l
            then some (record (dressed ct q p) { calls = offer_call r.id r p.calls })
            else some (dressed ct q p))
          ≡ map_option (dressed ct q) (
              if b
              then none
              else if l
              then some (record p { calls = offer_call r.id r p.calls })
              else some p)
    branches true l = refl
    branches false true = refl
    branches false false = refl

abbrev pub responses_from : List Message → Option Peer → Option Peer
responses_from ms none = none
responses_from ms (some p) = handle_responses ms p

pub handle_responses-step :
    (m : Message) (ms : List Message) (p : Peer)
    → handle_responses (m ∷ ms) p ≡ responses_from ms (handle_incoming_response m p)
unfolding handle_responses
handle_responses-step m ms p = elim (Option-cases (handle_incoming_response m p)) [
  | inl h ↦ rw (h, handle_responses) refl
  | inr (x, h) ↦ rw (h, handle_responses) refl
]

after_first :
    (ct : Str) (q : List MessageSet) (ms : List Message)
    → ((p : Peer)
        → handle_responses ms (dressed ct q p) ≡ map_option (dressed ct q) (handle_responses ms p))
    → (o : Option Peer)
    → responses_from ms (map_option (dressed ct q) o)
      ≡ map_option (dressed ct q) (responses_from ms o)
after_first ct q ms h none = refl
after_first ct q ms h (some p) = h p

pub handle_responses-dressed :
    (ct : Str) (q : List MessageSet) (ms : List Message) (p : Peer)
    → handle_responses ms (dressed ct q p) ≡ map_option (dressed ct q) (handle_responses ms p)
unfolding handle_responses handle_incoming_response
handle_responses-dressed ct q [] p = refl
handle_responses-dressed ct q (m ∷ ms) p =
    handle_responses-step m ms (dressed ct q p)
    ∙ (ap (responses_from ms) (deliver-dressed ct q (message_to_response m) p)
        ∙ (after_first ct q ms (λ x. handle_responses-dressed ct q ms x)
              (handle_incoming_response m p)
            ∙ ap (map_option (dressed ct q)) (sym (handle_responses-step m ms p))))
