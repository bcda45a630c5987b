-- ===== src/Peer/Collecting.antt =====
-- Which responses a batch of calls gets: go/jsonrpc3/peer.go.
use jsonrpc.Base.{ℕ, ◌≡◌, Option, none, some, List, [], ◌∷◌, Str, Result, All, Bool-cases, inl, inr}
use mathlib.Core.Path.{subst}
use jsonrpc.Any.{Any, deep_equal, is_nil}
use jsonrpc.Any.Equality.{deep_equal_sound}
use jsonrpc.Message.{Request, Response}
use jsonrpc.Mime.{Codec}
use jsonrpc.Session.{Traits}
use jsonrpc.Peer.{Peer, Channel, empty, holding, shut, new_peer}
use jsonrpc.Peer.Sending.{collect, channel_of, add_received, map_option}
use jsonrpc.Peer.Matching.{HoldsOwn, Steps, Steps-IsMatched}

-- One place for each request, in order: empty, or with a response that has the request's ID.
abbrev pub Corresponds : List Request → List (Option Response) → Type 0
Corresponds [] [] = Unit
Corresponds [] (q ∷ qs) = ⊥
Corresponds (r ∷ rs) [] = ⊥
Corresponds (r ∷ rs) (none ∷ qs) = Corresponds rs qs
Corresponds (r ∷ rs) (some resp ∷ qs) = (resp.id ≡ r.id) × Corresponds rs qs

-- What the places behind the first give, if there are any.
abbrev AllCorrespond : List Request → Option (List (Option Response)) → Type 0
AllCorrespond rs none = Unit
AllCorrespond rs (some qs) = Corresponds rs qs

-- A channel that holds nothing but a response with an ID.
abbrev HoldsId : Any → Option Channel → Type 0
HoldsId id none = Unit
HoldsId id (some ch) = HoldsOwn (id, ch)

channel_of-HoldsId :
    (id : Any) (calls : List (Any × Channel))
    → All HoldsOwn calls
    → HoldsId id (channel_of id calls)
channel_of-HoldsId id [] h = tt
channel_of-HoldsId id ((j, ch) ∷ calls) (h, hs) = elim (Bool-cases (deep_equal j id)) [
  | inl same ↦ rw same (subst (λ i. HoldsOwn (i, ch)) (deep_equal_sound j id same) h)
  | inr other ↦ rw other (channel_of-HoldsId id calls hs)
]

skip-AllCorrespond :
    (r : Request) (rs : List Request) (rest : Option (List (Option Response)))
    → AllCorrespond rs rest
    → AllCorrespond (r ∷ rs) (map_option (λ qs. none ∷ qs) rest)
skip-AllCorrespond r rs none h = tt
skip-AllCorrespond r rs (some qs) h = h

received-AllCorrespond :
    (r : Request) (rs : List Request) (ch : Option Channel) (rest : Option (List (Option Response)))
    → HoldsId r.id ch
    → AllCorrespond rs rest
    → AllCorrespond (r ∷ rs) (add_received ch rest)
received-AllCorrespond r rs none rest own h = tt
received-AllCorrespond r rs (some empty) rest own h = tt
received-AllCorrespond r rs (some shut) rest own h = skip-AllCorrespond r rs rest h
received-AllCorrespond r rs (some (holding resp)) none own h = tt
received-AllCorrespond r rs (some (holding resp)) (some qs) own h = (own, h)

collect-AllCorrespond :
    (reqs : List Request) (calls : List (Any × Channel))
    → All HoldsOwn calls
    → AllCorrespond reqs (collect reqs calls)
unfolding collect
collect-AllCorrespond [] calls h = tt
collect-AllCorrespond (r ∷ rs) calls h = elim (Bool-cases (is_nil r.id)) [
  | inl silent ↦
      rw silent (skip-AllCorrespond r rs (collect rs calls) (collect-AllCorrespond rs calls h))
  | inr loud ↦ rw loud (
      received-AllCorrespond r rs (channel_of r.id calls) (collect rs calls)
        (channel_of-HoldsId r.id calls h) (collect-AllCorrespond rs calls h))
]

-- Whatever happened to a peer since it was new, the responses that a batch of requests collects have
-- one place for each request, in order, and a response in a place has the ID of the request there.
pub collect-Corresponds :
    (float_of : ℕ → ℕ) (marshal : Codec → Any → Result Str) (t : Traits) (content_type prefix : Str)
    (p : Peer)
    → Steps float_of marshal t (new_peer content_type prefix) p
    → (reqs : List Request) (responses : List (Option Response))
    → collect reqs p.calls ≡ some responses
    → Corresponds reqs responses
unfolding new_peer
collect-Corresponds float_of marshal t content_type prefix p steps reqs responses e =
    subst (AllCorrespond reqs) e
      (collect-AllCorrespond reqs p.calls (Steps-IsMatched float_of marshal t _ p steps tt))
