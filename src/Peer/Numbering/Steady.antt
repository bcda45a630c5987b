-- ===== src/Peer/Numbering/Steady.antt =====
-- What the changes of a peer's calls do to their IDs: go/jsonrpc3/peer.go.
use jsonrpc.Base.{
  ℕ, ◌+◌, ◌≤◌, ◌≡◌, ◌≢◌, Option, none, some, List, [], ◌∷◌, ◌++◌, Str, All, if_elim, refl, sym, ap,
  Bool-cases, inl, inr, arith,
}
use mathlib.Core.Path.{subst}
use jsonrpc.Any.{Any, deep_equal, is_nil}
use jsonrpc.Message.{Request, Response}
use jsonrpc.Session.{Session, Traits}
use jsonrpc.Peer.{
  Peer, Channel, offer_call, shut_calls, listed, is_hashable, deliver, notify_pending_request,
  close_peer,
}
use jsonrpc.Peer.Calling.{drop_call, end_call, call_id}
use jsonrpc.Peer.Matching.{deliver_waiting, deliver_unknown, deliver_unhashable}
use jsonrpc.Peer.Numbering.{ids, Distinct, Among, Separate, Among-widen, Among-other}

ids-offer_call :
    (id : Any) (r : Response) (calls : List (Any × Channel))
    → ids (offer_call id r calls) ≡ ids calls
ids-offer_call id r [] = refl
ids-offer_call id r ((j, ch) ∷ calls) = ap (λ js. j ∷ js) (ids-offer_call id r calls)

ids-shut_calls :
    (js : List Any) (calls : List (Any × Channel)) → ids (shut_calls js calls) ≡ ids calls
ids-shut_calls js [] = refl
ids-shut_calls js ((j, ch) ∷ calls) = ap (λ ks. j ∷ ks) (ids-shut_calls js calls)

pub ids-append : (xs ys : List (Any × Channel)) → ids (xs ++ ys) ≡ ids xs ++ ids ys
ids-append [] ys = refl
ids-append ((j, ch) ∷ xs) ys = ap (λ js. j ∷ js) (ids-append xs ys)

drop_call-All {ℓ} :
    (P : Any → Type ℓ) (id : Any) (calls : List (Any × Channel))
    → All P (ids calls)
    → All P (ids (drop_call id calls))
drop_call-All P id [] h = tt
drop_call-All P id ((j, ch) ∷ calls) (h, hs) =
    if_elim (λ cs. All P (ids cs)) (deep_equal j id) (drop_call id calls)
      ((j, ch) ∷ drop_call id calls) (drop_call-All P id calls hs) (h, drop_call-All P id calls hs)

drop_call-Distinct :
    (id : Any) (calls : List (Any × Channel))
    → Distinct (ids calls)
    → Distinct (ids (drop_call id calls))
drop_call-Distinct id [] h = tt
drop_call-Distinct id ((j, ch) ∷ calls) (first, h) =
    if_elim (λ cs. Distinct (ids cs)) (deep_equal j id) (drop_call id calls)
      ((j, ch) ∷ drop_call id calls) (drop_call-Distinct id calls h)
      (drop_call-All (λ i. i ≢ j) id calls first, drop_call-Distinct id calls h)

module _ (float_of : ℕ → ℕ) (bound : ℕ) where
  -- The IDs of calls are those of numbers up to one, and distinct.
  abbrev pub Numbered : ℕ → List Any → Type 0
  Numbered n js = Among float_of 0 n js × Distinct js

  -- A peer counts on, and keeps the IDs of its calls numbered while it counts up to the bound.
  abbrev pub Keeps : Peer → Peer → Type 0
  Keeps p q =
      (p.next_id ≤ q.next_id)
      × (q.next_id ≤ bound → Numbered p.next_id (ids p.calls) → Numbered q.next_id (ids q.calls))

  -- A change of the channels.
  pub same_ids :
      (p : Peer) (calls : List (Any × Channel))
      → ids calls ≡ ids p.calls
      → (p.next_id ≤ p.next_id)
        × (p.next_id ≤ bound → Numbered p.next_id (ids p.calls) → Numbered p.next_id (ids calls))
  same_ids p calls js = (omega arith, λ fits h. subst (Numbered p.next_id) (sym js) h)

  -- A change that leaves the calls alone.
  pub later :
      (p : Peer) (n : ℕ)
      → p.next_id ≤ n
      → (p.next_id ≤ n) × (n ≤ bound → Numbered p.next_id (ids p.calls) → Numbered n (ids p.calls))
  later p n le =
      (le, λ fits h. (Among-widen float_of 0 p.next_id 0 n (ids p.calls) (omega arith) le h.0, h.1))

  pub Keeps-trans : (p q r : Peer) → Keeps p q → Keeps q r → Keeps p r
  Keeps-trans p q r (le, f) (le', g) = (omega arith, λ fits h. g fits (f (omega arith) h))

  pub ends-Keeps : (id : Any) (p : Peer) → Keeps p (end_call id p)
  unfolding end_call
  ends-Keeps id p = (
    omega arith,
    λ fits (among, distinct).
        (drop_call-All _ id p.calls among, drop_call-Distinct id p.calls distinct),
  )

  pub deliver-Keeps : (resp : Option Response) (p q : Peer) → deliver resp p ≡ some q → Keeps p q
  unfolding deliver
  deliver-Keeps none p q e = let same : p ≡ q = cc in subst (Keeps p) same (same_ids p p.calls refl)
  deliver-Keeps (some resp) p q e = elim (Bool-cases (is_hashable resp.id)) [
    | inr slice_id ↦ let e' = deliver_unhashable resp p slice_id in absurd (cc)
    | inl key ↦ elim (Bool-cases (listed resp.id p.pending)) [
      | inl waiting ↦
          let e' = deliver_waiting resp p key waiting in
          let same : record p { calls = offer_call resp.id resp p.calls } ≡ q = cc in
          subst (Keeps p) same
            (same_ids p (offer_call resp.id resp p.calls) (ids-offer_call resp.id resp p.calls))
      | inr unknown ↦
          let e' = deliver_unknown resp p key unknown in
          let same : p ≡ q = cc in subst (Keeps p) same (same_ids p p.calls refl)
    ]
  ]

  pub unsent-Keeps : (req : Request) (e : Str) (p : Peer) → Keeps p (notify_pending_request req e p)
  unfolding notify_pending_request
  unsent-Keeps req e p = if_elim (Keeps p) (is_nil req.id) p _ (same_ids p p.calls refl) (
      if_elim (Keeps p) (listed req.id p.pending) _ p
        (same_ids p (offer_call req.id _ p.calls) (ids-offer_call req.id _ p.calls))
        (same_ids p p.calls refl))

  pub close_peer-Keeps : (t : Traits) (p : Peer) (s : Session) → Keeps p (close_peer t p s).0
  unfolding close_peer
  close_peer-Keeps t p s = elim (Bool-cases p.closed) [
    | inl over ↦ rw over (same_ids p p.calls refl)
    | inr live ↦
        rw live (same_ids p (shut_calls p.pending p.calls) (ids-shut_calls p.pending p.calls))
  ]

  -- A call in front of the others, with the next ID.
  pub one_more :
      (n : ℕ) (js : List Any)
      → Separate float_of bound
      → n + 1 ≤ bound
      → Numbered n js
      → Numbered (n + 1) (call_id float_of (n + 1) ∷ js)
  one_more n js apart fits (among, distinct) = (
    (
      (n + 1, omega arith, omega arith, refl),
      Among-widen float_of 0 n 0 (n + 1) js (omega arith) (omega arith) among,
    ),
    (
      Among-other float_of bound 0 n (n + 1) js apart (omega arith) fits (inr (omega arith)) among,
      distinct,
    ),
  )
