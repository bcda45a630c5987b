-- ===== src/Batch/Chained.antt =====
-- The references of a built batch: go/jsonrpc3/batch.go and go/jsonrpc3/handler.go.
use jsonrpc.Base.{
  ℕ, zero, suc, ◌+◌, ◌<◌, ◌^◌, some, List, [], ◌∷◌, ◌++◌, Str, ok, length, length-append, get_elem?,
  ◌≡◌, refl, ap, ◌∙◌, sym, arith, All, ◌⊎◌, inl, inr,
}
use mathlib.Core.Path.{subst}
use jsonrpc.Any.{Any}
use jsonrpc.Message.{Request}
use jsonrpc.Handler.BatchRef.{parse_batch_local_ref}
use jsonrpc.Handler.BatchRef.Parse.{batch_local_ref, parse_batch_local_ref-batch_local_ref}
use jsonrpc.Batch.{BatchBuilder, new_batch_builder, builder_call, promise_call}

module _ (id_gen : ℕ → Any) where
  -- What a builder function can make, with the promises that it holds: those that its calls returned.
  pub data Built : List ℕ → BatchBuilder → Type 0 where
    started : Built [] new_batch_builder
    called :
        (method : Str) (params : Any) (held : List ℕ) (b : BatchBuilder)
        → Built held b
        → Built
            ((builder_call id_gen method params b).1 ∷ held)
            (builder_call id_gen method params b).0
    chained :
        (n index : ℕ) (method : Str) (params : Any) (held : List ℕ) (b : BatchBuilder)
        → get_elem? held n ≡ some index
        → Built held b
        → Built
            ((promise_call id_gen index method params b).1 ∷ held)
            (promise_call id_gen index method params b).0

-- The request at a position names no object, or the result of a request before it.
abbrev pub RefersBack : ℕ → Request → Type 0
RefersBack i r = (r.ref ≡ []) ⊎ ((k : ℕ) × (k < i) × (r.ref ≡ batch_local_ref k))

abbrev AllBack : ℕ → List Request → Type 0
AllBack i [] = Unit
AllBack i (r ∷ rs) = RefersBack i r × AllBack (suc i) rs

AllBack-append :
    (i : ℕ) (rs : List Request) (r : Request)
    → AllBack i rs
    → RefersBack (i + length rs) r
    → AllBack i (rs ++ r ∷ [])
AllBack-append i [] r h last = (subst (λ n. RefersBack n r) (omega arith) last, tt)
AllBack-append i (q ∷ rs) r (h, hs) last =
    (h, AllBack-append (suc i) rs r hs (subst (λ n. RefersBack n r) (omega arith) last))

AllBack-get_elem? :
    (i : ℕ) (rs : List Request) (n : ℕ) (r : Request)
    → AllBack i rs
    → get_elem? rs n ≡ some r
    → RefersBack (i + n) r
AllBack-get_elem? i [] n r h e = absurd (cc)
AllBack-get_elem? i (q ∷ rs) zero r (h, hs) e =
    let same : q ≡ r = cc in subst (λ n. RefersBack n r) (omega arith) (subst (RefersBack i) same h)
AllBack-get_elem? i (q ∷ rs) (suc n) r (h, hs) e =
    subst (λ n. RefersBack n r) (omega arith) (AllBack-get_elem? (suc i) rs n r hs e)

module _ (id_gen : ℕ → Any) where
  -- A promise is the position of a request.
  abbrev Within : BatchBuilder → List ℕ → Type 0
  Within b held = All (λ index. index < length b.requests) held

  Within-get_elem? :
      (b : BatchBuilder) (held : List ℕ) (n index : ℕ)
      → Within b held
      → get_elem? held n ≡ some index
      → index < length b.requests
  Within-get_elem? b [] n index h e = absurd (cc)
  Within-get_elem? b (j ∷ held) zero index (h, hs) e =
      let same : j ≡ index = cc in subst (λ i. i < length b.requests) same h
  Within-get_elem? b (j ∷ held) (suc n) index (h, hs) e = Within-get_elem? b held n index hs e

  Within-longer :
      (b : BatchBuilder) (r : Request) (held : List ℕ)
      → Within b held
      → All (λ index. index < length (b.requests ++ r ∷ [])) held
  Within-longer b r [] h = tt
  Within-longer b r (j ∷ held) (h, hs) =
      let longer = length-append b.requests (r ∷ []) in
      (omega (arith, longer, h), Within-longer b r held hs)

  last-Within : (b : BatchBuilder) (r : Request) → length b.requests < length (b.requests ++ r ∷ [])
  last-Within b r = let longer = length-append b.requests (r ∷ []) in omega (arith, longer)

  Built-AllBack :
      (held : List ℕ) (b : BatchBuilder)
      → Built id_gen held b
      → AllBack 0 b.requests × Within b held
  unfolding builder_call promise_call
  Built-AllBack _ _ started = (tt, tt)
  Built-AllBack _ _ (called method params held b built) =
      let (back, within) = Built-AllBack held b built in
      (
        AllBack-append 0 b.requests _ back (inl refl),
        (last-Within b _, Within-longer b _ held within),
      )
  Built-AllBack _ _ (chained n index method params held b there built) =
      let (back, within) = Built-AllBack held b built in
      let before = Within-get_elem? b held n index within there in
      (
        AllBack-append 0 b.requests _ back (inr (index, omega (arith, before), refl)),
        (last-Within b _, Within-longer b _ held within),
      )

  -- In a batch that a builder function can make by calls on the builder and on the promises that its
  -- calls returned, each request refers to no object, or by a batch-local
  -- reference, which parses back to its index, to a request that stands before it: no forward
  -- reference is built. The batch has fewer than 2^64 requests.
  pub Built-backward :
      (held : List ℕ) (b : BatchBuilder)
      → Built id_gen held b
      → length b.requests < 2 ^ 64
      → (i : ℕ) (r : Request) → i < length b.requests
      → get_elem? b.requests i ≡ some r
      → (r.ref ≡ []) ⊎ ((k : ℕ) × (k < i) × (parse_batch_local_ref r.ref ≡ ok k))
  Built-backward held b built small i r within e =
      elim (AllBack-get_elem? 0 b.requests i r (Built-AllBack held b built).0 e) [
        | inl root ↦ inl root
        | inr (k, before, is_ref) ↦ inr (
          k,
          omega (arith, before),
          ap parse_batch_local_ref is_ref
              ∙ parse_batch_local_ref-batch_local_ref k (omega (arith, before, within, small)),
        )
      ]

  -- A built batch has the parameters of each of its requests, and no others.
  pub Built-raw_params :
      (held : List ℕ) (b : BatchBuilder)
      → Built id_gen held b
      → length b.raw_params ≡ length b.requests
  unfolding builder_call promise_call
  Built-raw_params _ _ started = refl
  Built-raw_params _ _ (called method params held b built) =
      let rest = Built-raw_params held b built in
      length-append b.raw_params _ ∙ (ap (λ n. n + 1) rest ∙ sym (length-append b.requests _))
  Built-raw_params _ _ (chained n index method params held b there built) =
      let rest = Built-raw_params held b built in
      length-append b.raw_params _ ∙ (ap (λ n. n + 1) rest ∙ sym (length-append b.requests _))
