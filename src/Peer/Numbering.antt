-- ===== src/Peer/Numbering.antt =====
-- The IDs of the calls in progress of a peer, the floats of the numbers of its counter:
-- go/jsonrpc3/peer.go.
mod Steady
pub mod Kept
use jsonrpc.Base.{
  ℕ, ◌+◌, ◌≤◌, ◌<◌, true, false, Bool, List, [], ◌∷◌, ◌++◌, map, Result, ok, err, All, All-append,
  ◌≡◌, ◌≢◌, refl, sym, ap, ◌∙◌, Bool-cases, inl, inr, ◌⊎◌, arith, if◌then◌else◌, Str,
}
use mathlib.Core.Path.{subst}
use jsonrpc.Any.{Any, number, float64, nil, deep_equal}
use jsonrpc.Message.{Request, RawMessage}
use jsonrpc.Mime.{Codec, get_codec, mime_type_json}
use jsonrpc.Batch.{BatchRequest}
use jsonrpc.Peer.{Channel, empty, offer_call, shut_calls, listed, shut_channel, offer}
use jsonrpc.Peer.Calling.{call_id, drop_call, encode_params}
use jsonrpc.Peer.Sending.{make_requests, batch_calls, add_request, next_number, next_call_id}
use jsonrpc.Message.{Response}

abbrev pub ids : List (Any × Channel) → List Any
ids calls = map (λ c. c.0) calls

abbrev pub Distinct : List Any → Type 0
Distinct [] = Unit
Distinct (id ∷ rest) = All (λ j. j ≢ id) rest × Distinct rest

module _ (float_of : ℕ → ℕ) where
  -- The IDs of the calls behind the m-th up to the n-th.
  abbrev pub Among : ℕ → ℕ → List Any → Type 0
  Among m n js = All (λ j. (k : ℕ) × (m < k) × (k ≤ n) × (j ≡ call_id float_of k)) js

  -- The floats of the numbers up to one are distinct.
  abbrev pub Separate : ℕ → Type 0
  Separate bound = (i j : ℕ) → i ≤ bound → j ≤ bound → float_of i ≡ float_of j → i ≡ j

  pub Among-widen :
      (m n m' n' : ℕ) (js : List Any) → m' ≤ m → n ≤ n' → Among m n js → Among m' n' js
  Among-widen m n m' n' [] lo hi h = tt
  Among-widen m n m' n' (j ∷ js) lo hi ((k, above, below, same), hs) =
      ((k, omega arith, omega arith, same), Among-widen m n m' n' js lo hi hs)

  call_id-injective : (i j : ℕ) → call_id float_of i ≡ call_id float_of j → float_of i ≡ float_of j
  call_id-injective i j h = cc

  -- A later ID is not among earlier ones, nor an earlier one among later ones.
  pub Among-other :
      (bound m n k : ℕ) (js : List Any)
      → Separate bound
      → n ≤ bound
      → k ≤ bound
      → (k ≤ m) ⊎ (n < k)
      → Among m n js
      → All (λ j. j ≢ call_id float_of k) js
  Among-other bound m n k [] apart fits small outside h = tt
  Among-other bound m n k (j ∷ js) apart fits small outside ((i, above, below, same), hs) = (
    λ e.
        absurd
          (ground (arith, apart i k (omega arith) small (call_id-injective i k (sym same ∙ e)))),
    Among-other bound m n k js apart fits small outside hs,
  )

  pub append-Distinct :
      (bound m n : ℕ) (new old : List Any)
      → Separate bound
      → n ≤ bound
      → m ≤ n
      → Among m n new
      → Distinct new
      → Among 0 m old
      → Distinct old
      → Distinct (new ++ old)
  append-Distinct bound m n [] old apart fits le h d k e = e
  append-Distinct bound m n (j ∷ new) old apart fits le ((i, above, below, same), hs) (first, d) k
        e =
      (
        All-append (λ x. x ≢ j) new old first
            (subst (λ y. All (λ x. x ≢ y) old) (sym same)
              (Among-other bound 0 m i old apart (omega arith) (omega arith) (inr above) k)),
        append-Distinct bound m n new old apart fits le hs d k e,
      )

  module _ (marshal : Codec → Any → Result Str) where
    -- What the loop over the requests of a batch gives, behind the n-th ID.
    abbrev pub Made : ℕ → ℕ → ℕ × Result (List Request) → Type 0
    Made bound n (n', err e) = n ≤ n'
    Made bound n (n', ok reqs) =
        (n ≤ n')
        × Among n n' (ids (batch_calls float_of marshal reqs))
        × (n' ≤ bound → Distinct (ids (batch_calls float_of marshal reqs)))

    added-Made :
        (bound n : ℕ) (b : BatchRequest) (silent : Bool) (raw : Result RawMessage)
        (rest : ℕ × Result (List Request))
        → Separate bound
        → Made bound (next_number float_of marshal silent n) rest
        → Made bound n (
            add_request float_of marshal b
              (next_call_id float_of marshal silent n)
              raw
              (next_number float_of marshal silent n)
              rest)
    added-Made bound n b true (err e) rest apart h = omega arith
    added-Made bound n b false (err e) rest apart h = omega arith
    added-Made bound n b true (ok raw) (n', err e) apart h = h
    added-Made bound n b false (ok raw) (n', err e) apart h = omega arith
    added-Made bound n b true (ok raw) (n', ok reqs) apart h = h
    added-Made bound n b false (ok raw) (n', ok reqs) apart (le, among, distinct) = (
      omega arith,
      (
        (n + 1, omega arith, le, refl),
        Among-widen (n + 1) n' n n' _ (omega arith) (omega arith) among,
      ),
      λ fits. (
        Among-other bound (n + 1) n' (n + 1) _ apart fits (omega arith) (inl (omega arith)) among,
        distinct fits,
      ),
    )

    pub make_requests-Made :
        (bound i n : ℕ) (bs : List BatchRequest)
        → Separate bound
        → Made bound n (make_requests float_of marshal i n bs)
    unfolding make_requests
    make_requests-Made bound i n [] apart = (omega arith, tt, λ fits. tt)
    make_requests-Made bound i n (b ∷ bs) apart =
        added-Made bound n b b.is_notification _ _ apart
          (make_requests-Made bound (i + 1) _ bs apart)
