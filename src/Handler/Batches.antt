-- ===== src/Handler/Batches.antt =====
-- Batches: the order of the responses, and what a batch-local reference is resolved against.
use jsonrpc.Base.{
  ℕ, ◌+◌, ◌≤◌, false, Option, none, some, List, [], ◌∷◌, ◌++◌, map, append-nil, append_assoc, ◌≡◌,
  refl, ◌≢◌, arith, ◌∙◌, ap, sym, All, length, length-append, Option-cases, Bool-cases,
  Result-cases, inl, inr,
}
use mathlib.Core.List.{map-append}
use jsonrpc.Any.{Any}
use jsonrpc.Message.{Request, Response, Batch, BatchResponse, is_notification}
use jsonrpc.Message.Errors.{new_error_response}
use jsonrpc.Session.{Session}
use jsonrpc.Env.{Env}
use jsonrpc.Handler.Data.{Handler}
use jsonrpc.Handler.{
  handle_request, handle_item, handle_items, handle_batch, add_response, error_response, Outcome,
}
use jsonrpc.Handler.BatchRef.{is_batch_local_ref, resolve_batch_local_ref}
use jsonrpc.Handler.Single.{handle_request-Answers, handle_request_silent}

-- A request that asks for an answer.
abbrev pub HasId : Request → Type 0
HasId r = is_notification r ≡ false

abbrev pub request_ids : Batch → List Any
request_ids = map (λ r. r.id)

abbrev pub response_ids : BatchResponse → List Any
response_ids = map (λ r. r.id)

module _ (env : Env) (h : Handler) (now : ℕ) where
  open env use {World, unmarshal_object}

  -- The outcome is a response with a given ID.
  abbrev pub Answered : Any → Outcome env → Type 0
  Answered id o = (resp : Response) × (o.0 ≡ some resp) × (resp.id ≡ id)

  request-Answered :
      (req : Request) (s : Session) (w : World)
      → HasId req
      → Answered req.id (handle_request env h now req s w)
  request-Answered req s w loud = elim (Option-cases (handle_request env h now req s w).0) [
    | inl silent ↦
        let (quiet, r) = (handle_request_silent env h now req s w).0 silent in absurd (cc)
    | inr (resp, e) ↦ (resp, e, (handle_request-Answers env h now req s w resp e).0)
  ]

  item-Answered :
      (i : ℕ) (req : Request) (rs : BatchResponse) (s : Session) (w : World)
      → HasId req
      → Answered req.id (handle_item env h now i req rs s w)
  unfolding handle_item is_notification error_response new_error_response
  item-Answered i req rs s w loud = elim (Bool-cases (is_batch_local_ref req.ref)) [
    | inr plain ↦ rw plain (request-Answered req s w loud)
    | inl relative ↦
        rw relative (elim (Result-cases (resolve_batch_local_ref unmarshal_object req.ref i rs)) [
          | inl (ref, e) ↦ rw e (request-Answered (record req { ref = ref }) s w loud)
          | inr (m, e) ↦ rw e (_, refl, refl)
        ])
  ]

  pub items-ids :
      (batch : Batch) (i : ℕ) (rs : BatchResponse) (s : Session) (w : World)
      → All HasId batch
      → response_ids (handle_items env h now i batch rs s w).0
        ≡ response_ids rs ++ request_ids batch
  unfolding handle_items
  items-ids [] i rs s w loud = sym (append-nil _)
  items-ids (req ∷ batch) i rs s w (loud, louds) =
      let (resp, e, id) = item-Answered i req rs s w loud in
      let (o, s', w') = handle_item env h now i req rs s w in
      let added : response_ids (add_response env rs o) ≡ response_ids rs ++ req.id ∷ [] =
        rw e (map-append _ rs (resp ∷ []) ∙ rw id) in
      items-ids batch (i + 1) (add_response env rs o) s' w' louds
      ∙ rw added (append_assoc (response_ids rs) (req.id ∷ []) (request_ids batch))

  -- A batch of requests, one at least, that all have IDs is answered by one response for each, in their order.
  pub handle_batch-ids :
      (batch : Batch) (s : Session) (w : World)
      → batch ≢ []
      → All HasId batch
      → response_ids (handle_batch env h now batch s w).0 ≡ request_ids batch
  unfolding handle_batch
  handle_batch-ids [] s w some_requests louds = absurd (some_requests refl)
  handle_batch-ids (req ∷ batch) s w some_requests louds = items-ids (req ∷ batch) 0 [] s w louds

  length-add_response :
      (rs : BatchResponse) (o : Option Response) → length (add_response env rs o) ≤ length rs + 1
  length-add_response rs none = omega arith
  length-add_response rs (some r) = omega (arith, length-append rs (r ∷ []))

  length-handle_items :
      (batch : Batch) (i : ℕ) (rs : BatchResponse) (s : Session) (w : World)
      → length (handle_items env h now i batch rs s w).0 ≤ length rs + length batch
  unfolding handle_items
  length-handle_items [] i rs s w = omega arith
  length-handle_items (req ∷ batch) i rs s w =
      let (o, s', w') = handle_item env h now i req rs s w in
      omega (
        arith,
        length-handle_items batch (i + 1) (add_response env rs o) s' w',
        length-add_response rs o,
      )

  -- The requests of a batch are handled one behind the other: a batch in two parts leaves off where
  -- its first part does.
  pub handle_items-append :
      (batch rest : Batch) (i : ℕ) (rs : BatchResponse) (s : Session) (w : World)
      → handle_items env h now i (batch ++ rest) rs s w ≡ (
          let (rs', s', w') = handle_items env h now i batch rs s w in
          handle_items env h now (i + length batch) rest rs' s' w')
  unfolding handle_items
  handle_items-append [] rest i rs s w =
      ap (λ k. handle_items env h now k rest rs s w) (omega arith)
  handle_items-append (req ∷ batch) rest i rs s w =
      let (o, s', w') = handle_item env h now i req rs s w in
      handle_items-append batch rest (i + 1) (add_response env rs o) s' w'
      ∙ ap
          (λ k.
            let (rs2, s2, w2) =
              handle_items env h now (i + 1) batch (add_response env rs o) s' w' in
            handle_items env h now k rest rs2 s2 w2)
          (omega arith)
