-- ===== src/Handler/Positions.antt =====
-- Which request a batch-local reference means: the responses before a request are numbered, and a
-- notification that stays unanswered shifts the numbers.
use jsonrpc.Base.{
  ℕ, zero, suc, ◌^◌, ◌+◌, ◌≤◌, ◌<◌, true, none, some, List, [], ◌∷◌, map, ◌≡◌, refl, arith, ◌∙◌, ap,
  sym, All, Str, ok, err, length, length-map, get_elem?,
}
use mathlib.Core.Path.{subst}
use jsonrpc.Message.{Request, Response, Batch, BatchResponse}
use jsonrpc.Session.{Session}
use jsonrpc.Env.{Env}
use jsonrpc.Handler.Data.{Handler}
use jsonrpc.Handler.{handle_request, handle_item, handle_items, error_response, add_response}
use jsonrpc.Handler.BatchRef.{
  is_batch_local_ref, resolve_batch_local_ref, unresolved_error, out_of_bounds,
}
use jsonrpc.Handler.BatchRef.Parse.{batch_local_ref}
use jsonrpc.Handler.BatchRef.Resolve.{
  Gives, resolve_batch_local_ref_found, resolve_batch_local_ref_missing,
}
use jsonrpc.Handler.Batches.{HasId, request_ids, response_ids, items-ids}

get_elem?-map :
    {A B : Type 0} (f : A → B) (xs : List A) (k : ℕ) (x : A)
    → get_elem? xs k ≡ some x
    → get_elem? (map f xs) k ≡ some (f x)
get_elem?-map f [] k x h = cc
get_elem?-map f (y ∷ xs) zero x h = let same : y ≡ x = cc in rw same
get_elem?-map f (y ∷ xs) (suc k) x h = get_elem?-map f xs k x h

module _ (env : Env) (h : Handler) (now : ℕ) where
  open env use {World, unmarshal_object}

  batch_local_lem : (k : ℕ) → is_batch_local_ref (batch_local_ref k) ≡ true
  unfolding is_batch_local_ref batch_local_ref
  batch_local_lem k = refl

  item_found :
      (i k : ℕ) (req : Request) (rs : BatchResponse) (resp : Response) (ref : Str) (s : Session)
      (w : World)
      → k < 2 ^ 63
      → k < i
      → req.ref ≡ batch_local_ref k
      → get_elem? rs k ≡ some resp
      → Gives unmarshal_object resp ref
      → handle_item env h now i req rs s w ≡ handle_request env h now (record req { ref = ref }) s w
  unfolding handle_item
  item_found i k req rs resp ref s w small earlier named found gives =
      let relative : is_batch_local_ref req.ref ≡ true =
        ap is_batch_local_ref named ∙ batch_local_lem k in
      let resolved : resolve_batch_local_ref unmarshal_object req.ref i rs ≡ ok ref =
        ap (λ r. resolve_batch_local_ref unmarshal_object r i rs) named
        ∙ resolve_batch_local_ref_found unmarshal_object rs k i resp ref small earlier found
            gives in
      rw (relative, resolved)

  item_lost :
      (i k : ℕ) (req : Request) (rs : BatchResponse) (s : Session) (w : World)
      → k < 2 ^ 63
      → k < i
      → req.ref ≡ batch_local_ref k
      → get_elem? rs k ≡ none
      → handle_item env h now i req rs s w
        ≡ (some (error_response h req.id (unresolved_error (out_of_bounds k))), s, w)
  unfolding handle_item
  item_lost i k req rs s w small earlier named absent =
      let relative : is_batch_local_ref req.ref ≡ true =
        ap is_batch_local_ref named ∙ batch_local_lem k in
      let resolved : resolve_batch_local_ref unmarshal_object req.ref i rs ≡ err (out_of_bounds k) =
        ap (λ r. resolve_batch_local_ref unmarshal_object r i rs) named
        ∙ resolve_batch_local_ref_missing unmarshal_object rs k i small earlier absent in
      rw (relative, resolved)

  -- Behind requests that all have IDs, the response at index `k`, below 2^63, is the one to request
  -- `k`; if it gives
  -- a reference, a request that refers to request `k` is handled with that reference.
  pub handle_item_resolves :
      (before : Batch) (req target : Request) (k : ℕ) (resp : Response) (ref : Str) (s : Session)
      (w : World)
      → All HasId before
      → get_elem? before k ≡ some target
      → k < length before
      → k < 2 ^ 63
      → req.ref ≡ batch_local_ref k
      → get_elem? (handle_items env h now 0 before [] s w).0 k ≡ some resp
      → Gives unmarshal_object resp ref
      → let (rs, s', w') = handle_items env h now 0 before [] s w in
        (resp.id ≡ target.id)
        × (handle_item env h now (length before) req rs s' w'
            ≡ handle_request env h now (record req { ref = ref }) s' w')
  handle_item_resolves before req target k resp ref s w louds there earlier small named found
        gives =
      let (rs, s', w') = handle_items env h now 0 before [] s w in
      let ids : response_ids rs ≡ request_ids before = items-ids env h now before 0 [] s w louds in
      let id : some resp.id ≡ some target.id =
        sym (get_elem?-map (λ r. r.id) rs k resp found)
        ∙ ap (λ l. get_elem? l k) ids
        ∙ get_elem?-map (λ r. r.id) before k target there in
      (cc, item_found (length before) k req rs resp ref s' w' small earlier named found gives)

  beyond : {A : Type 0} (xs : List A) (k : ℕ) → length xs ≤ k → get_elem? xs k ≡ none
  beyond [] k h = refl
  beyond (x ∷ xs) zero h = elim h [ ]
  beyond (x ∷ xs) (suc k) h = beyond xs k (omega arith)

  -- A notification at the head of a batch that stays unanswered shifts the positions: the responses to
  -- the requests behind it, which all have IDs and are fewer than 2^63, stand one place too early, and a
  -- reference to the last of them from the next request is refused as out of bounds, whatever that
  -- request was answered.
  pub handle_item_shifted :
      (note : Request) (louds : Batch) (req : Request) (s s1 : Session) (w w1 : World)
      → handle_item env h now 0 note [] s w ≡ (none, s1, w1)
      → All HasId louds
      → length louds < 2 ^ 63
      → req.ref ≡ batch_local_ref (length louds)
      → let (rs, s', w') = handle_items env h now 0 (note ∷ louds) [] s w in
        (response_ids rs ≡ request_ids louds)
        × (handle_item env h now (length louds + 1) req rs s' w' ≡ (
          some (error_response h req.id (unresolved_error (out_of_bounds (length louds)))),
          s',
          w',
        ))
  unfolding handle_items
  handle_item_shifted note louds req s s1 w w1 silent all_loud small named =
      let behind = handle_items env h now 1 louds [] s1 w1 in
      let (rs, s', w') = behind in
      let ids : response_ids rs ≡ request_ids louds =
        items-ids env h now louds 1 [] s1 w1 all_loud in
      let count : length rs ≡ length louds =
        sym (length-map rs (λ r. r.id)) ∙ ap length ids ∙ length-map louds (λ r. r.id) in
      let first : handle_items env h now 0 (note ∷ louds) [] s w ≡ behind =
        ap (λ o. handle_items env h now 1 louds (add_response env [] o.0) o.1 o.2) silent in
      subst
        (λ r.
          (response_ids r.0 ≡ request_ids louds)
          × (handle_item env h now (length louds + 1) req r.0 r.1 r.2 ≡ (
            some (error_response h req.id (unresolved_error (out_of_bounds (length louds)))),
            r.1,
            r.2,
          )))
        (sym first)
        (
          ids,
          item_lost (length louds + 1) (length louds) req rs s' w' small (omega arith) named
              (beyond rs (length louds) (omega (arith, count))),
        )
