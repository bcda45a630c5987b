-- ===== src/Handler/Tests.antt =====
-- The theorems on the handler at concrete requests.
use jsonrpc.Base.{
  ℕ, ◌<◌, ◌+◌, ◌^◌, ◌%◌, ◌≡◌, refl, ◌⊎◌, ◌↔◌, arith, Bool, true, false, none, some, List, [], ◌∷◌,
  All, length, codes, Str, ok, err, get_elem?,
}
use jsonrpc.Message.{is_notification}
use jsonrpc.Message.{Response}
use jsonrpc.Samples.{sample_env, sample_handler, make, made, notify, request, id_of, empty_session}
use jsonrpc.Handler.{handle_request, handle_item, handle_items, handle_batch, error_response}
use jsonrpc.Handler.Batches.{handle_batch-ids, response_ids, request_ids}
use jsonrpc.Handler.BatchRef.{
  resolve_batch_local_ref, parse_batch_local_ref, forward, out_of_bounds, unresolved_error,
}
use jsonrpc.Base.Decimal.{IsDigit, value}
use jsonrpc.Handler.BatchRef.Parse.{batch_local_ref}
use jsonrpc.Handler.BatchRef.Resolve.{Gives, resolve_batch_local_ref_sound}
use jsonrpc.Handler.Single.{dispatch, Returns, handle_request_silent}
use jsonrpc.Handler.Positions.{handle_item_resolves, handle_item_shifted}

-- `use` behind `make 1`: a request on the result of request 0.
handle_item_resolves_example :
    let (rs, s', w') =
      handle_items sample_env sample_handler 0 0 (make 1 ∷ []) [] empty_session 0 in
    ((made 1).id ≡ (make 1).id)
    × (handle_item sample_env sample_handler 0 1
          (request (batch_local_ref 0) (codes "use") (id_of 2))
          rs
          s'
          w'
        ≡ handle_request sample_env sample_handler 0
            (request (codes "ref-1") (codes "use") (id_of 2))
            s'
            w')
unfolding is_notification handle_items handle_item jsonrpc.Handler.BatchRef.is_batch_local_ref
    handle_request jsonrpc.Walk.process_result jsonrpc.Walk.walk_value jsonrpc.Walk.register
    jsonrpc.Message.Errors.or_version_30 jsonrpc.Session.generate_ref_id jsonrpc.Session.ref_id
    jsonrpc.Base.Decimal.decimal jsonrpc.Handler.BatchRef.ref_of_result
handle_item_resolves_example =
    handle_item_resolves sample_env sample_handler 0 (make 1 ∷ [])
      (request (batch_local_ref 0) (codes "use") (id_of 2)) (make 1) 0 (made 1) (codes "ref-1")
      empty_session 0 (refl, tt) refl (omega arith) (omega arith) refl refl (refl, refl)

handle_item_shifted_example :
    let (rs, s', w') =
      handle_items sample_env sample_handler 0 0 (notify ∷ make 1 ∷ []) [] empty_session 0 in
    (response_ids rs ≡ request_ids (make 1 ∷ []))
    × (handle_item sample_env sample_handler 0 2
          (request (batch_local_ref 1) (codes "use") (id_of 2))
          rs
          s'
          w'
        ≡ (
          some (error_response sample_handler (id_of 2) (unresolved_error (out_of_bounds 1))),
          s',
          w',
        ))
unfolding handle_items handle_item jsonrpc.Handler.BatchRef.is_batch_local_ref handle_request
    is_notification
handle_item_shifted_example =
    handle_item_shifted sample_env sample_handler 0 notify (make 1 ∷ [])
      (request (batch_local_ref 1) (codes "use") (id_of 2)) empty_session empty_session 0 1 refl
      (refl, tt) (omega arith) refl

handle_batch-ids_example :
    response_ids (handle_batch sample_env sample_handler 0 (make 1 ∷ make 2 ∷ []) empty_session 0).0
    ≡ id_of 1 ∷ id_of 2 ∷ []
unfolding is_notification
handle_batch-ids_example =
    handle_batch-ids sample_env sample_handler 0 (make 1 ∷ make 2 ∷ []) empty_session 0 (λ e. cc)
      (refl, (refl, tt))

handle_request_silent_example :
    ((handle_request sample_env sample_handler 0 notify empty_session 0).0 ≡ none) ↔ (
      (is_notification notify ≡ true)
      × Returns (dispatch sample_env sample_handler 0 notify empty_session 0).0)
handle_request_silent_example =
    handle_request_silent sample_env sample_handler 0 notify empty_session 0

resolve_batch_local_ref_sound_example :
    (digits : Str) × (codes "\\0" ≡ b'\\' ∷ digits)
    × All IsDigit digits
    × (let k = value 0 digits % 2 ^ 64 in
        (k < 1)
        × (k < 2 ^ 63)
        × ((resp : Response) × (get_elem? (made 1 ∷ []) k ≡ some resp)
            × Gives (sample_env.unmarshal_object) resp (codes "ref-1")))
unfolding resolve_batch_local_ref
resolve_batch_local_ref_sound_example =
    resolve_batch_local_ref_sound (sample_env.unmarshal_object) (made 1 ∷ []) (codes "\\0") 1
      (codes "ref-1") refl
