-- ===== src/Handler.antt =====
-- The dispatch of requests to objects, single and in batches: go/jsonrpc3/handler.go.
-- A request is handled in one step: what other goroutines do to the session meanwhile is left out.
mod Data
pub mod BatchRef
pub mod Single
pub mod Batches
pub mod Positions
mod Tests
pub use Data.*
use jsonrpc.Base.{
  ℕ, ◌+◌, Bool, true, false, not, Option, none, some, List, [], ◌∷◌, ◌++◌, Str, codes, Result, ok,
  err, is_empty, str_eq, contains, if◌then◌else◌,
}
use jsonrpc.Any.{Any, nil, text, is_nil}
use jsonrpc.Message.{RawMessage, Error, Request, Response, Batch, BatchResponse, is_notification}
use jsonrpc.Message.Errors.{
  new_invalid_request_error, new_method_not_found_error, new_internal_error,
  new_invalid_reference_error, new_reference_not_found_error, code_reference_type_error,
  new_error_response, or_version_30,
}
use jsonrpc.Mime.{Params, json_params, new_params_with_format, get_codec, mime_type_json}
use jsonrpc.Session.{Session, get_local_ref}
use jsonrpc.Walk.{process_result}
use jsonrpc.Env.{CallResult, returned, failed, failed_other, Env}
use jsonrpc.Protocol.{call_protocol}
use jsonrpc.Handler.BatchRef.{is_batch_local_ref, resolve_batch_local_ref, unresolved_error}

-- `Request.GetParams`
unfoldable pub get_params : Request → Params
get_params r =
    if is_empty r.format then json_params r.params else new_params_with_format r.params r.format

-- The format of a response: that of the request, or else JSON.
unfoldable pub response_format : Request → Str
response_format r = if is_empty r.format then mime_type_json else r.format

-- `Handler.errorResponse`
unfoldable pub error_response : Handler → Any → Error → Response
error_response h id e = new_error_response id e h.version

-- What a handled request leads to: the response, if one is sent, and the state after it.
abbrev pub Outcome : Env → Type 0
Outcome env = Option Response × Session × env.World

module _ (env : Env) where
  open env use {World, call_method, marshal, unmarshal_object}

  -- The encoded result of a response: none for a nil result.
  unfoldable pub encode_result : Any → Str → Result RawMessage
  encode_result result mimetype =
      if is_nil result
      then ok none
      else elim (marshal (get_codec mimetype) result) [ ok bytes ↦ ok (some bytes) | err e ↦ err e ]

  -- `NewSuccessResponseWithFormat`
  unfoldable pub new_success_response_with_format : Any → Any → Str → Str → Result Response
  unfolding encode_result
  new_success_response_with_format id result version mimetype =
      elim (encode_result result mimetype) [
        | ok raw ↦
            ok (record { jsonrpc = or_version_30 version; result = raw; error = none; id = id })
        | err e ↦ err (codes "failed to marshal result: " ++ e)
      ]

  -- A success response, or the error that the result cannot be encoded.
  unfoldable pub success_or_error : Handler → Request → Any → Response
  unfolding new_success_response_with_format
  success_or_error h req result =
      elim (new_success_response_with_format req.id result h.version (response_format req)) [
        | ok resp ↦ resp
        | err e ↦
            error_response h req.id
              (new_internal_error (text (codes "failed to marshal result: " ++ e)))
      ]

  -- What follows a call: an error is always answered; a result is answered, with its objects
  -- registered, unless the request is a notification.
  unfoldable pub finish : Handler → Request → CallResult × Session × World → Outcome env
  unfolding success_or_error
  finish h req (failed e, s, w) = (some (error_response h req.id e), s, w)
  finish h req (failed_other e, s, w) =
      (some (error_response h req.id (new_internal_error (text e))), s, w)
  finish h req (returned v, s, w) =
      let (v', s') = process_result v s in
      if is_notification req then (none, s, w) else (some (success_or_error h req v'), s', w)

  -- A call on an object and what follows it, or the error that there is no such object.
  call_on : Handler → Request → Option ℕ → Error → Session → World → Outcome env
  unfolding finish
  call_on h req none e s w = (some (error_response h req.id e), s, w)
  call_on h req (some obj) e s w = finish h req (call_method obj req.method (get_params req) s w)

  -- `handleMethod`
  unfoldable pub handle_method : Handler → Request → Session → World → Outcome env
  unfolding call_on
  handle_method h req s w = call_on h req h.root_object (new_method_not_found_error req.method) s w

  -- `handleRefMethod`
  unfoldable pub handle_ref_method : Handler → Request → Session → World → Outcome env
  unfolding call_on
  handle_ref_method h req s w =
      call_on h req (get_local_ref req.ref s) (new_reference_not_found_error req.ref) s w

  -- `HandleRequest`, at a time `now`.
  unfoldable pub handle_request : Handler → ℕ → Request → Session → World → Outcome env
  unfolding finish handle_method handle_ref_method
  handle_request h now req s w =
      if is_empty req.method
      then (
        some (
            error_response h req.id
              (new_invalid_request_error (text (codes "method is required")))),
        s,
        w,
      )
      else if str_eq req.ref (codes "$rpc")
      then finish h req (call_protocol env h.mime_types now req.method (get_params req) s w)
      else if not (is_empty req.ref)
      then handle_ref_method h req s w
      else handle_method h req s w

  -- A request of a batch whose reference was looked up among the responses before it.
  handle_resolved : Handler → ℕ → Request → Result Str → Session → World → Outcome env
  handle_resolved h now req (err e) s w =
      (some (error_response h req.id (unresolved_error e)), s, w)
  handle_resolved h now req (ok ref) s w = handle_request h now (record req { ref = ref }) s w

  -- One request of a batch, with the responses before it.
  unfoldable pub handle_item :
      Handler → ℕ → ℕ → Request → BatchResponse → Session → World → Outcome env
  unfolding handle_resolved
  handle_item h now i req responses s w =
      if is_batch_local_ref req.ref
      then handle_resolved h now req (resolve_batch_local_ref unmarshal_object req.ref i responses)
          s w
      else handle_request h now req s w

  -- A response, if there is one, behind the others.
  abbrev pub add_response : BatchResponse → Option Response → BatchResponse
  add_response responses none = responses
  add_response responses (some r) = responses ++ r ∷ []

  -- The loop of `HandleBatch` from request `i`.
  unfoldable pub handle_items :
      Handler → ℕ → ℕ → Batch → BatchResponse → Session → World → BatchResponse × Session × World
  handle_items h now i [] responses s w = (responses, s, w)
  handle_items h now i (req ∷ batch) responses s w =
      let (resp, s', w') = handle_item h now i req responses s w in
      handle_items h now (i + 1) batch (add_response responses resp) s' w'

  -- `HandleBatch`
  unfoldable pub handle_batch :
      Handler → ℕ → Batch → Session → World → BatchResponse × Session × World
  unfolding handle_items
  handle_batch h now [] s w =
      (error_response h nil (new_invalid_request_error (text (codes "batch is empty"))) ∷ [], s, w)
  handle_batch h now (req ∷ batch) s w = handle_items h now 0 (req ∷ batch) [] s w
