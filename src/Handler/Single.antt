-- ===== src/Handler/Single.antt =====
-- One request: what it calls, when it is answered, and what the answer holds.
use jsonrpc.Base.{
  ℕ, true, false, ◌&&◌, Option, none, some, ◌≡◌, refl, arith, ◌∙◌, ap, sym, ◌↔◌, is_some, codes,
  err, is_empty, str_eq, if◌then◌else◌, Bool-cases, Result-cases, inl, inr,
}
use mathlib.Core.Path.{subst}
use jsonrpc.Any.{Any, nil, text}
use jsonrpc.Message.{Error, Request, Response, is_notification, is_response}
use jsonrpc.Message.Convert.{to_response, response_to_message_set}
use jsonrpc.Message.Errors.{
  new_invalid_request_error, new_method_not_found_error, new_reference_not_found_error,
  or_version_30, new_error_response,
}
use jsonrpc.Session.{Session, get_local_ref}
use jsonrpc.Walk.{process_result, walk_value}
use jsonrpc.Env.{CallResult, returned, failed, failed_other, Env}
use jsonrpc.Protocol.{call_protocol}
use jsonrpc.Handler.Data.{Handler}
use jsonrpc.Handler.{
  call_on, handle_request, handle_method, handle_ref_method, finish, get_params, error_response,
  success_or_error, new_success_response_with_format, encode_result, response_format,
}

-- What a response to a request carries: its ID, the handler's version, and never a result beside an
-- error.
abbrev pub Answers : Handler → Request → Response → Type 0
Answers h req resp =
    (resp.id ≡ req.id)
    × (resp.jsonrpc ≡ or_version_30 h.version)
    × ((is_some resp.error && is_some resp.result) ≡ false)

-- A call that returned, rather than failed.
abbrev pub Returns : CallResult → Type 0
Returns (returned v) = Unit
Returns (failed e) = ⊥
Returns (failed_other e) = ⊥

module _ (env : Env) (h : Handler) (now : ℕ) (req : Request) where
  open env use {World, call_method, marshal}

  -- The call of a method on an object, or the error that there is no such object.
  call_or : Option ℕ → Error → Session → World → CallResult × Session × World
  call_or none e s w = (failed e, s, w)
  call_or (some obj) e s w = call_method obj req.method (get_params req) s w

  -- What a request calls, and on which object: the method is required, `$rpc` is the protocol's, any
  -- other reference must name an object of the session, and no reference means the root object.
  unfoldable pub dispatch : Session → World → CallResult × Session × World
  unfolding call_or
  dispatch s w =
      if is_empty req.method
      then (failed (new_invalid_request_error (text (codes "method is required"))), s, w)
      else if str_eq req.ref (codes "$rpc")
      then call_protocol env h.mime_types now req.method (get_params req) s w
      else if is_empty req.ref
      then call_or h.root_object (new_method_not_found_error req.method) s w
      else call_or (get_local_ref req.ref s) (new_reference_not_found_error req.ref) s w

  call_on-finish :
      (o : Option ℕ) (e : Error) (s : Session) (w : World)
      → call_on env h req o e s w ≡ finish env h req (call_or o e s w)
  unfolding call_on call_or finish
  call_on-finish none e s w = refl
  call_on-finish (some obj) e s w = refl

  -- A request is handled by the call that it asks for, and what follows every call.
  pub handle_request-finish :
      (s : Session) (w : World) → handle_request env h now req s w ≡ finish env h req (dispatch s w)
  unfolding handle_request dispatch handle_ref_method handle_method
  handle_request-finish s w = elim (Bool-cases (is_empty req.method)) [
    | inl e ↦ rw e
    | inr named ↦ rw named (elim (Bool-cases (str_eq req.ref (codes "$rpc"))) [
      | inl e ↦ rw e
      | inr other ↦ rw other (elim (Bool-cases (is_empty req.ref)) [
        | inl top ↦ rw top (call_on-finish h.root_object _ s w)
        | inr ref ↦ rw ref (call_on-finish (get_local_ref req.ref s) _ s w)
      ])
    ])
  ]

  success_or_error-Answers : (v : Any) → Answers h req (success_or_error env h req v)
  unfolding success_or_error error_response new_error_response
  success_or_error-Answers v = elim (Result-cases (encode_result env v (response_format req))) [
    | inl (raw, e) ↦ rw (e, success_or_error, new_success_response_with_format) (refl, refl, refl)
    | inr (m, e) ↦ rw (e, success_or_error, new_success_response_with_format) (refl, refl, refl)
  ]

  some_eq : {r resp : Response} → Answers h req r → some r ≡ some resp → Answers h req resp
  some_eq {r} {resp} a e = let same : r ≡ resp = cc in subst (Answers h req) same a

  finish-Answers :
      (r : CallResult) (s : Session) (w : World) (resp : Response)
      → (finish env h req (r, s, w)).0 ≡ some resp
      → Answers h req resp
  unfolding finish error_response new_error_response
  finish-Answers (failed e) s w resp a = some_eq (refl, refl, refl) a
  finish-Answers (failed_other e) s w resp a = some_eq (refl, refl, refl) a
  finish-Answers (returned v) s w resp a = elim (Bool-cases (is_notification req)) [
    | inl quiet ↦ absurd (ground arith)
    | inr loud ↦ some_eq (success_or_error-Answers (process_result v s).0) (ground arith)
  ]

  pub handle_request-Answers :
      (s : Session) (w : World) (resp : Response)
      → (handle_request env h now req s w).0 ≡ some resp
      → Answers h req resp
  handle_request-Answers s w resp a =
      let (r, s', w') = dispatch s w in
      finish-Answers r s' w' resp (ap (λ o. o.0) (sym (handle_request-finish s w)) ∙ a)

  finish_silent :
      (r : CallResult) (s : Session) (w : World)
      → ((finish env h req (r, s, w)).0 ≡ none) ↔ ((is_notification req ≡ true) × Returns r)
  unfolding finish
  finish_silent (failed e) s w = (λ p. cc, λ p. absurd p.1)
  finish_silent (failed_other e) s w = (λ p. cc, λ p. absurd p.1)
  finish_silent (returned v) s w = (λ p. (ground arith, tt), λ p. rw p.0)

  -- A request stays unanswered exactly when it is a notification and its call returns: a notification
  -- whose call fails is answered with the error, and every request with an ID is answered.
  pub handle_request_silent :
      (s : Session) (w : World)
      → ((handle_request env h now req s w).0 ≡ none)
        ↔ ((is_notification req ≡ true) × Returns (dispatch s w).0)
  handle_request_silent s w =
      let (r, s', w') = dispatch s w in rw (handle_request-finish s w) (finish_silent r s' w')

  -- The response to a result of nil.
  abbrev nil_response : Response
  nil_response = record {
    jsonrpc = or_version_30 h.version;
    result = none;
    error = none;
    id = req.id;
  }

  finish_nil :
      (r : CallResult) (s : Session) (w : World)
      → is_notification req ≡ false
      → r ≡ returned nil
      → (finish env h req (r, s, w)).0 ≡ some nil_response
  unfolding finish new_success_response_with_format process_result walk_value
  finish_nil (failed e) s w loud p = cc
  finish_nil (failed_other e) s w loud p = cc
  finish_nil (returned v) s w loud p = let same : v ≡ nil = cc in rw (same, loud)

  -- The answer to a request with an ID whose call returns nil holds neither a result nor an error, so its reader does not
  -- know it as a response.
  pub handle_request_nil :
      (s : Session) (w : World)
      → is_notification req ≡ false
      → (dispatch s w).0 ≡ returned nil
      → (resp : Response) × ((handle_request env h now req s w).0 ≡ some resp)
        × (to_response (response_to_message_set resp) ≡ err (codes "message is not a response"))
  unfolding to_response response_to_message_set is_response
  handle_request_nil s w loud e =
      let (r, s', w') = dispatch s w in
      (nil_response, ap (λ o. o.0) (handle_request-finish s w) ∙ finish_nil r s' w' loud e, refl)
