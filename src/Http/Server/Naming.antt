-- ===== src/Http/Server/Naming.antt =====
-- The sessions that responses name, and the requests that go on with them:
-- go/jsonrpc3/http_server.go.
use jsonrpc.Base.{
  ℕ, Bool, true, false, not, ◌||◌, Option, none, some, Str, Result, ok, err, str_eq_refl, is_empty,
  codes, str_eq, if_elim, ◌≡◌, refl, sym, ◌∙◌,
}
use mathlib.Core.Path.{subst}
use jsonrpc.Base.Dict.{lookup, lookup-insert}
use jsonrpc.Message.{Request, Response, MessageSet, Batch, BatchResponse}
use jsonrpc.Message.Convert.{to_request, to_batch, response_to_message_set}
use jsonrpc.Mime.{get_codec}
use jsonrpc.Session.{Session, list_local_refs}
use jsonrpc.Env.{Env}
use jsonrpc.Handler.{handle_request, handle_batch}
use jsonrpc.Http.{Wire, HttpRequest, HttpResponse}
use jsonrpc.Http.ClientRefs.{scan_for_client_refs}
use jsonrpc.Http.Server.{
  SessionEntry, Server, Found, get_or_create_session, store_session, accessed, is_nil_list,
}
use jsonrpc.Http.Server.Serving.{
  Served, store_if, stored_id, used, is_protocol_method, data_or_error, write_response,
  answer_or_no_content, finish_single, finish_sse, handle_sse_request, serve_single, answer_batch,
  encode_batch, finish_batch, serve_converted_request, serve_converted_batch, serve_messages,
  serve_body, serve_post, serve_delete, serve_http, is_web_socket_upgrade,
}

-- The session that a header names, if it is set, is in the table.
abbrev pub Backed : Option Str → Server → Type 0
Backed none srv = Unit
Backed (some id) srv = (e : SessionEntry) × (lookup id srv.sessions ≡ some e)

store_session-Backed :
    (id : Str) (e : SessionEntry) (srv : Server) → Backed (some id) (store_session id e srv)
store_session-Backed id e srv = (e, lookup-insert id id e srv.sessions ∙ rw (str_eq_refl id) refl)

store_if-Backed :
    (b : Bool) (id : Str) (e : SessionEntry) (srv : Server)
    → Backed (stored_id b id) (store_if b id e srv)
store_if-Backed true id e srv = store_session-Backed id e srv
store_if-Backed false id e srv = tt

data-session_id :
    (id : Option Str) (ct : Str) (bytes : Result Str) → (data_or_error id ct bytes).session_id ≡ id
data-session_id id ct (ok bytes) = refl
data-session_id id ct (err e) = refl

module _ (wire : Wire) (env : Env) where
  open env use {World}

  -- The session that a response names is in the table behind it.
  abbrev IsBacked : Served wire env → Type 0
  IsBacked o = Backed o.0.session_id o.1

  answer-session_id :
      (id : Option Str) (ct : Str) (resp : Option Response)
      → (answer_or_no_content wire id ct resp).session_id ≡ id
  unfolding write_response
  answer-session_id id ct none = refl
  answer-session_id id ct (some resp) =
      data-session_id id ct (wire.marshal_messages (get_codec ct) (response_to_message_set resp))

  failure-session_id :
      (ct : Str) (resp : Response) (srv : Server)
      → Backed (write_response wire none ct resp).session_id srv
  unfolding write_response
  failure-session_id ct resp srv =
      subst (λ i. Backed i srv)
        (sym (
          data-session_id none ct
            (wire.marshal_messages (get_codec ct) (response_to_message_set resp))))
        tt

  finish_single-IsBacked :
      (ct : Str) (req : Request) (f : Found) (srv : Server) (o : Option Response × Session × World)
      → IsBacked (finish_single wire env ct req f srv o)
  unfolding finish_single
  finish_single-IsBacked ct req f srv (resp, s, w) =
      let stays =
        f.was_existing || (is_protocol_method req || not (is_nil_list (list_local_refs s))) in
      subst (λ i. Backed i (store_if stays f.session_id (used f s) srv))
        (sym (answer-session_id (stored_id stays f.session_id) ct resp))
        (store_if-Backed stays f.session_id (used f s) srv)

  serve_single-IsBacked :
      (can_flush : Bool) (ct : Str) (now : ℕ) (req : Request) (f : Found) (srv : Server) (w : World)
      → IsBacked (serve_single wire env can_flush ct now req f srv w)
  unfolding serve_single handle_sse_request finish_sse
  serve_single-IsBacked can_flush ct now req f srv w =
      if_elim IsBacked (scan_for_client_refs wire req.params) _ _
        (if_elim IsBacked can_flush _ _
          (store_session-Backed f.session_id _ (store_session f.session_id f.entry srv))
          (store_session-Backed f.session_id f.entry srv))
        (finish_single-IsBacked ct req f srv
          (handle_request env f.entry.handler now req f.entry.session w))

  answer_batch-IsBacked :
      (ct : Str) (f : Found) (s : Session) (srv : Server) (w : World) (bytes : Option (Result Str))
      → IsBacked (answer_batch wire env ct f s srv w bytes)
  answer_batch-IsBacked ct f s srv w none = store_if-Backed _ f.session_id (used f s) srv
  answer_batch-IsBacked ct f s srv w (some (ok bytes)) =
      store_if-Backed _ f.session_id (used f s) srv
  answer_batch-IsBacked ct f s srv w (some (err e)) = tt

  finish_batch-IsBacked :
      (ct : Str) (f : Found) (srv : Server) (o : BatchResponse × Session × World)
      → IsBacked (finish_batch wire env ct f srv o)
  unfolding finish_batch
  finish_batch-IsBacked ct f srv (rs, s, w) =
      answer_batch-IsBacked ct f s srv w (encode_batch wire env ct rs)

  request-IsBacked :
      (can_flush : Bool) (ct : Str) (now : ℕ) (f : Found) (srv : Server) (w : World)
      (req : Result Request)
      → IsBacked (serve_converted_request wire env can_flush ct now f srv w req)
  request-IsBacked can_flush ct now f srv w (ok req) =
      serve_single-IsBacked can_flush ct now req f srv w
  request-IsBacked can_flush ct now f srv w (err e) = failure-session_id ct _ srv

  batch-IsBacked :
      (ct : Str) (now : ℕ) (f : Found) (srv : Server) (w : World) (batch : Result Batch)
      → IsBacked (serve_converted_batch wire env ct now f srv w batch)
  batch-IsBacked ct now f srv w (ok batch) =
      finish_batch-IsBacked ct f srv (handle_batch env f.entry.handler now batch f.entry.session w)
  batch-IsBacked ct now f srv w (err e) = failure-session_id ct _ srv

  serve_messages-IsBacked :
      (can_flush : Bool) (ct : Str) (now : ℕ) (f : Found) (srv : Server) (w : World)
      (ms : Result MessageSet)
      → IsBacked (serve_messages wire env can_flush ct now f srv w ms)
  unfolding serve_messages
  serve_messages-IsBacked can_flush ct now f srv w (err e) = failure-session_id ct _ srv
  serve_messages-IsBacked can_flush ct now f srv w (ok ms) =
      if_elim IsBacked ms.is_batch _ _ (batch-IsBacked ct now f srv w (to_batch ms))
        (request-IsBacked can_flush ct now f srv w (to_request ms))

  serve_post-IsBacked :
      (r : HttpRequest) (now : ℕ) (fresh : Str) (srv : Server) (w : World) (body : Option Str)
      → IsBacked (serve_post wire env r now fresh srv w body)
  unfolding serve_body
  serve_post-IsBacked r now fresh srv w none = tt
  serve_post-IsBacked r now fresh srv w (some bytes) =
      let (f, srv') = get_or_create_session r.session_id now fresh srv in
      serve_messages-IsBacked r.can_flush _ now f srv' w _

  abbrev IsBackedIf : Option (Served wire env) → Type 0
  IsBackedIf none = Unit
  IsBackedIf (some o) = IsBacked o

  serve_http-IsBackedIf :
      (r : HttpRequest) (now : ℕ) (fresh : Str) (srv : Server) (w : World)
      → IsBackedIf (serve_http wire env r now fresh srv w)
  unfolding serve_http serve_delete
  serve_http-IsBackedIf r now fresh srv w =
      if_elim IsBackedIf (str_eq r.method (codes "DELETE")) _ _
        (if_elim IsBacked (is_empty r.session_id) _ _ tt tt)
        (if_elim IsBackedIf (is_web_socket_upgrade r) _ _ tt (
          if_elim IsBackedIf (not (str_eq r.method (codes "POST"))) _ _ tt
            (serve_post-IsBacked r now fresh srv w r.body)))

-- When a response names a session that is not empty, that session is stored: a request with that name,
-- at any time but before any other request and before any cleaning of the table, is handled in it, and
-- no new one is made.
pub serve_http-get_or_create_session :
    (wire : Wire) (env : Env) (r : HttpRequest) (now : ℕ) (fresh : Str) (srv srv' : Server)
    (w w' : env.World) (resp : HttpResponse) (id : Str) (now' : ℕ) (fresh' : Str)
    → serve_http wire env r now fresh srv w ≡ some (resp, srv', w')
    → resp.session_id ≡ some id
    → is_empty id ≡ false
    → (e : SessionEntry) × (lookup id srv'.sessions ≡ some e)
      × ((get_or_create_session id now' fresh' srv').0
          ≡ record { entry = accessed now' e; session_id = id; was_existing = true })
unfolding get_or_create_session
serve_http-get_or_create_session wire env r now fresh srv srv' w w' resp id now' fresh' served named
      not_empty =
    let backed =
      subst (IsBackedIf wire env) served (serve_http-IsBackedIf wire env r now fresh srv w) in
    let (e, found) = subst (λ i. Backed i srv') named backed in
    (e, found, rw (not_empty, found) refl)
