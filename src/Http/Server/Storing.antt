-- ===== src/Http/Server/Storing.antt =====
-- What a request makes of a property of the table of sessions: go/jsonrpc3/http_server.go.
use jsonrpc.Base.{
  ℕ, Bool, true, false, not, Option, none, some, Str, Result, ok, err, str_eq, is_empty, codes,
  if_elim, ◌≡◌,
}
use jsonrpc.Base.Dict.{erase}
use mathlib.Core.Path.{subst}
use jsonrpc.Message.{Request, Response, MessageSet, Batch, BatchResponse}
use jsonrpc.Message.Convert.{to_request, to_batch}
use jsonrpc.Session.{Session}
use jsonrpc.Env.{Env}
use jsonrpc.Handler.{handle_request, handle_batch}
use jsonrpc.Http.{Wire, HttpRequest, HttpResponse}
use jsonrpc.Http.ClientRefs.{scan_for_client_refs}
use jsonrpc.Http.Server.{SessionEntry, Server, Found, get_or_create_session, store_session}
use jsonrpc.Http.Server.Serving.{
  Served, store_if, finish_single, finish_sse, handle_sse_request, serve_single, answer_batch,
  finish_batch, serve_converted_request, serve_converted_batch, serve_messages, serve_body,
  serve_post, serve_delete, serve_http, is_web_socket_upgrade,
}

-- Storing a session under an ID keeps a property.
abbrev pub Stores : (Server → Type 0) → Str → Type 0
Stores P id = (e : SessionEntry) (srv : Server) → P srv → P (store_session id e srv)

store_if-Stores :
    (P : Server → Type 0) (b : Bool) (id : Str) (e : SessionEntry) (srv : Server)
    → Stores P id
    → P srv
    → P (store_if b id e srv)
store_if-Stores P true id e srv stores h = stores e srv h
store_if-Stores P false id e srv stores h = h

module _ (wire : Wire) (env : Env) (P : Server → Type 0) where
  open env use {World}

  -- The property holds of the server behind what was served.
  abbrev Leaves : Served wire env → Type 0
  Leaves o = P o.1

  finish_single-Leaves :
      (ct : Str) (req : Request) (f : Found) (srv : Server) (o : Option Response × Session × World)
      → Stores P f.session_id
      → P srv
      → Leaves (finish_single wire env ct req f srv o)
  unfolding finish_single
  finish_single-Leaves ct req f srv (resp, s, w) stores h =
      store_if-Stores P _ f.session_id _ srv stores h

  handle_sse_request-Leaves :
      (can_flush : Bool) (ct : Str) (now : ℕ) (req : Request) (f : Found) (srv : Server) (w : World)
      → Stores P f.session_id
      → P srv
      → Leaves (handle_sse_request wire env can_flush ct now req f srv w)
  unfolding handle_sse_request finish_sse
  handle_sse_request-Leaves can_flush ct now req f srv w stores h =
      let stored = stores f.entry srv h in
      if_elim Leaves can_flush _ _ (stores _ (store_session f.session_id f.entry srv) stored) stored

  serve_single-Leaves :
      (can_flush : Bool) (ct : Str) (now : ℕ) (req : Request) (f : Found) (srv : Server) (w : World)
      → Stores P f.session_id
      → P srv
      → Leaves (serve_single wire env can_flush ct now req f srv w)
  unfolding serve_single
  serve_single-Leaves can_flush ct now req f srv w stores h =
      if_elim Leaves (scan_for_client_refs wire req.params) _ _
        (handle_sse_request-Leaves can_flush ct now req f srv w stores h)
        (finish_single-Leaves ct req f srv
          (handle_request env f.entry.handler now req f.entry.session w) stores h)

  answer_batch-Leaves :
      (ct : Str) (f : Found) (s : Session) (srv : Server) (w : World) (bytes : Option (Result Str))
      → Stores P f.session_id
      → P srv
      → Leaves (answer_batch wire env ct f s srv w bytes)
  answer_batch-Leaves ct f s srv w none stores h = store_if-Stores P _ f.session_id _ srv stores h
  answer_batch-Leaves ct f s srv w (some (ok bytes)) stores h =
      store_if-Stores P _ f.session_id _ srv stores h
  answer_batch-Leaves ct f s srv w (some (err e)) stores h =
      store_if-Stores P _ f.session_id _ srv stores h

  finish_batch-Leaves :
      (ct : Str) (f : Found) (srv : Server) (o : BatchResponse × Session × World)
      → Stores P f.session_id
      → P srv
      → Leaves (finish_batch wire env ct f srv o)
  unfolding finish_batch
  finish_batch-Leaves ct f srv (rs, s, w) stores h = answer_batch-Leaves ct f s srv w _ stores h

  converted_request-Leaves :
      (can_flush : Bool) (ct : Str) (now : ℕ) (f : Found) (srv : Server) (w : World)
      (req : Result Request)
      → Stores P f.session_id
      → P srv
      → Leaves (serve_converted_request wire env can_flush ct now f srv w req)
  converted_request-Leaves can_flush ct now f srv w (ok req) stores h =
      serve_single-Leaves can_flush ct now req f srv w stores h
  converted_request-Leaves can_flush ct now f srv w (err e) stores h = h

  converted_batch-Leaves :
      (ct : Str) (now : ℕ) (f : Found) (srv : Server) (w : World) (batch : Result Batch)
      → Stores P f.session_id
      → P srv
      → Leaves (serve_converted_batch wire env ct now f srv w batch)
  converted_batch-Leaves ct now f srv w (ok batch) stores h =
      finish_batch-Leaves ct f srv (handle_batch env f.entry.handler now batch f.entry.session w)
        stores h
  converted_batch-Leaves ct now f srv w (err e) stores h = h

  serve_messages-Leaves :
      (can_flush : Bool) (ct : Str) (now : ℕ) (f : Found) (srv : Server) (w : World)
      (ms : Result MessageSet)
      → Stores P f.session_id
      → P srv
      → Leaves (serve_messages wire env can_flush ct now f srv w ms)
  unfolding serve_messages
  serve_messages-Leaves can_flush ct now f srv w (err e) stores h = h
  serve_messages-Leaves can_flush ct now f srv w (ok ms) stores h =
      if_elim Leaves ms.is_batch _ _ (converted_batch-Leaves ct now f srv w (to_batch ms) stores h)
        (converted_request-Leaves can_flush ct now f srv w (to_request ms) stores h)

  -- The property holds before a request and behind the finding of its session, storing that session
  -- keeps it, and so does deleting the one that the request names.
  abbrev pub Fits : HttpRequest → ℕ → Str → Server → Type 0
  Fits r now fresh srv =
      P srv
      × P (get_or_create_session r.session_id now fresh srv).1
      × Stores P (get_or_create_session r.session_id now fresh srv).0.session_id
      × P (record srv { sessions = erase r.session_id srv.sessions })

  serve_post-Leaves :
      (r : HttpRequest) (now : ℕ) (fresh : Str) (srv : Server) (w : World) (body : Option Str)
      → Fits r now fresh srv
      → Leaves (serve_post wire env r now fresh srv w body)
  unfolding serve_body
  serve_post-Leaves r now fresh srv w none (h, found, stores, erased) = h
  serve_post-Leaves r now fresh srv w (some bytes) (h, found, stores, erased) =
      serve_messages-Leaves r.can_flush _ now (get_or_create_session r.session_id now fresh srv).0 _
        w _ stores found

  serve_delete-Leaves :
      (r : HttpRequest) (now : ℕ) (fresh : Str) (srv : Server) (w : World)
      → Fits r now fresh srv
      → Leaves (serve_delete wire env r srv w)
  unfolding serve_delete
  serve_delete-Leaves r now fresh srv w (h, found, stores, erased) =
      if_elim Leaves (is_empty r.session_id) _ _ h erased

  -- Nothing, or a server that the property holds of.
  abbrev LeavesIf : Option (Served wire env) → Type 0
  LeavesIf none = Unit
  LeavesIf (some o) = Leaves o

  serve_http-LeavesIf :
      (r : HttpRequest) (now : ℕ) (fresh : Str) (srv : Server) (w : World)
      → Fits r now fresh srv
      → LeavesIf (serve_http wire env r now fresh srv w)
  unfolding serve_http
  serve_http-LeavesIf r now fresh srv w fits =
      if_elim LeavesIf (str_eq r.method (codes "DELETE")) _ _
        (serve_delete-Leaves r now fresh srv w fits)
        (if_elim LeavesIf (is_web_socket_upgrade r) _ _ tt (
          if_elim LeavesIf (not (str_eq r.method (codes "POST"))) _ _ fits.0
            (serve_post-Leaves r now fresh srv w r.body fits)))

  -- A property that fits a request holds of the table behind it.
  pub serve_http-Leaves :
      (r : HttpRequest) (now : ℕ) (fresh : Str) (srv srv' : Server) (w w' : World)
      (resp : HttpResponse)
      → Fits r now fresh srv
      → serve_http wire env r now fresh srv w ≡ some (resp, srv', w')
      → P srv'
  serve_http-Leaves r now fresh srv srv' w w' resp fits served =
      subst LeavesIf served (serve_http-LeavesIf r now fresh srv w fits)
