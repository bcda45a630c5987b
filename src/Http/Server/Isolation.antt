-- ===== src/Http/Server/Isolation.antt =====
-- Which sessions of the table a request may change: go/jsonrpc3/http_server.go.
use jsonrpc.Base.{
  ℕ, Option, none, some, Str, str_eq-false, is_empty, if◌then◌else◌, ◌≡◌, ◌≢◌, refl, sym, ◌∙◌,
}
use jsonrpc.Base.Dict.{lookup, lookup-insert, lookup-erase}
use jsonrpc.Env.{Env}
use jsonrpc.Http.{Wire, HttpRequest, HttpResponse}
use jsonrpc.Http.Server.{SessionEntry, Server, get_or_create_session, found_or_new, store_session}
use jsonrpc.Http.Server.Storing.{serve_http-Leaves}
use jsonrpc.Http.Server.Serving.{serve_http}

-- The session of an ID is in the table what it was.
abbrev pub Same : Str → Server → Server → Type 0
Same j srv srv' = lookup j srv'.sessions ≡ lookup j srv.sessions

insert-Same :
    (j id : Str) (e : SessionEntry) (srv : Server) → j ≢ id → Same j srv (store_session id e srv)
insert-Same j id e srv other =
    lookup-insert id j e srv.sessions ∙ rw (str_eq-false id j (λ p. other (sym p))) refl

found-Same :
    (j id fresh : Str) (now : ℕ) (srv : Server) (o : Option SessionEntry)
    → j ≢ id
    → Same j srv (found_or_new now fresh id srv o).1
found-Same j id fresh now srv none other = refl
found-Same j id fresh now srv (some e) other = insert-Same j id _ srv other

found-session_id :
    (j id fresh : Str) (now : ℕ) (srv : Server) (o : Option SessionEntry)
    → j ≢ id
    → j ≢ fresh
    → j ≢ (found_or_new now fresh id srv o).0.session_id
found-session_id j id fresh now srv none other new_one = new_one
found-session_id j id fresh now srv (some e) other new_one = other

get_or_create_session-Same :
    (j id fresh : Str) (now : ℕ) (srv : Server)
    → j ≢ id
    → j ≢ fresh
    → let (f, srv') = get_or_create_session id now fresh srv in Same j srv srv' × (j ≢ f.session_id)
unfolding get_or_create_session
get_or_create_session-Same j id fresh now srv other new_one =
    let entry = if is_empty id then none else lookup id srv.sessions in
    (
      found-Same j id fresh now srv entry other,
      found-session_id j id fresh now srv entry other new_one,
    )

-- A request, of any method and with any body, changes no session but the one that its header names
-- and the one that is created for it: every other one is in the table what it was.
pub serve_http-Same :
    (wire : Wire) (env : Env) (r : HttpRequest) (now : ℕ) (fresh : Str) (srv srv' : Server)
    (w w' : env.World) (resp : HttpResponse) (j : Str)
    → serve_http wire env r now fresh srv w ≡ some (resp, srv', w')
    → j ≢ r.session_id
    → j ≢ fresh
    → lookup j srv'.sessions ≡ lookup j srv.sessions
serve_http-Same wire env r now fresh srv srv' w w' resp j served other new_one =
    let (found, elsewhere) =
      get_or_create_session-Same j r.session_id fresh now srv other new_one in
    serve_http-Leaves wire env (Same j srv) r now fresh srv srv' w w' resp
      (
        refl,
        found,
        λ e t h. insert-Same j _ e t elsewhere ∙ h,
        lookup-erase r.session_id j srv.sessions
            ∙ rw (str_eq-false r.session_id j (λ p. other (sym p))) refl,
      )
      served
