-- ===== src/Http/Server/Growth.antt =====
-- How the table of sessions grows: go/jsonrpc3/http_server.go.
use jsonrpc.Base.{
  ℕ, suc, ◌+◌, ◌≤◌, Option, none, some, [], ◌∷◌, Str, length, str_eq_refl, is_empty, if◌then◌else◌,
  ◌≡◌, ◌≢◌, refl, arith, Option-cases, inl, inr,
}
use jsonrpc.Base.Dict.{
  Dict, lookup, member, insert, erase, lookup-insert, Unique, insert-Unique, erase-Unique,
}
use jsonrpc.Env.{Env}
use jsonrpc.Http.{Wire, HttpRequest, HttpResponse}
use jsonrpc.Http.Server.{SessionEntry, Server, get_or_create_session, found_or_new, store_session}
use jsonrpc.Http.Server.Storing.{serve_http-Leaves}
use jsonrpc.Http.Server.Serving.{serve_http}

-- A key that is there does not lengthen a table, and one that is not does by one.
length-insert :
    {V : Type 0} (k : Str) (v : V) (d : Dict V)
    → length (insert k v d) ≡ (if member k d then length d else suc (length d))
unfolding insert lookup
length-insert k v [] = refl
length-insert k v ((j, w) ∷ d) = ground (arith, length-insert k v d)

length-erase_le : {V : Type 0} (k : Str) (d : Dict V) → length (erase k d) ≤ length d
unfolding erase
length-erase_le k [] = omega arith
length-erase_le k ((j, w) ∷ d) = ground (arith, length-erase_le k d)

-- A table without double IDs that is longer by one at most, and by one only if it holds `k`.
abbrev Grown : Str → Server → Server → Type 0
Grown k srv srv' =
    Unique srv'.sessions
    × (length srv'.sessions ≤ length srv.sessions + 1)
    × ((lookup k srv'.sessions ≡ none) → length srv'.sessions ≤ length srv.sessions)

length-insert_within :
    {V : Type 0} (k : Str) (v : V) (d : Dict V) (n : ℕ)
    → length d ≤ n + 1
    → ((lookup k d ≡ none) → length d ≤ n)
    → length (insert k v d) ≤ n + 1
length-insert_within k v d n within absent = elim (Option-cases (lookup k d)) [
  | inl none_there ↦
      let e : length (insert k v d) ≡ suc (length d) = rw (length-insert k v d, none_there) refl in
      omega (arith, e, absent none_there)
  | inr (w, there) ↦
      let e : length (insert k v d) ≡ length d = rw (length-insert k v d, there) refl in
      omega (arith, e, within)
]

lookup-insert_ne_none : {V : Type 0} (k : Str) (v : V) (d : Dict V) → lookup k (insert k v d) ≢ none
lookup-insert_ne_none k v d h =
    let found : lookup k (insert k v d) ≡ some v = rw (lookup-insert k k v d, str_eq_refl k) refl in
    cc

insert-Grown :
    (k : Str) (e : SessionEntry) (srv srv' : Server)
    → Grown k srv srv'
    → Grown k srv (store_session k e srv')
insert-Grown k e srv srv' (u, within, absent) = (
  insert-Unique k e srv'.sessions u,
  length-insert_within k e srv'.sessions (length srv.sessions) within absent,
  λ h. absurd (lookup-insert_ne_none k e srv'.sessions h),
)

itself-Grown : (k : Str) (srv : Server) → Unique srv.sessions → Grown k srv srv
itself-Grown k srv u = (u, omega arith, λ h. omega arith)

found-Grown :
    (id fresh : Str) (now : ℕ) (srv : Server) (o : Option SessionEntry)
    → Unique srv.sessions
    → let (f, srv') = found_or_new now fresh id srv o in Grown f.session_id srv srv'
found-Grown id fresh now srv none u = itself-Grown fresh srv u
found-Grown id fresh now srv (some e) u = insert-Grown id _ srv srv (itself-Grown id srv u)

get_or_create_session-Grown :
    (id fresh : Str) (now : ℕ) (srv : Server)
    → Unique srv.sessions
    → let (f, srv') = get_or_create_session id now fresh srv in Grown f.session_id srv srv'
unfolding get_or_create_session
get_or_create_session-Grown id fresh now srv u =
    found-Grown id fresh now srv (if is_empty id then none else lookup id srv.sessions) u

-- In a table without double IDs a request leaves none, and adds one session at most.
pub serve_http-Unique :
    (wire : Wire) (env : Env) (r : HttpRequest) (now : ℕ) (fresh : Str) (srv srv' : Server)
    (w w' : env.World) (resp : HttpResponse)
    → Unique srv.sessions
    → serve_http wire env r now fresh srv w ≡ some (resp, srv', w')
    → Unique srv'.sessions × (length srv'.sessions ≤ length srv.sessions + 1)
serve_http-Unique wire env r now fresh srv srv' w w' resp u served =
    let k = (get_or_create_session r.session_id now fresh srv).0.session_id in
    let shorter = length-erase_le r.session_id srv.sessions in
    let (unique, within, absent) =
      serve_http-Leaves wire env (Grown k srv) r now fresh srv srv' w w' resp
        (
          itself-Grown k srv u,
          get_or_create_session-Grown r.session_id fresh now srv u,
          λ e t h. insert-Grown k e srv t h,
          (erase-Unique r.session_id srv.sessions u, omega (arith, shorter), λ h. shorter),
        )
        served in
    (unique, within)
