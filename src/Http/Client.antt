-- ===== src/Http/Client.antt =====
-- `HTTPClient` of go/jsonrpc3/http_client.go: its session, and the sending of one request in one
-- format. The headers that the user sets are passed on and left out; IDs do not wrap.
pub mod Formats
pub mod Calls
pub mod Batches
pub mod Callbacks
use jsonrpc.Base.{
  ℕ, ◌+◌, Bool, true, false, not, ◌&&◌, ◌||◌, ◌==◌, Option, none, some, List, [], ◌∷◌, ◌++◌, Str,
  codes, str_eq, is_empty, Result, ok, err, if◌then◌else◌,
}
use jsonrpc.Base.Decimal.{decimal}
use jsonrpc.Any.{Any, number, int64}
use jsonrpc.Mime.{mime_type_json, mime_type_cbor}
use jsonrpc.Session.{Session, Traits, Cleanup, new_session, add_local_ref, remove_local_ref}

-- `HTTPClient`: the session is made when it is asked for, or when the server names one.
pub record HttpClient : Type 0 where
  pub content_type : Str
  pub next_id : ℕ
  pub session : Option Session

-- `NewHTTPClient`
abbrev pub new_http_client : HttpClient
new_http_client = record { content_type = mime_type_cbor; next_id = 0; session = none }

abbrev id_of_session : Option Session → Str
id_of_session none = []
id_of_session (some s) = s.id

-- `SessionID`
abbrev pub client_session_id : HttpClient → Str
client_session_id c = id_of_session c.session

-- `SetSessionID`: a session of another ID is replaced by a new one.
unfoldable pub set_session_id : ℕ → Str → HttpClient → HttpClient
set_session_id now id c =
    if is_empty id
    then record c { session = none }
    else if str_eq (client_session_id c) id
    then c
    else record c { session = some (new_session id now) }

-- `GetSession`, with the ID and the time of a session that it may make.
abbrev pub get_session : ℕ → Str → HttpClient → Session
get_session now fresh c = elim c.session [ none ↦ new_session fresh now | some s ↦ s ]

-- `RegisterObject`: the reference that it returns, and the client behind it.
unfoldable pub register_callback : ℕ → Str → Str → ℕ → HttpClient → HttpClient × Str
register_callback now fresh ref obj c =
    (record c { session = some (add_local_ref ref obj (get_session now fresh c)).0 }, ref)

-- `UnregisterObject`
abbrev pub unregister_callback : Traits → Str → HttpClient → HttpClient × List Cleanup
unregister_callback t ref c = elim c.session [
  | none ↦ (c, [])
  | some s ↦
      let (s', existed, calls) = remove_local_ref t ref s in (record c { session = some s' }, calls)
]

-- `generateID`
abbrev pub generate_id : HttpClient → HttpClient × Any
generate_id c = (record c { next_id = c.next_id + 1 }, number int64 (c.next_id + 1))

-- What the server replies; the body may fail to be read.
pub record HttpReply : Type 0 where
  pub status : ℕ
  pub content_type : Str
  pub session_id : Str
  pub body : Option Str

-- `shouldFallback`
abbrev pub should_fallback : ℕ → Bool
should_fallback status = status == 415 || status == 406

abbrev pub supported_formats : List Str
supported_formats = mime_type_cbor ∷ mime_type_json ∷ []

abbrev pub others : Str → List Str → List Str
others f [] = []
others f (g ∷ gs) = let rest = others f gs in if str_eq g f then rest else g ∷ rest

-- The formats that a call tries, in order.
abbrev pub formats : HttpClient → List Str
formats c = c.content_type ∷ others c.content_type supported_formats

-- What an attempt in one format leads to: an outcome, or the error behind which the next is tried.
pub data Attempt (A : Type 0) : Type 0 where
  finished : A → Attempt A
  rejected : Str → Attempt A

abbrev pub reject : Str → ℕ → Str
reject format status =
    codes "server rejected format "
    ++ (format ++ (codes " (HTTP " ++ (decimal status ++ codes ")")))

-- The text of a status that is no success; a body that cannot be read counts as empty.
abbrev pub status_error : HttpReply → Str
status_error r =
    codes "HTTP error "
    ++ (decimal r.status ++ (codes ": " ++ elim r.body [ none ↦ [] | some b ↦ b ]))

-- A reply that names a session makes it the client's.
unfoldable pub name_session : ℕ → HttpReply → HttpClient → HttpClient
unfolding set_session_id
name_session now r c = if is_empty r.session_id then c else set_session_id now r.session_id c

abbrev delete_error : HttpReply → Str
delete_error r =
    codes "DELETE failed with status "
    ++ (decimal r.status ++ (codes ": " ++ elim r.body [ none ↦ [] | some b ↦ b ]))

-- `Net` is the state of the network and of the server. `send` posts a body with a content type and a
-- session ID, which is left out if it is empty.
module _ (Net : Type 0) (send : Str → Str → Str → Net → Result HttpReply × Net) where
  abbrev pub received :
      ℕ → HttpClient → Result HttpReply × Net → Result HttpReply × HttpClient × Net
  received now c (ok r, n) = (ok r, name_session now r c, n)
  received now c (err e, n) = (err (codes "HTTP request failed: " ++ e), c, n)

  -- `doRequest`
  unfoldable pub do_request : ℕ → Str → Str → HttpClient → Net → Result HttpReply × HttpClient × Net
  unfolding name_session
  do_request now bytes content_type c n =
      received now c (send bytes content_type (client_session_id c) n)

-- `delete` makes a DELETE of a session.
module _ (Net : Type 0) (delete : Str → Net → Result HttpReply × Net) where
  abbrev deleted : HttpClient → Result HttpReply × Net → Option Str × HttpClient × Net
  deleted c (err e, n) = (some (codes "DELETE request failed: " ++ e), c, n)
  deleted c (ok r, n) =
      if r.status == 204
      then (none, record c { session = none }, n)
      else (some (delete_error r), c, n)

  -- `DeleteSession`: the error, if there is one.
  unfoldable pub delete_session : HttpClient → Net → Option Str × HttpClient × Net
  delete_session c n =
      let id = client_session_id c in if is_empty id then (none, c, n) else deleted c (delete id n)

module _ {A : Type 0} {Net : Type 0} where
  -- The loop over the formats: an outcome ends it, and a rejection is kept for the end.
  abbrev after_attempt :
      Attempt A × HttpClient × Net
      → (Str → HttpClient → Net → A × HttpClient × Net)
      → A × HttpClient × Net
  after_attempt (finished a, c, n) go = (a, c, n)
  after_attempt (rejected e, c, n) go = go e c n

  unfoldable pub try_formats :
      (Str → HttpClient → Net → Attempt A × HttpClient × Net)
      → (Str → A)
      → List Str
      → Str
      → HttpClient
      → Net
      → A × HttpClient × Net
  try_formats attempt fail [] last c n = (fail last, c, n)
  try_formats attempt fail (f ∷ fs) last c n =
      after_attempt (attempt f c n) (λ e c' n'. try_formats attempt fail fs e c' n')
