-- ===== src/Http/Client/Callbacks.antt =====
-- The callbacks that a client registers: go/jsonrpc3/http_client.go.
use jsonrpc.Base.{
  ℕ, ◌||◌, false-ne-true, ◌+◌, ◌%◌, ◌^◌, true, false, Option, none, some, [], ◌∷◌, Str, str_eq,
  str_eq_refl, is_empty, Result, ok, if◌then◌else◌, ◌≡◌, refl, sym, ◌∙◌, arith,
}
use jsonrpc.Base.Dict.{lookup}
use jsonrpc.Session.{Session, add_local_ref, get_local_ref, ref_id}
use jsonrpc.Session.Local.{get_local_ref-add_local_ref}
use jsonrpc.Http.Client.{
  HttpClient, HttpReply, client_session_id, set_session_id, get_session, register_callback,
  name_session, do_request,
}

-- The object that the server reaches under a reference of the client.
abbrev object_in : Str → Option Session → Option ℕ
object_in ref none = none
object_in ref (some s) = get_local_ref ref s

abbrev pub callback : Str → HttpClient → Option ℕ
callback ref c = object_in ref c.session

-- A callback that is registered under a reference is reached under it, and the others as before; the
-- reference that is returned is the one that was asked for.
pub callback-register_callback :
    (now : ℕ) (fresh ref j : Str) (obj : ℕ) (c : HttpClient)
    → is_empty ref ≡ false
    → let (c', r) = register_callback now fresh ref obj c in
      (r ≡ ref)
      × (callback j c'
          ≡ (if str_eq ref j then some obj else get_local_ref j (get_session now fresh c)))
unfolding register_callback add_local_ref
callback-register_callback now fresh [] j obj c h = false-ne-true (sym h)
callback-register_callback now fresh (x ∷ ref) j obj c h =
    (refl, get_local_ref-add_local_ref (x ∷ ref) j obj (get_session now fresh c))

-- Without a reference to register it under, an object is stored under a generated one, but the
-- reference that is returned is empty, and what it reaches is what it reached before.
pub callback-register_callback_empty :
    (now : ℕ) (fresh : Str) (obj : ℕ) (c : HttpClient)
    → let (c', r) = register_callback now fresh [] obj c in
      let s = get_session now fresh c in
      (r ≡ [])
      × (callback r c' ≡ get_local_ref [] s)
      × (callback (ref_id ((s.ref_counter + 1) % 2 ^ 64)) c' ≡ some obj)
unfolding register_callback add_local_ref ref_id
callback-register_callback_empty now fresh obj c =
    let s = get_session now fresh c in
    let r = ref_id ((s.ref_counter + 1) % 2 ^ 64) in
    (
      refl,
      get_local_ref-add_local_ref [] [] obj s,
      get_local_ref-add_local_ref [] r obj s ∙ rw (str_eq_refl r) refl,
    )

module _ (Net : Type 0) (send : Str → Str → Str → Net → Result HttpReply × Net) where
  -- When a reply names another session than the client's, the client forgets every callback that it
  -- has registered.
  pub callback-do_request :
      (now : ℕ) (bytes format ref : Str) (c : HttpClient) (n n' : Net) (r : HttpReply)
      → send bytes format (client_session_id c) n ≡ (ok r, n')
      → is_empty r.session_id ≡ false
      → str_eq (client_session_id c) r.session_id ≡ false
      → let (reply, c', n'') = do_request Net send now bytes format c n in
        (client_session_id c' ≡ r.session_id) × (callback ref c' ≡ none)
  unfolding do_request name_session set_session_id get_local_ref lookup
  callback-do_request now bytes format ref c n n' r sent named other =
      rw (sent, named, other) (refl, refl)

  -- A reply that names the client's session, or none, leaves its callbacks.
  pub callback-do_request_same :
      (now : ℕ) (bytes format ref : Str) (c : HttpClient) (n n' : Net) (r : HttpReply)
      → send bytes format (client_session_id c) n ≡ (ok r, n')
      → (is_empty r.session_id || str_eq (client_session_id c) r.session_id) ≡ true
      → let (reply, c', n'') = do_request Net send now bytes format c n in
        callback ref c' ≡ callback ref c
  unfolding do_request name_session set_session_id
  callback-do_request_same now bytes format ref c n n' r sent same = rw sent (ground (arith, same))
