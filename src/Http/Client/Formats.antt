-- ===== src/Http/Client/Formats.antt =====
-- The formats that a call tries, and the IDs that it uses: go/jsonrpc3/http_client.go.
use jsonrpc.Base.{
  ℕ, suc, ◌+◌, ◌≤◌, Bool, ◌||◌, Option, none, some, List, [], ◌∷◌, Str, str_eq, str_eq_iff, codes,
  is_empty, not, ◌==◌, starts_with, Result, ok, err, length, if◌then◌else◌, ◌≡◌, refl, arith, ◌∙◌,
  if_elim,
}
use jsonrpc.Any.{Any}
use jsonrpc.Message.{Response, MessageSet}
use jsonrpc.Mime.{get_codec, mime_type_json, mime_type_cbor}
use jsonrpc.Env.{Env}
use jsonrpc.Http.{Wire}
use jsonrpc.Http.Client.{
  HttpClient, HttpReply, Attempt, finished, rejected, formats, others, supported_formats,
  generate_id, try_formats, after_attempt, do_request, received, should_fallback, client_session_id,
  name_session, set_session_id,
}
use jsonrpc.Http.Client.Calls.{
  HttpOutcome, call_error, call_http, attempt_call, posted, replied, read_reply, read_single,
  read_decoded, settled, read_stream, encode_call, one_response,
}

-- How often a format stands in a list.
abbrev pub occurrences : Str → List Str → ℕ
occurrences f [] = 0
occurrences f (g ∷ gs) = let rest = occurrences f gs in if str_eq f g then rest + 1 else rest

abbrev pub is_supported : Str → Bool
is_supported f = str_eq f mime_type_cbor || str_eq f mime_type_json

occurrences-others :
    (f g : Str) (fs : List Str)
    → occurrences f (others g fs) ≡ (if str_eq f g then 0 else occurrences f fs)
occurrences-others f g [] = ground arith
occurrences-others f g (h ∷ fs) =
    ground (arith, str_eq_iff f g, str_eq_iff f h, str_eq_iff h g, occurrences-others f g fs)

occurrences-supported_formats :
    (f : Str) → occurrences f supported_formats ≡ (if is_supported f then 1 else 0)
occurrences-supported_formats f =
    ground (arith, str_eq_iff f mime_type_cbor, str_eq_iff f mime_type_json)

-- A call tries the client's own format and every format that is supported once each, and no other.
pub occurrences-formats :
    (c : HttpClient) (f : Str)
    → occurrences f (formats c) ≡ (if str_eq f c.content_type || is_supported f then 1 else 0)
occurrences-formats c f =
    rw (occurrences-others f c.content_type supported_formats, occurrences-supported_formats f)
      ground arith

length-formats : (c : HttpClient) → length (formats c) ≤ 3
length-formats c = ground arith

-- An ID counter that went up by at most a number.
abbrev pub Within : ℕ → ℕ → HttpClient → Type 0
Within from count c = (from ≤ c.next_id) × (c.next_id ≤ from + count)

module _ {A : Type 0} {Net : Type 0} where
  -- An attempt that takes one ID.
  abbrev TakesOne : (Str → HttpClient → Net → Attempt A × HttpClient × Net) → Type 0
  TakesOne attempt =
      (f : Str) (c : HttpClient) (n : Net) → ((attempt f c n).1.next_id ≡ c.next_id + 1)

  after_attempt-Within :
      (r : Attempt A × HttpClient × Net) (go : Str → HttpClient → Net → A × HttpClient × Net)
      (from count : ℕ)
      → r.1.next_id ≡ from + 1
      → ((e : Str) (c : HttpClient) (n : Net) → Within c.next_id count (go e c n).1)
      → Within from (suc count) (after_attempt r go).1
  after_attempt-Within (finished a, c, n) go from count h hs = (omega (arith, h), omega (arith, h))
  after_attempt-Within (rejected e, c, n) go from count h hs =
      let (low, high) = hs e c n in (omega (arith, h, low), omega (arith, h, high))

  try_formats-Within :
      (attempt : Str → HttpClient → Net → Attempt A × HttpClient × Net) (fail : Str → A)
      → TakesOne attempt
      → (fs : List Str) (last : Str) (c : HttpClient) (n : Net)
      → Within c.next_id (length fs) (try_formats attempt fail fs last c n).1
  unfolding try_formats
  try_formats-Within attempt fail one [] last c n = (omega arith, omega arith)
  try_formats-Within attempt fail one (f ∷ fs) last c n =
      after_attempt-Within (attempt f c n) (λ e c' n'. try_formats attempt fail fs e c' n')
        c.next_id (length fs) (one f c n)
        (λ e c' n'. try_formats-Within attempt fail one fs e c' n')

set_session_id-next_id :
    (now : ℕ) (id : Str) (c : HttpClient) → (set_session_id now id c).next_id ≡ c.next_id
unfolding set_session_id
set_session_id-next_id now id c = ground arith

name_session-next_id :
    (now : ℕ) (r : HttpReply) (c : HttpClient) → (name_session now r c).next_id ≡ c.next_id
unfolding name_session
name_session-next_id now r c =
    if_elim (λ x. x.next_id ≡ c.next_id) (is_empty r.session_id) c
      (set_session_id now r.session_id c) refl (set_session_id-next_id now r.session_id c)

module _ (wire : Wire) (env : Env) where
  settled-next_id :
      (f : Str) (c : HttpClient) (r : Result Response)
      → (settled wire env f c r).1.next_id ≡ c.next_id
  settled-next_id f c (err e) = refl
  settled-next_id f c (ok r) = refl

  read_decoded-next_id :
      (f : Str) (c : HttpClient) (r : Result MessageSet)
      → (read_decoded wire env f c r).1.next_id ≡ c.next_id
  read_decoded-next_id f c (err e) = refl
  read_decoded-next_id f c (ok ms) = settled-next_id f c (one_response ms.messages)

  read_single-next_id :
      (f : Str) (c : HttpClient) (body : Option Str)
      → (read_single wire env f c body).1.next_id ≡ c.next_id
  read_single-next_id f c none = refl
  read_single-next_id f c (some bytes) =
      read_decoded-next_id f c (wire.unmarshal_messages (get_codec f) bytes)

  read_stream-next_id :
      (now : ℕ) (f : Str) (c : HttpClient) (w : env.World) (body : Option Str)
      → (read_stream wire env now f c w body).1.next_id ≡ c.next_id
  read_stream-next_id now f c w none = refl
  read_stream-next_id now f c w (some bytes) = refl

  abbrev Keeps : HttpClient → Attempt HttpOutcome × HttpClient × env.World → Type 0
  Keeps c r = r.1.next_id ≡ c.next_id

  read_reply-next_id :
      (now : ℕ) (f : Str) (r : HttpReply) (c : HttpClient) (w : env.World)
      → (read_reply wire env now f r c w).1.next_id ≡ c.next_id
  unfolding read_reply
  read_reply-next_id now f r c w = if_elim (Keeps c) (should_fallback r.status) _ _ refl (
      if_elim (Keeps c) (not (r.status == 200)) _ _ refl (
        if_elim (Keeps c) (starts_with r.content_type (codes "text/event-stream")) _ _
          (read_stream-next_id now f c w r.body) (read_single-next_id f c r.body)))

module _ (wire : Wire) (env : Env) (Net : Type 0)
    (send : Str → Str → Str → Net → Result HttpReply × Net) where
  abbrev attempt :
      ℕ
      → Str
      → Any
      → Option Str
      → Str
      → HttpClient
      → env.World × Net
      → Attempt HttpOutcome × HttpClient × (env.World × Net)
  attempt = attempt_call wire env Net send

  replied-received :
      (now : ℕ) (f : Str) (w : env.World) (c : HttpClient) (r : Result HttpReply × Net)
      → (replied wire env Net send now f w (received Net send now c r)).1.next_id ≡ c.next_id
  replied-received now f w c (err e, n) = refl
  replied-received now f w c (ok r, n) =
      read_reply-next_id wire env now f r (name_session now r c) w ∙ name_session-next_id now r c

  posted-next_id :
      (now : ℕ) (f : Str) (c : HttpClient) (st : env.World × Net) (r : Result Str)
      → (posted wire env Net send now f c st r).1.next_id ≡ c.next_id
  unfolding do_request
  posted-next_id now f c st (err e) = refl
  posted-next_id now f c (w, n) (ok bytes) =
      replied-received now f w c (send bytes f (client_session_id c) n)

  attempt-TakesOne :
      (now : ℕ) (method : Str) (params : Any) (ref : Option Str)
      → TakesOne (attempt now method params ref)
  unfolding attempt_call
  attempt-TakesOne now method params ref f c st =
      posted-next_id now f (generate_id c).0 st
        (encode_call wire env method params ref (generate_id c).1 f)

  -- Whatever the server replies to it, a call takes at most three IDs, one for each format that it
  -- tries, and never gives one back.
  pub call_http-Within :
      (now : ℕ) (method : Str) (params : Any) (ref : Option Str) (c : HttpClient)
      (st : env.World × Net)
      → Within c.next_id 3 (call_http wire env Net send now method params ref c st).1
  unfolding call_http
  call_http-Within now method params ref c st =
      let (low, high) =
        try_formats-Within (attempt now method params ref) call_error
          (attempt-TakesOne now method params ref) (formats c) [] c st in
      (low, omega (arith, high, length-formats c))
