-- ===== src/Http/Server/Expiry.antt =====
-- What the cleaning of the session table leaves: go/jsonrpc3/http_server.go.
use jsonrpc.Base.{
  ℕ, ◌+◌, ◌-◌, ◌*◌, ◌^◌, ◌≤◌, ltb, map, ◌↔◌, arith, Bool, false, ◌||◌, Option, none, some, List, [],
  ◌∷◌, Str, str_eq, str_eq_iff, if◌then◌else◌, ◌≡◌, refl, sym, ap, ◌∙◌, Bool-cases, inl, inr,
}
use mathlib.Core.Path.{subst}
use jsonrpc.Base.Dict.{Dict, lookup, erase, lookup-erase, Unique}
use jsonrpc.Session.{Traits, list_local_refs}
use jsonrpc.Http.Server.{
  SessionEntry, Server, has_expired, expired_ids, delete_sessions, cleanup_expired_sessions,
  is_nil_list, stateless_session_ttl,
}

-- Whether an ID is among others.
abbrev listed_id : Str → List Str → Bool
listed_id j [] = false
listed_id j (id ∷ ids) = str_eq id j || listed_id j ids

-- An entry, unless it has expired.
abbrev pub unless_expired : ℕ → ℕ → Option SessionEntry → Option SessionEntry
unless_expired now ttl none = none
unless_expired now ttl (some e) = if has_expired now ttl e then none else some e

abbrev expires : ℕ → ℕ → Option SessionEntry → Bool
expires now ttl none = false
expires now ttl (some e) = has_expired now ttl e

lookup-delete_sessions :
    (t : Traits) (j : Str) (ids : List Str) (d : Dict SessionEntry)
    → lookup j (delete_sessions t ids d).0 ≡ (if listed_id j ids then none else lookup j d)
lookup-delete_sessions t j [] d = refl
lookup-delete_sessions t j (id ∷ ids) d =
    lookup-delete_sessions t j ids (erase id d)
    ∙ (rw (lookup-erase id j d) (elim (Bool-cases (str_eq id j)) [
      | inl same ↦
          rw same (elim (Bool-cases (listed_id j ids)) [ inl h ↦ rw h refl | inr h ↦ rw h refl ])
      | inr other ↦ rw other refl
    ]))

-- The IDs of the expired entries of a table in which no ID stands twice.
listed_id-expired_ids :
    (now ttl : ℕ) (j : Str) (d : Dict SessionEntry)
    → Unique d
    → listed_id j (expired_ids now ttl d) ≡ expires now ttl (lookup j d)
unfolding lookup
listed_id-expired_ids now ttl j [] u = refl
listed_id-expired_ids now ttl j ((id, e) ∷ d) (absent, u) =
    let rest = listed_id-expired_ids now ttl j d u in
    elim (Bool-cases (str_eq id j)) [
      | inr other ↦ elim (Bool-cases (has_expired now ttl e)) [
        | inl old ↦ rw (old, other) rest
        | inr new ↦ rw (new, other) rest
      ]
      | inl same ↦ elim (Bool-cases (has_expired now ttl e)) [
        | inl old ↦ rw (old, same) (sym old)
        | inr new ↦
            let id_is : id ≡ j = (str_eq_iff id j).0 same in
            rw (new, same)
              (rest
                ∙ (ap (λ k. expires now ttl (lookup k d)) (sym id_is)
                    ∙ (ap (expires now ttl) absent ∙ sym new)))
      ]
    ]

-- An entry that was used within the limit, and within 30 seconds unless it has local references.
abbrev pub Fresh : ℕ → ℕ → SessionEntry → Type 0
Fresh now ttl e =
    (now ≤ e.last_accessed + ttl)
    × (e.session.local_refs ≡ [] → now ≤ e.last_accessed + 30 * 10 ^ 9)

fresh_by :
    (now ttl at : ℕ) (refs : Dict ℕ)
    → (ltb
          (if is_nil_list (map (λ r. r.0) refs)
            then (if ltb stateless_session_ttl ttl then stateless_session_ttl else ttl)
            else ttl)
          (now - at)
        ≡ false)
      ↔ ((now ≤ at + ttl) × (refs ≡ [] → now ≤ at + 30 * 10 ^ 9))
fresh_by now ttl at [] = (
  λ h. (ground arith, λ e. ground arith),
  λ h. let recent = h.1 refl in ground (arith, h.0, recent),
)
fresh_by now ttl at (r ∷ refs) = (λ h. (ground arith, λ e. absurd (cc)), λ h. ground (arith, h.0))

has_expired-Fresh :
    (now ttl : ℕ) (e : SessionEntry) → (has_expired now ttl e ≡ false) ↔ Fresh now ttl e
unfolding has_expired list_local_refs
has_expired-Fresh now ttl e = fresh_by now ttl e.last_accessed e.session.local_refs

kept_entry :
    (now ttl : ℕ) (o : Option SessionEntry) (e : SessionEntry)
    → (unless_expired now ttl o ≡ some e) ↔ ((o ≡ some e) × Fresh now ttl e)
kept_entry now ttl none e = (λ h. absurd (cc), λ h. absurd (cc))
kept_entry now ttl (some x) e = elim (Bool-cases (has_expired now ttl x)) [
  | inl old ↦ (
    λ h. absurd (ground arith),
    λ (same, fresh).
        let is_x : x ≡ e = cc in
        let new = (has_expired-Fresh now ttl e).1 fresh in
        let new_x = ap (has_expired now ttl) is_x ∙ new in absurd (cc),
  )
  | inr new ↦ (
    λ h.
        let same : some x ≡ some e = ground arith in
        let is_x : x ≡ e = cc in
        (same, subst (Fresh now ttl) is_x ((has_expired-Fresh now ttl x).0 new)),
    λ (same, fresh). rw new same,
  )
]

lookup-cleanup_expired_sessions :
    (t : Traits) (now : ℕ) (srv : Server) (j : Str)
    → Unique srv.sessions
    → lookup j (cleanup_expired_sessions t now srv).0.sessions
      ≡ unless_expired now srv.session_ttl (lookup j srv.sessions)
unfolding cleanup_expired_sessions
lookup-cleanup_expired_sessions t now srv j u =
    lookup-delete_sessions t j (expired_ids now srv.session_ttl srv.sessions) srv.sessions
    ∙ (rw (listed_id-expired_ids now srv.session_ttl j srv.sessions u)
        (kept (lookup j srv.sessions)))
  where
    kept :
        (o : Option SessionEntry)
        → (if expires now srv.session_ttl o then none else o) ≡ unless_expired now srv.session_ttl o
    kept none = refl
    kept (some e) = refl

-- Cleaning a table, in which no ID stands twice, leaves exactly the sessions that are fresh, as they
-- are: a session is found afterwards if and only if it was found before, was last used no longer ago
-- than the server's limit, and no longer than 30 seconds ago if it has no local references.
pub cleanup_expired_sessions_lem :
    (t : Traits) (now : ℕ) (srv : Server) (j : Str) (e : SessionEntry)
    → Unique srv.sessions
    → (lookup j (cleanup_expired_sessions t now srv).0.sessions ≡ some e) ↔ (
        (lookup j srv.sessions ≡ some e)
        × ((now ≤ e.last_accessed + srv.session_ttl)
            × (e.session.local_refs ≡ [] → now ≤ e.last_accessed + 30 * 10 ^ 9)))
cleanup_expired_sessions_lem t now srv j e u =
    let same = lookup-cleanup_expired_sessions t now srv j u in
    let (there, back) = kept_entry now srv.session_ttl (lookup j srv.sessions) e in
    (λ h. there (sym same ∙ h), λ h. same ∙ back h)
