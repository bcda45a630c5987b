-- ===== src/Session/Remote.antt =====
-- The table of remote references, and the end of a session.
use jsonrpc.Base.{
  Bool, true, ◌||◌, Bool-cases, codes, ap, sym, ◌∙◌, ==_iff, ℕ, ◌≡◌, refl, false, Option, none,
  some, [], ◌∷◌, length, inl, inr, Str, str_eq, str_eq_iff, Option-cases, if◌then◌else◌, ◌==◌,
}
use mathlib.Core.List.{flat_map}
use jsonrpc.Base.Dict.{Dict, lookup, lookup-insert, lookup-erase}
use jsonrpc.Session.Data.{Session, RefInfo, Traits}
use jsonrpc.Session.{
  set_info, remote_info, add_remote_ref, get_remote_ref_info, remove_remote_ref, has_remote_ref,
  dispose_all, dispose_objects, dispose_object, has_local_ref,
}

-- What a pointer in the table points to.
abbrev info_of : Session → Option ℕ → Option RefInfo
info_of s none = none
info_of s (some a) = some (s.infos a)

-- What a remote reference is known by, with no mark of an access.
unfoldable pub peek_remote : Str → Session → Option RefInfo
peek_remote ref s = info_of s (lookup ref s.remote_refs)

-- Whether a reference leads to the info of a pointer.
abbrev pub leads_to : ℕ → Option ℕ → Bool
leads_to a none = false
leads_to a (some b) = a == b

==_refl : (a : ℕ) → (a == a) ≡ true
==_refl a = (==_iff a a).1 refl

written_info :
    (a : ℕ) (info : RefInfo) (s : Session) (o : Option ℕ)
    → info_of (set_info a info s) o ≡ (if leads_to a o then some info else info_of s o)
written_info a info s none = refl
written_info a info s (some b) = elim (Bool-cases (a == b)) [
  | inl same ↦ rw same refl
  | inr other ↦ rw other refl
]

-- An info that is added under a reference is found under it, and under every other reference that was
-- added with the same pointer, with the new reference for its name, as remote, with a time of creation
-- that is the caller's, or else now; the references with other pointers keep theirs.
pub peek_remote-add_remote_ref :
    (ref : Str) (a fresh now : ℕ) (s : Session) (j : Str)
    → peek_remote j (add_remote_ref ref (some a) fresh now s) ≡ (
        if str_eq ref j || leads_to a (lookup j s.remote_refs)
        then some (record (s.infos a) {
          ref = ref;
          direction = codes "remote";
          created = if (s.infos a).created == 0 then now else (s.infos a).created;
          last_accessed = now;
        })
        else peek_remote j s)
unfolding peek_remote add_remote_ref
peek_remote-add_remote_ref ref a fresh now s j =
    let info = remote_info ref now (s.infos a) in
    ap (info_of (set_info a info s)) (lookup-insert ref j a s.remote_refs)
    ∙ (elim (Bool-cases (str_eq ref j)) [
      | inl same ↦ rw same (written_info a info s (some a) ∙ rw (==_refl a) refl)
      | inr other ↦ rw other (written_info a info s (lookup j s.remote_refs))
    ])

-- What a reader is given: the stored record with the time of this access.
abbrev pub seen_at : ℕ → Option RefInfo → Option RefInfo
seen_at now none = none
seen_at now (some info) = some (record info { last_accessed = now })

-- Whether two references lead to one info.
abbrev same_info : Option ℕ → Option ℕ → Bool
same_info none o = false
same_info (some a) o = leads_to a o

-- Reading a remote reference returns what is stored with the new time of access, and stores that time
-- in the info, which other references may share; it touches no other info.
pub get_remote_ref_info_lem :
    (ref : Str) (now : ℕ) (s : Session)
    → let (s', found) = get_remote_ref_info ref now s in
      (found ≡ seen_at now (peek_remote ref s))
      × ((j : Str)
          → peek_remote j s' ≡ (
              if same_info (lookup ref s.remote_refs) (lookup j s.remote_refs)
              then found
              else peek_remote j s))
unfolding peek_remote get_remote_ref_info
get_remote_ref_info_lem ref now s = elim (Option-cases (lookup ref s.remote_refs)) [
  | inl e ↦ rw (e, get_remote_ref_info) (refl, λ j. refl)
  | inr (a, e) ↦
      rw (e, get_remote_ref_info) (refl, λ j. written_info a _ s (lookup j s.remote_refs))
]

-- Removing a remote reference reports whether it was there; then it is gone, and the others stay.
pub remove_remote_ref_lem :
    (ref : Str) (s : Session)
    → let (s', existed) = remove_remote_ref ref s in
      (existed ≡ has_remote_ref ref s)
      × ((j : Str) → peek_remote j s' ≡ (if str_eq ref j then none else peek_remote j s))
unfolding peek_remote remove_remote_ref has_remote_ref
remove_remote_ref_lem ref s = elim (Option-cases (lookup ref s.remote_refs)) [
  | inl e ↦ rw e (refl, λ j. absent j e)
  | inr (a, e) ↦
      rw e (refl, λ j. ap (info_of s) (lookup-erase ref j s.remote_refs) ∙ erased (str_eq ref j) j)
]
  where
    absent :
        (j : Str)
        → lookup ref s.remote_refs ≡ none
        → peek_remote j s ≡ (if str_eq ref j then none else peek_remote j s)
    absent j e = elim (Bool-cases (str_eq ref j)) [
      | inr other ↦ rw other refl
      | inl same ↦
          let is_j = (str_eq_iff ref j).0 same in
          rw same (ap (λ k. info_of s (lookup k s.remote_refs)) (sym is_j) ∙ ap (info_of s) e)
    ]

    erased :
        (b : Bool) (j : Str)
        → info_of s (if b then none else lookup j s.remote_refs)
          ≡ (if b then none else peek_remote j s)
    erased true j = refl
    erased false j = refl

dispose_objects-flat_map :
    (t : Traits) (d : Dict ℕ) → dispose_objects t d ≡ flat_map (λ e. dispose_object t e.1) d
unfolding dispose_objects flat_map
dispose_objects-flat_map t [] = refl
dispose_objects-flat_map t ((r, obj) ∷ d) = rw (dispose_objects-flat_map t d)

-- `DisposeAll` counts both tables, empties them, and makes the calls of `disposeObject` for every
-- local object, once for each reference and in the order of the table.
pub dispose_all_lem :
    (t : Traits) (s : Session)
    → let (s', locals, remotes, calls) = dispose_all t s in
      (locals ≡ length s.local_refs)
      × (remotes ≡ length s.remote_refs)
      × ((j : Str) → has_local_ref j s' ≡ false)
      × ((j : Str) → has_remote_ref j s' ≡ false)
      × (calls ≡ flat_map (λ e. dispose_object t e.1) s.local_refs)
unfolding dispose_all has_local_ref has_remote_ref lookup
dispose_all_lem t s = (refl, refl, λ j. refl, λ j. refl, dispose_objects-flat_map t s.local_refs)
