-- ===== src/Session/Local.antt =====
-- The table of local references: generated references are new, and every operation changes the
-- entries that it names and no other.
use jsonrpc.Base.{
  ℕ, ◌+◌, ◌%◌, ◌^◌, ◌<◌, ◌≡◌, refl, ◌≢◌, true, false, Option, none, some, List, [], ◌∷◌, ◌++◌,
  arith, ◌∙◌, inl, inr, ◌⊎◌, Str, codes, is_empty, str_eq, str_eq_iff, str_eq-false, str_eq_refl,
  Option-cases, if◌then◌else◌,
}
use jsonrpc.Base.Dict.{Dict, lookup, insert, lookup-insert, lookup-erase, Unique}
use jsonrpc.Base.Decimal.{decimal, decimal_injective}
use jsonrpc.Session.Data.{Session, Traits, Cleanup}
use jsonrpc.Session.{
  ref_id, add_local_ref, get_local_ref, has_local_ref, remove_local_ref, remove_object, find_object,
  dispose_object,
}

-- Two generated references with different numbers differ.
pub ref_id_injective : (m n : ℕ) → ref_id m ≡ ref_id n → m ≡ n
unfolding ref_id
ref_id_injective m n h = decimal_injective m n (cc h)

-- After an object is added, its reference finds it, and every other finds what it found before.
pub get_local_ref-add_local_ref :
    (ref j : Str) (obj : ℕ) (s : Session)
    → let (s', r) = add_local_ref ref obj s in
      get_local_ref j s' ≡ (if str_eq r j then some obj else get_local_ref j s)
unfolding add_local_ref get_local_ref
get_local_ref-add_local_ref [] j obj s = lookup-insert _ j obj s.local_refs
get_local_ref-add_local_ref (c ∷ ref) j obj s = lookup-insert (c ∷ ref) j obj s.local_refs

-- No generated reference with a number that is still to come is in use.
abbrev pub IsFresh : Session → Type 0
IsFresh s = (n : ℕ) → s.ref_counter < n → get_local_ref (ref_id n) s ≡ none

-- On a session whose references to come are unused, while the counter does not wrap, adding an
-- object under a generated reference takes the next one, which named nothing before and names the
-- object then, and leaves the later ones unused.
pub add_local_ref-IsFresh :
    (obj : ℕ) (s : Session)
    → IsFresh s
    → s.ref_counter + 1 < 2 ^ 64
    → let (s', r) = add_local_ref [] obj s in
      (r ≡ ref_id (s.ref_counter + 1))
      × (get_local_ref r s ≡ none)
      × (get_local_ref r s' ≡ some obj)
      × IsFresh s'
unfolding add_local_ref get_local_ref
add_local_ref-IsFresh obj s fresh small =
    let step : (s.ref_counter + 1) % 2 ^ 64 ≡ s.ref_counter + 1 = omega arith in
    let r : Str = ref_id (s.ref_counter + 1) in
    rw step (
      refl,
      fresh (s.ref_counter + 1) (omega arith),
      lookup-insert r r obj s.local_refs ∙ rw (str_eq_refl r),
      λ n later.
          lookup-insert r (ref_id n) obj s.local_refs
          ∙ rw (str_eq-false r (ref_id n) λ e. absurd (omega (arith, ref_id_injective _ n e)))
              (fresh n (omega arith)),
    )

-- Adding an object under a chosen reference that is no generated one keeps the later ones unused.
pub add_local_ref-IsFresh_chosen :
    (ref : Str) (obj : ℕ) (s : Session)
    → is_empty ref ≡ false
    → ((n : ℕ) → ref ≢ ref_id n)
    → IsFresh s
    → IsFresh (add_local_ref ref obj s).0
unfolding add_local_ref get_local_ref
add_local_ref-IsFresh_chosen [] obj s named other fresh n later = cc
add_local_ref-IsFresh_chosen (c ∷ ref) obj s named other fresh n later =
    lookup-insert (c ∷ ref) (ref_id n) obj s.local_refs
    ∙ rw (str_eq-false (c ∷ ref) (ref_id n) (other n)) (fresh n later)

-- An object stored under the next generated reference is overwritten by
-- the next object that is added without a reference.
pub add_local_ref_overwrites :
    (obj obj' : ℕ) (s : Session)
    → s.ref_counter + 1 < 2 ^ 64
    → let s' = (add_local_ref (ref_id (s.ref_counter + 1)) obj s).0 in
      (get_local_ref (ref_id (s.ref_counter + 1)) s' ≡ some obj)
      × (get_local_ref (ref_id (s.ref_counter + 1)) (add_local_ref [] obj' s').0 ≡ some obj')
unfolding add_local_ref get_local_ref ref_id
add_local_ref_overwrites obj obj' s small =
    let step : (s.ref_counter + 1) % 2 ^ 64 ≡ s.ref_counter + 1 = omega arith in
    let r : Str = codes "ref-" ++ decimal (s.ref_counter + 1) in
    (
      lookup-insert r r obj s.local_refs ∙ rw (str_eq_refl r),
      rw step (lookup-insert r r obj' (insert r obj s.local_refs) ∙ rw (str_eq_refl r)),
    )

-- The calls for an object that is removed, if there is one.
abbrev pub calls_for : Traits → Option ℕ → List Cleanup
calls_for t none = []
calls_for t (some obj) = dispose_object t obj

-- Removing a reference: it reports whether the reference was there, disposes of exactly the object
-- that it named, and afterwards this reference names nothing and the others what they named.
pub remove_local_ref_lem :
    (t : Traits) (ref : Str) (s : Session)
    → let (s', existed, calls) = remove_local_ref t ref s in
      (existed ≡ has_local_ref ref s)
      × ((j : Str) → get_local_ref j s' ≡ (if str_eq ref j then none else get_local_ref j s))
      × (calls ≡ calls_for t (get_local_ref ref s))
unfolding remove_local_ref has_local_ref get_local_ref
remove_local_ref_lem t ref s = elim (Option-cases (lookup ref s.local_refs)) [
  | inl e ↦ rw (e, remove_local_ref) (refl, λ j. ground (arith, str_eq_iff ref j), refl)
  | inr (o, e) ↦ rw (e, remove_local_ref) (refl, λ j. lookup-erase ref j s.local_refs, refl)
]

find_object_sound :
    (obj : ℕ) (ref : Str) (d : Dict ℕ)
    → Unique d
    → find_object obj d ≡ some ref
    → lookup ref d ≡ some obj
unfolding find_object lookup
find_object_sound obj ref [] u h = cc
find_object_sound obj ref ((r, o) ∷ d) (n, u) h =
    ground (arith, str_eq_iff r ref, find_object_sound obj ref d u)

find_object_complete :
    (obj : ℕ) (d : Dict ℕ) → find_object obj d ≡ none → (ref : Str) → lookup ref d ≢ some obj
unfolding find_object lookup
find_object_complete obj [] h ref = cc
find_object_complete obj ((r, o) ∷ d) h ref = ground (arith, find_object_complete obj d _ ref)

-- Removing an object from a table in which no reference stands twice: `true` means that a reference to it was there, one such reference is gone and
-- the object was disposed of; `false` means that no reference named it, and nothing changed.
pub remove_object_lem :
    (t : Traits) (obj : ℕ) (s : Session)
    → Unique s.local_refs
    → let (s', found, calls) = remove_object t obj s in
      ((found ≡ true)
        × ((ref : Str) × (get_local_ref ref s ≡ some obj)
            × (calls ≡ dispose_object t obj)
            × ((j : Str)
                → get_local_ref j s' ≡ (if str_eq ref j then none else get_local_ref j s))))
      ⊎ ((found ≡ false) × (s' ≡ s) × (calls ≡ []) × ((ref : Str) → get_local_ref ref s ≢ some obj))
unfolding remove_object get_local_ref
remove_object_lem t obj s u = elim (Option-cases (find_object obj s.local_refs)) [
  | inl e ↦ rw (e, remove_object) (inr (refl, refl, refl, find_object_complete obj s.local_refs e))
  | inr (ref, e) ↦
      rw (e, remove_object)
        (inl (
          refl,
          (
            ref,
            find_object_sound obj ref s.local_refs u e,
            refl,
            λ j. lookup-erase ref j s.local_refs,
          ),
        ))
]
