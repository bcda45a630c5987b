-- ===== src/Walk/Registered.antt =====
-- The session after a walk: each object that the walk reaches is registered, once and in order.
use jsonrpc.Base.{
  ℕ, suc, zero, ◌+◌, ◌^◌, ◌%◌, str_eq_refl, ◌<◌, ◌≡◌, refl, true, false, some, List, [], ◌∷◌, ◌++◌,
  length, get_elem?, arith, ◌∙◌, ap, sym, str_eq-false, str_eq, if◌then◌else◌, Str,
}
use jsonrpc.Any.{
  Any, object, pointer, slice, mapping, struct, Items, no_items, item, Entries, no_entries, entry,
  Fields, no_fields, field, ElemType, MapType,
}
use jsonrpc.Session.{Session, add_local_ref, get_local_ref, ref_id, generate_ref_id}
use mathlib.Core.Path.{subst}
use jsonrpc.Base.Dict.{lookup-insert}
use jsonrpc.Session.Local.{IsFresh, ref_id_injective}
use jsonrpc.Walk.{
  walk_value, walk_target, walk_items, walk_entries, walk_fields, register, process_result,
}

-- The objects that a walk reaches, in the order of the walk.
unfoldable mutual
  pub objects : Any → List ℕ
  objects (object o) = o ∷ []
  objects (pointer v) = target_objects v
  objects (slice t xs) = item_objects xs
  objects (mapping t xs) = entry_objects xs
  objects (struct fs) = field_objects fs
  objects _ = []

  pub target_objects : Any → List ℕ
  target_objects (pointer v) = target_objects v
  target_objects (slice t xs) = item_objects xs
  target_objects (mapping t xs) = entry_objects xs
  target_objects (struct fs) = field_objects fs
  target_objects _ = []

  pub item_objects : Items → List ℕ
  item_objects no_items = []
  item_objects (item x xs) = objects x ++ item_objects xs

  pub entry_objects : Entries → List ℕ
  entry_objects no_entries = []
  entry_objects (entry k x xs) = objects x ++ entry_objects xs

  pub field_objects : Fields → List ℕ
  field_objects no_fields = []
  field_objects (field n false t x fs) = field_objects fs
  field_objects (field n true t x fs) = objects x ++ field_objects fs

-- Objects registered one behind the other, each under a new reference.
pub register_all : List ℕ → Session → Session
unfolding register
register_all [] s = s
register_all (o ∷ os) s = register_all os (register o s).1

register_all-append :
    (os ps : List ℕ) (s : Session) → register_all (os ++ ps) s ≡ register_all ps (register_all os s)
unfolding register_all
register_all-append [] ps s = refl
register_all-append (o ∷ os) ps s = register_all-append os ps (register o s).1

mutual
  unfolding walk_value objects target_objects item_objects entry_objects field_objects register_all
      walk_target walk_items walk_entries walk_fields

  value_session : (v : Any) (s : Session) → (walk_value v s).1 ≡ register_all (objects v) s
  value_session (object o) s = refl
  value_session (pointer v) s = target_session v s
  value_session (slice t xs) s = items_session xs t s
  value_session (mapping t xs) s = entries_session xs t s
  value_session (struct fs) s = fields_session fs s
  value_session _ s = refl

  target_session : (v : Any) (s : Session) → (walk_target v s).1 ≡ register_all (target_objects v) s
  target_session (pointer v) s = target_session v s
  target_session (slice t xs) s = items_session xs t s
  target_session (mapping t xs) s = entries_session xs t s
  target_session (struct fs) s = fields_session fs s
  target_session _ s = refl

  items_session :
      (xs : Items) (t : ElemType) (s : Session)
      → (walk_items xs t s).2 ≡ register_all (item_objects xs) s
  items_session no_items t s = refl
  items_session (item x xs) t s =
      items_session xs t (walk_value x s).1
      ∙ ap (register_all (item_objects xs)) (value_session x s)
      ∙ sym (register_all-append (objects x) (item_objects xs) s)

  entries_session :
      (xs : Entries) (t : MapType) (s : Session)
      → (walk_entries xs t s).2 ≡ register_all (entry_objects xs) s
  entries_session no_entries t s = refl
  entries_session (entry k x xs) t s =
      entries_session xs t (walk_value x s).1
      ∙ ap (register_all (entry_objects xs)) (value_session x s)
      ∙ sym (register_all-append (objects x) (entry_objects xs) s)

  fields_session :
      (fs : Fields) (s : Session) → (walk_fields fs s).2 ≡ register_all (field_objects fs) s
  fields_session no_fields s = refl
  fields_session (field n false t x fs) s = fields_session fs s
  fields_session (field n true t x fs) s =
      fields_session fs (walk_value x s).1
      ∙ ap (register_all (field_objects fs)) (value_session x s)
      ∙ sym (register_all-append (objects x) (field_objects fs) s)

-- The session after a result is processed is the session after its objects are registered, each once
-- and in the order of the walk.
pub process_result-register_all :
    (v : Any) (s : Session) → (process_result v s).1 ≡ register_all (objects v) s
unfolding process_result
process_result-register_all v s = value_session v s

-- One registration, while the counter does not wrap: the next reference names the object, and every
-- other reference what it named.
register_lem :
    (o : ℕ) (s : Session)
    → s.ref_counter + 1 < 2 ^ 64
    → ((register o s).1.ref_counter ≡ s.ref_counter + 1)
      × ((j : Str)
          → get_local_ref j (register o s).1
            ≡ (if str_eq (ref_id (s.ref_counter + 1)) j then some o else get_local_ref j s))
unfolding register generate_ref_id add_local_ref ref_id get_local_ref
register_lem o s small =
    let step : (s.ref_counter + 1) % 2 ^ 64 ≡ s.ref_counter + 1 = omega arith in
    rw step (refl, λ j. lookup-insert _ j o s.local_refs)

register-IsFresh :
    (o : ℕ) (s : Session) → s.ref_counter + 1 < 2 ^ 64 → IsFresh s → IsFresh (register o s).1
register-IsFresh o s small fresh n later =
    let (counter, found) = register_lem o s small in
    let above : s.ref_counter + 1 < n = rw counter at later in
    found (ref_id n)
    ∙ rw
        (str_eq-false (ref_id (s.ref_counter + 1)) (ref_id n)
          λ e. absurd (omega (arith, ref_id_injective _ n e)))
        (fresh n (omega arith))

-- No reference that names an object is lost or changed.
abbrev pub Keeps : Session → Session → Type 0
Keeps s s' = (j : Str) (o : ℕ) → get_local_ref j s ≡ some o → get_local_ref j s' ≡ some o

register-Keeps :
    (o : ℕ) (s : Session) → s.ref_counter + 1 < 2 ^ 64 → IsFresh s → Keeps s (register o s).1
register-Keeps o s small fresh j p h =
    (register_lem o s small).1 j
    ∙ rw
        (str_eq-false (ref_id (s.ref_counter + 1)) j
          λ e. cc (fresh (s.ref_counter + 1) (omega arith), e, h))
        h

pub register_all_lem :
    (os : List ℕ) (s : Session)
    → IsFresh s
    → s.ref_counter + length os < 2 ^ 64
    → let s' = register_all os s in
      (s'.ref_counter ≡ s.ref_counter + length os)
      × IsFresh s'
      × Keeps s s'
      × ((i : ℕ) (o : ℕ)
          → get_elem? os i ≡ some o
          → get_local_ref (ref_id (s.ref_counter + suc i)) s' ≡ some o)
unfolding register_all
register_all_lem [] s fresh small = (omega arith, fresh, λ j o h. h, λ i o h. cc)
register_all_lem (o ∷ os) s fresh small =
    let (counter, found) = register_lem o s (omega arith) in
    let (total, fresh', keeps, later) =
      register_all_lem os (register o s).1 (register-IsFresh o s (omega arith) fresh)
        (rw counter (omega arith)) in
    (
      total ∙ rw counter (omega arith),
      fresh',
      λ j p h. keeps j p (register-Keeps o s (omega arith) fresh j p h),
      elim [
        | zero ↦ λ p h.
            keeps (ref_id (s.ref_counter + 1)) p
              (found (ref_id (s.ref_counter + 1)) ∙ rw (str_eq_refl (ref_id (s.ref_counter + 1))) h)
        | suc i ↦ λ p h.
            subst (λ k. get_local_ref (ref_id k) (register_all os (register o s).1) ≡ some p)
              (omega (arith, counter)) (later i p h)
      ],
    )

-- On a session whose references to come are unused, while the counter does not wrap, processing a
-- result gives the i-th object that the walk reaches the
-- i-th next reference.
pub process_result_named :
    (v : Any) (s : Session) (i o : ℕ)
    → IsFresh s
    → s.ref_counter + length (objects v) < 2 ^ 64
    → get_elem? (objects v) i ≡ some o
    → get_local_ref (ref_id (s.ref_counter + suc i)) (process_result v s).1 ≡ some o
process_result_named v s i o fresh small at =
    let (total, later, keeps, named) = register_all_lem (objects v) s fresh small in
    rw (process_result-register_all v s) (named i o at)

-- While the counter does not wrap, processing a result changes no reference that names an object, and
-- leaves the references to come unused.
pub process_result_keeps :
    (v : Any) (s : Session) (j : Str) (o : ℕ)
    → IsFresh s
    → s.ref_counter + length (objects v) < 2 ^ 64
    → get_local_ref j s ≡ some o
    → (get_local_ref j (process_result v s).1 ≡ some o) × IsFresh (process_result v s).1
process_result_keeps v s j o fresh small at =
    let (total, later, keeps, named) = register_all_lem (objects v) s fresh small in
    rw (process_result-register_all v s) (keeps j o at, later)
