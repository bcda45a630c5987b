-- ===== src/Walk/Clean.antt =====
-- What is left of the objects in a processed result.
use jsonrpc.Base.{
  ℕ, ◌≡◌, refl, Bool, true, false, not, ◌||◌, List, [], ◌++◌, arith, ◌∙◌, ap, if◌then◌else◌, inl,
  inr, Bool-cases,
}
use jsonrpc.Any.{
  Any, object, pointer, slice, mapping, struct, Items, no_items, item, Entries, no_entries, entry,
  Fields, no_fields, field, ElemType, any_type, MapType, deep_equal, elem_type,
}
use jsonrpc.Any.Equality.{deep_equal_sound}
use jsonrpc.Session.{Session}
use jsonrpc.Walk.{
  walk_value, walk_target, walk_items, walk_entries, walk_fields, register, process_result,
  is_assignable, assign, new_field,
}
use jsonrpc.Walk.Registered.{objects, target_objects, item_objects, entry_objects, field_objects}

-- Every place that a reference has to fit is of type `any`: the elements of slices and maps, and the
-- exported fields. No pointer leads to an object that it is not itself.
abbrev mutual
  pub IsOpen : Any → Type 0
  IsOpen (pointer v) = IsOpenTarget v
  IsOpen (slice t xs) = (t ≡ any_type) × IsOpenItems xs
  IsOpen (mapping t xs) = (elem_type t ≡ any_type) × IsOpenEntries xs
  IsOpen (struct fs) = IsOpenFields fs
  IsOpen _ = Unit

  pub IsOpenTarget : Any → Type 0
  IsOpenTarget (object o) = ⊥
  IsOpenTarget (pointer v) = IsOpenTarget v
  IsOpenTarget (slice t xs) = (t ≡ any_type) × IsOpenItems xs
  IsOpenTarget (mapping t xs) = (elem_type t ≡ any_type) × IsOpenEntries xs
  IsOpenTarget (struct fs) = IsOpenFields fs
  IsOpenTarget _ = Unit

  pub IsOpenItems : Items → Type 0
  IsOpenItems no_items = Unit
  IsOpenItems (item x xs) = IsOpen x × IsOpenItems xs

  pub IsOpenEntries : Entries → Type 0
  IsOpenEntries no_entries = Unit
  IsOpenEntries (entry k x xs) = IsOpen x × IsOpenEntries xs

  pub IsOpenFields : Fields → Type 0
  IsOpenFields no_fields = Unit
  IsOpenFields (field n false t x fs) = IsOpenFields fs
  IsOpenFields (field n true t x fs) = (t ≡ any_type) × IsOpen x × IsOpenFields fs

if_cases :
    {A : Type 0} (P : A → Type 0) (b : Bool) (x y : A)
    → P x
    → (b ≡ false → P y)
    → P (if b then x else y)
if_cases P true x y p q = p
if_cases P false x y p q = q refl

or_false : (a b : Bool) → (a || b) ≡ false → (a ≡ false) × (b ≡ false)
or_false a b h = ground arith

not-false : (a : Bool) → not a ≡ false → a ≡ true
not-false a h = ground arith

append_nil : (xs ys : List ℕ) → xs ≡ [] → ys ≡ [] → xs ++ ys ≡ []
append_nil xs ys p q = rw (p, q)

assign_any : (t : ElemType) (x y : Any) → t ≡ any_type → assign t x y ≡ y
unfolding is_assignable
assign_any t x y e = rw e

-- An element that is deeply equal to its walked value held no object.
unchanged : (x y : Any) → objects y ≡ [] → not (deep_equal x y) ≡ false → objects x ≡ []
unchanged x y clean same = ap objects (deep_equal_sound x y (not-false _ same)) ∙ clean

new_field_clean :
    (t : ElemType) (x y : Any) → t ≡ any_type → objects y ≡ [] → objects (new_field t x y) ≡ []
unfolding is_assignable
new_field_clean t x y e clean = elim (Bool-cases (deep_equal x y)) [
  | inl h ↦ rw h (ap objects (deep_equal_sound x y h) ∙ clean)
  | inr h ↦ rw (h, e) clean
]

mutual
  unfolding walk_value walk_target walk_items walk_entries walk_fields objects target_objects
      item_objects entry_objects field_objects register

  value_clean : (v : Any) (s : Session) → IsOpen v → objects (walk_value v s).0 ≡ []
  value_clean (object o) s h = refl
  value_clean (pointer v) s h = target_clean v s h
  value_clean (slice t xs) s (e, h) =
      let (walked, same) = items_clean xs t s e h in
      if_cases (λ v. objects v ≡ []) (walk_items xs t s).1 _ _ walked same
  value_clean (mapping t xs) s (e, h) =
      let (walked, same) = entries_clean xs t s e h in
      if_cases (λ v. objects v ≡ []) (walk_entries xs t s).1 _ _ walked same
  value_clean (struct fs) s h =
      let (walked, same) = fields_clean fs s h in
      if_cases (λ v. objects v ≡ []) (walk_fields fs s).1 _ _ walked same
  value_clean _ s h = refl

  target_clean : (v : Any) (s : Session) → IsOpenTarget v → objects (walk_target v s).0 ≡ []
  target_clean (object o) s h = absurd h
  target_clean (pointer v) s h = target_clean v s h
  target_clean (slice t xs) s (e, h) =
      let (walked, same) = items_clean xs t s e h in
      if_cases (λ v. objects v ≡ []) (walk_items xs t s).1 _ _ walked same
  target_clean (mapping t xs) s (e, h) =
      let (walked, same) = entries_clean xs t s e h in
      if_cases (λ v. objects v ≡ []) (walk_entries xs t s).1 _ _ walked same
  target_clean (struct fs) s h =
      let (walked, same) = fields_clean fs s h in
      if_cases (λ v. objects v ≡ []) (walk_fields fs s).1 _ _ walked same
  target_clean _ s h = refl

  items_clean :
      (xs : Items) (t : ElemType) (s : Session)
      → t ≡ any_type
      → IsOpenItems xs
      → let (ys, modified, s') = walk_items xs t s in
        (item_objects ys ≡ []) × (modified ≡ false → item_objects xs ≡ [])
  items_clean no_items t s e h = (refl, λ m. refl)
  items_clean (item x xs) t s e (hx, hs) =
      let clean = value_clean x s hx in
      let (walked, same) = items_clean xs t (walk_value x s).1 e hs in
      (
        append_nil _ _ (ap objects (assign_any t x _ e) ∙ clean) walked,
        λ m. let (p, q) = or_false _ _ m in append_nil _ _ (unchanged x _ clean p) (same q),
      )

  entries_clean :
      (xs : Entries) (t : MapType) (s : Session)
      → elem_type t ≡ any_type
      → IsOpenEntries xs
      → let (ys, modified, s') = walk_entries xs t s in
        (entry_objects ys ≡ []) × (modified ≡ false → entry_objects xs ≡ [])
  entries_clean no_entries t s e h = (refl, λ m. refl)
  entries_clean (entry k x xs) t s e (hx, hs) =
      let clean = value_clean x s hx in
      let (walked, same) = entries_clean xs t (walk_value x s).1 e hs in
      (
        append_nil _ _ (ap objects (assign_any (elem_type t) x _ e) ∙ clean) walked,
        λ m. let (p, q) = or_false _ _ m in append_nil _ _ (unchanged x _ clean p) (same q),
      )

  fields_clean :
      (fs : Fields) (s : Session)
      → IsOpenFields fs
      → let (gs, modified, s') = walk_fields fs s in
        (field_objects gs ≡ []) × (modified ≡ false → field_objects fs ≡ [])
  fields_clean no_fields s h = (refl, λ m. refl)
  fields_clean (field n false t x fs) s h = fields_clean fs s h
  fields_clean (field n true t x fs) s (e, hx, hs) =
      let clean = value_clean x s hx in
      let (walked, same) = fields_clean fs (walk_value x s).1 hs in
      (
        append_nil _ _ (new_field_clean t x _ e clean) walked,
        λ m. let (p, q) = or_false _ _ m in append_nil _ _ (unchanged x _ clean p) (same q),
      )

-- In a processed result whose containers and exported fields take any value, and in which no
-- pointer leads to an object that it is not itself, no object is left that the walk reaches.
pub process_result_clean : (v : Any) (s : Session) → IsOpen v → objects (process_result v s).0 ≡ []
unfolding process_result
process_result_clean v s h = value_clean v s h
