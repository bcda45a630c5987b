-- ===== src/Walk/Typed.antt =====
-- Objects in places of the static type `Object`, which a reference does not fit.
use jsonrpc.Base.{ℕ, ◌≡◌, refl, true, List, [], ◌∷◌, Str, ap, Bool, false, if◌then◌else◌, ◌∙◌}
use jsonrpc.Any.{
  nil, object, slice, struct, Items, no_items, item, Fields, no_fields, field, object_type,
  deep_equal,
}
use jsonrpc.Session.{Session}
use jsonrpc.Walk.{
  walk_value, walk_items, walk_fields, register, process_result, is_assignable, zero_field,
}
use jsonrpc.Walk.Registered.{objects, item_objects, register_all, process_result-register_all}

-- The elements of a `[]Object`.
abbrev pub object_items : List ℕ → Items
object_items [] = no_items
object_items (o ∷ os) = item (object o) (object_items os)

-- A struct with exported fields of type `Object`, each with an object.
abbrev pub object_fields : List (Str × ℕ) → Fields
object_fields [] = no_fields
object_fields ((n, o) ∷ fs) = field n true object_type (object o) (object_fields fs)

-- The same struct with every field nil.
abbrev pub nil_fields : List (Str × ℕ) → Fields
nil_fields [] = no_fields
nil_fields ((n, o) ∷ fs) = field n true object_type nil (nil_fields fs)

items_kept :
    (os : List ℕ) (s : Session) → (walk_items (object_items os) object_type s).0 ≡ object_items os
unfolding walk_items walk_value register is_assignable
items_kept [] s = refl
items_kept (o ∷ os) s = ap (item (object o)) (items_kept os _)

items_objects : (os : List ℕ) → item_objects (object_items os) ≡ os
unfolding item_objects
items_objects [] = refl
items_objects (o ∷ os) = ap (λ r. o ∷ r) (items_objects os)

if_same : {A : Type 0} (b : Bool) (x y : A) → x ≡ y → (if b then x else y) ≡ y
if_same true x y e = e
if_same false x y e = refl

-- The objects in a `[]Object` are registered in order, and stay in the result: no reference
-- replaces them.
pub process_result_object_slice :
    (os : List ℕ) (s : Session)
    → ((process_result (slice object_type (object_items os)) s).0
        ≡ slice object_type (object_items os))
      × ((process_result (slice object_type (object_items os)) s).1 ≡ register_all os s)
unfolding process_result walk_value objects
process_result_object_slice os s = (
  if_same (walk_items (object_items os) object_type s).1 _ _
      (ap (slice object_type) (items_kept os s)),
  process_result-register_all (slice object_type (object_items os)) s ∙ rw (items_objects os),
)

fields_dropped :
    (fs : List (Str × ℕ)) (s : Session) → (walk_fields (object_fields fs) s).0 ≡ nil_fields fs
unfolding walk_fields walk_value register is_assignable zero_field deep_equal
fields_dropped [] s = refl
fields_dropped ((n, o) ∷ fs) s = ap (field n true object_type nil) (fields_dropped fs _)

-- The objects in a struct whose fields, one at least, are all exported ones of type `Object` are
-- lost from the result: the fields are nil.
pub process_result-object_fields :
    (n : Str) (o : ℕ) (fs : List (Str × ℕ)) (s : Session)
    → (process_result (struct (object_fields ((n, o) ∷ fs))) s).0
      ≡ struct (nil_fields ((n, o) ∷ fs))
unfolding process_result walk_value walk_fields register deep_equal
process_result-object_fields n o fs s = ap struct (fields_dropped ((n, o) ∷ fs) s)
