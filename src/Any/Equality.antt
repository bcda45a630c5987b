-- ===== src/Any/Equality.antt =====
-- `reflect.DeepEqual`: the same type and the same contents.
use jsonrpc.Base.{
  ℕ, Bool, true, false, ◌&&◌, ◌==◌, str_eq, str_eq_iff, ◌≡◌, arith, refl, ==_iff, and_true,
  false-ne-true, ap,
}
use mathlib.Core.Path.{ap₂}
use jsonrpc.Any.Data.{
  NumberKind, float64, int64, int, int32, uint, uint32, uint64, ElemType, any_type, object_type,
  concrete, MapType, string_any, any_any, other_map, Any, nil, bool, number, text, object,
  reference, marshaler, pointer, slice, mapping, struct, Items, no_items, item, Entries, no_entries,
  entry, Fields, no_fields, field,
}

bool_eq : Bool → Bool → Bool
bool_eq true b = b
bool_eq false true = false
bool_eq false false = true

kind_code : NumberKind → ℕ
kind_code float64 = 0
kind_code int64 = 1
kind_code int = 2
kind_code int32 = 3
kind_code uint = 4
kind_code uint32 = 5
kind_code uint64 = 6

elem_code : ElemType → ℕ
elem_code any_type = 0
elem_code object_type = 1
elem_code concrete = 2

map_code : MapType → ℕ
unfolding elem_code
map_code string_any = 3
map_code any_any = 4
map_code (other_map t) = elem_code t

unfoldable mutual
  unfolding bool_eq kind_code elem_code map_code

  pub deep_equal : Any → Any → Bool
  deep_equal nil nil = true
  deep_equal (bool a) (bool b) = bool_eq a b
  deep_equal (number k n) (number j m) = kind_code k == kind_code j && n == m
  deep_equal (text a) (text b) = str_eq a b
  deep_equal (object a) (object b) = a == b
  deep_equal (reference a) (reference b) = str_eq a b
  deep_equal (marshaler a) (marshaler b) = a == b
  deep_equal (pointer a) (pointer b) = deep_equal a b
  deep_equal (slice t xs) (slice u ys) = elem_code t == elem_code u && deep_equal_items xs ys
  deep_equal (mapping t xs) (mapping u ys) = map_code t == map_code u && deep_equal_entries xs ys
  deep_equal (struct fs) (struct gs) = deep_equal_fields fs gs
  deep_equal _ _ = false

  pub deep_equal_items : Items → Items → Bool
  deep_equal_items no_items no_items = true
  deep_equal_items (item x xs) (item y ys) = deep_equal x y && deep_equal_items xs ys
  deep_equal_items _ _ = false

  pub deep_equal_entries : Entries → Entries → Bool
  deep_equal_entries no_entries no_entries = true
  deep_equal_entries (entry k x xs) (entry j y ys) =
      deep_equal k j && (deep_equal x y && deep_equal_entries xs ys)
  deep_equal_entries _ _ = false

  pub deep_equal_fields : Fields → Fields → Bool
  deep_equal_fields no_fields no_fields = true
  deep_equal_fields (field n e t x xs) (field m d u y ys) =
      str_eq n m
      && (bool_eq e d
          && (elem_code t == elem_code u && (deep_equal x y && deep_equal_fields xs ys)))
  deep_equal_fields _ _ = false

kind_code_injective : (a b : NumberKind) → kind_code a ≡ kind_code b → a ≡ b
unfolding kind_code
kind_code_injective a b h = ground arith

elem_code_injective : (a b : ElemType) → elem_code a ≡ elem_code b → a ≡ b
unfolding elem_code
elem_code_injective a b h = ground arith

map_code_injective : (a b : MapType) → map_code a ≡ map_code b → a ≡ b
unfolding map_code elem_code
map_code_injective a b h = ground arith

bool_eq_sound : (a b : Bool) → bool_eq a b ≡ true → a ≡ b
unfolding bool_eq
bool_eq_sound a b h = ground arith

mutual
  unfolding deep_equal deep_equal_items deep_equal_entries deep_equal_fields

  sound : (a b : Any) → deep_equal a b ≡ true → a ≡ b
  sound nil nil h = refl
  sound (bool a) (bool b) h = ap bool (bool_eq_sound a b h)
  sound (number k n) (number j m) h =
      let (p, q) = and_true (kind_code k == kind_code j) (n == m) h in
      ap₂ number (kind_code_injective k j ((==_iff _ _).0 p)) ((==_iff _ _).0 q)
  sound (text a) (text b) h = ap text ((str_eq_iff a b).0 h)
  sound (object a) (object b) h = ap object ((==_iff a b).0 h)
  sound (reference a) (reference b) h = ap reference ((str_eq_iff a b).0 h)
  sound (marshaler a) (marshaler b) h = ap marshaler ((==_iff a b).0 h)
  sound (pointer a) (pointer b) h = ap pointer (sound a b h)
  sound (slice t xs) (slice u ys) h =
      let (p, q) = and_true (elem_code t == elem_code u) (deep_equal_items xs ys) h in
      ap₂ slice (elem_code_injective t u ((==_iff _ _).0 p)) (sound_items xs ys q)
  sound (mapping t xs) (mapping u ys) h =
      let (p, q) = and_true (map_code t == map_code u) (deep_equal_entries xs ys) h in
      ap₂ mapping (map_code_injective t u ((==_iff _ _).0 p)) (sound_entries xs ys q)
  sound (struct fs) (struct gs) h = ap struct (sound_fields fs gs h)
  sound _ _ h = false-ne-true h

  sound_items : (xs ys : Items) → deep_equal_items xs ys ≡ true → xs ≡ ys
  sound_items no_items no_items h = refl
  sound_items (item x xs) (item y ys) h =
      let (p, q) = and_true (deep_equal x y) (deep_equal_items xs ys) h in
      ap₂ item (sound x y p) (sound_items xs ys q)
  sound_items _ _ h = false-ne-true h

  sound_entries : (xs ys : Entries) → deep_equal_entries xs ys ≡ true → xs ≡ ys
  sound_entries no_entries no_entries h = refl
  sound_entries (entry k x xs) (entry j y ys) h =
      let (p, q) = and_true (deep_equal k j) _ h in
      let (r, t) = and_true (deep_equal x y) _ q in
      cc (sound k j p, sound x y r, sound_entries xs ys t)
  sound_entries _ _ h = false-ne-true h

  sound_fields : (xs ys : Fields) → deep_equal_fields xs ys ≡ true → xs ≡ ys
  sound_fields no_fields no_fields h = refl
  sound_fields (field n e t x xs) (field m d u y ys) h =
      let (p, q) = and_true (str_eq n m) _ h in
      let (r, s) = and_true (bool_eq e d) _ q in
      let (v, w) = and_true (elem_code t == elem_code u) _ s in
      let (a, b) = and_true (deep_equal x y) (deep_equal_fields xs ys) w in
      cc (
        (str_eq_iff n m).0 p,
        bool_eq_sound e d r,
        elem_code_injective t u ((==_iff _ _).0 v),
        sound x y a,
        sound_fields xs ys b,
      )
  sound_fields _ _ h = false-ne-true h

-- Values that are deeply equal are equal.
pub deep_equal_sound : (a b : Any) → deep_equal a b ≡ true → a ≡ b
deep_equal_sound = sound
