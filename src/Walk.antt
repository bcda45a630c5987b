-- ===== src/Walk.antt =====
-- The search for objects in a result: go/jsonrpc3/refwalk.go.
-- `reflect` is modelled by the constructors of `Any`. The session of the handler is passed along.
-- A map is visited in the order of its entries. The target of a pointer is no object and no
-- `json.Marshaler`: a pointer to one of those is itself one, and is written as such.
pub mod Registered
pub mod Clean
pub mod Typed
mod Tests
use jsonrpc.Base.{ℕ, Bool, true, false, not, ◌||◌, [], Str, if◌then◌else◌}
use jsonrpc.Any.{
  ElemType, any_type, object_type, concrete, MapType, Any, nil, bool, number, text, object,
  reference, marshaler, pointer, slice, mapping, struct, Items, no_items, item, Entries, no_entries,
  entry, Fields, no_fields, field, elem_type, deep_equal,
}
use jsonrpc.Session.{Session, generate_ref_id, add_local_ref}

-- A new reference to an object.
unfoldable pub register : ℕ → Session → Any × Session
register obj s = let (s1, ref) = generate_ref_id s in (reference ref, (add_local_ref ref obj s1).0)

-- `Type.AssignableTo` for the walked value `y` of an element `x` of a static type: an object has
-- become a reference, and a pointer what it points to.
unfoldable pub is_assignable : ElemType → Any → Any → Bool
is_assignable any_type x y = true
is_assignable object_type x nil = true
is_assignable object_type x (object o) = true
is_assignable object_type x _ = false
is_assignable concrete (object o) y = false
is_assignable concrete (pointer v) y = false
is_assignable concrete _ y = true

-- The value that an element is left with.
abbrev pub assign : ElemType → Any → Any → Any
assign t x y = if is_assignable t x y then y else x

-- The zero value of a value's type.
mutual
  zero : Any → Any
  zero nil = nil
  zero (bool b) = bool false
  zero (number k n) = number k 0
  zero (text s) = text []
  zero (object o) = nil
  zero (reference r) = reference []
  zero (marshaler m) = nil
  zero (pointer v) = nil
  zero (slice t xs) = nil
  zero (mapping t xs) = nil
  zero (struct fs) = struct (zero_fields fs)

  zero_fields : Fields → Fields
  zero_fields no_fields = no_fields
  zero_fields (field n e t x fs) = field n e t (zero x) (zero_fields fs)

-- The zero value of a field: `any` and `Object` are nil.
zero_field : ElemType → Any → Any
unfolding zero
zero_field any_type x = nil
zero_field object_type x = nil
zero_field concrete x = zero x

-- The field of a new struct: a field that did not change is copied, and one whose new value cannot
-- be assigned keeps its zero value.
abbrev new_field : ElemType → Any → Any → Any
new_field t x y = if deep_equal x y then x else if is_assignable t x y then y else zero_field t x

unfoldable mutual
  unfolding zero_field

  -- `walkValue`
  pub walk_value : Any → Session → Any × Session
  walk_value (object obj) s = register obj s
  walk_value (pointer v) s = walk_target v s
  walk_value (slice t xs) s =
      let (ys, modified, s') = walk_items xs t s in
      (if modified then slice t ys else slice t xs, s')
  walk_value (mapping t xs) s =
      let (ys, modified, s') = walk_entries xs t s in
      (if modified then mapping t ys else mapping t xs, s')
  walk_value (struct fs) s =
      let (gs, modified, s') = walk_fields fs s in (if modified then struct gs else struct fs, s')
  walk_value v s = (v, s)

  -- The loop that follows pointers, and the switch behind it.
  pub walk_target : Any → Session → Any × Session
  walk_target (pointer v) s = walk_target v s
  walk_target (slice t xs) s =
      let (ys, modified, s') = walk_items xs t s in
      (if modified then slice t ys else slice t xs, s')
  walk_target (mapping t xs) s =
      let (ys, modified, s') = walk_entries xs t s in
      (if modified then mapping t ys else mapping t xs, s')
  walk_target (struct fs) s =
      let (gs, modified, s') = walk_fields fs s in (if modified then struct gs else struct fs, s')
  walk_target v s = (v, s)

  -- The loop of `walkSlice`.
  pub walk_items : Items → ElemType → Session → Items × Bool × Session
  walk_items no_items t s = (no_items, false, s)
  walk_items (item x xs) t s =
      let (y, s1) = walk_value x s in
      let (ys, modified, s2) = walk_items xs t s1 in
      (item (assign t x y) ys, not (deep_equal x y) || modified, s2)

  -- The loop of `walkMap`.
  pub walk_entries : Entries → MapType → Session → Entries × Bool × Session
  walk_entries no_entries t s = (no_entries, false, s)
  walk_entries (entry k x xs) t s =
      let (y, s1) = walk_value x s in
      let (ys, modified, s2) = walk_entries xs t s1 in
      (entry k (assign (elem_type t) x y) ys, not (deep_equal x y) || modified, s2)

  -- The two loops of `walkStruct`: a field that is not exported is not visited, and keeps its zero
  -- value in a new struct.
  pub walk_fields : Fields → Session → Fields × Bool × Session
  walk_fields no_fields s = (no_fields, false, s)
  walk_fields (field n false t x fs) s =
      let (gs, modified, s') = walk_fields fs s in
      (field n false t (zero_field t x) gs, modified, s')
  walk_fields (field n true t x fs) s =
      let (y, s1) = walk_value x s in
      let (gs, modified, s2) = walk_fields fs s1 in
      (field n true t (new_field t x y) gs, not (deep_equal x y) || modified, s2)

-- `processResult`; on nil it does nothing.
unfoldable pub process_result : Any → Session → Any × Session
process_result result s = walk_value result s
