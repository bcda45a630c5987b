-- ===== src/Any/Data.antt =====
-- The values. An object (a value that implements `Object`) and a value that implements
-- `json.Marshaler` are pointers, known by a number.
use jsonrpc.Base.{ℕ, Bool, true, false, Str}

pub data NumberKind : Type 0 where
  float64 int64 int int32 uint uint32 uint64 : NumberKind

-- The static type of an element or a field: `any`, the interface `Object`, or any other type, which
-- the element's own type is.
pub data ElemType : Type 0 where
  any_type object_type concrete : ElemType

-- The type of a map: `map[string]any`, `map[interface{}]interface{}`, or another with its element
-- type.
pub data MapType : Type 0 where
  string_any any_any : MapType
  other_map : ElemType → MapType

mutual
  pub data Any : Type 0 where
    nil : Any
    bool : Bool → Any
    number : NumberKind → ℕ → Any
    text : Str → Any
    object : ℕ → Any
    reference : Str → Any
    marshaler : ℕ → Any
    pointer : Any → Any
    slice : ElemType → Items → Any
    mapping : MapType → Entries → Any
    struct : Fields → Any

  pub data Items : Type 0 where
    no_items : Items
    item : Any → Items → Items

  pub data Entries : Type 0 where
    no_entries : Entries
    entry : Any → Any → Entries → Entries

  -- A field has a name, a mark that it is exported, a static type and a value.
  pub data Fields : Type 0 where
    no_fields : Fields
    field : Str → Bool → ElemType → Any → Fields → Fields

-- `v == nil`
abbrev pub is_nil : Any → Bool
is_nil nil = true
is_nil _ = false

-- The element type of a map.
abbrev pub elem_type : MapType → ElemType
elem_type string_any = any_type
elem_type any_any = any_type
elem_type (other_map t) = t
