-- ===== src/MethodMap.antt =====
-- Objects made of functions: go/jsonrpc3/helpers.go.
-- `F` stands for the functions that handle the methods, and `R` for what a call of one returns.
pub mod Calls
mod Tests
use jsonrpc.Base.{
  Bool, Option, none, some, List, [], ◌∷◌, ◌++◌, Str, codes, str_eq, is_empty, if◌then◌else◌,
}
use jsonrpc.Base.Dict.{Dict, lookup, insert}
use jsonrpc.Any.{Any, nil, is_nil}
use jsonrpc.Message.{Error}
use jsonrpc.Message.Errors.{new_method_not_found_error}

pub record MethodInfo (F : Type 0) : Type 0 where
  pub name : Str
  pub description : Str
  pub params : Any
  pub category : Str
  pub handler : F

-- The options that the package provides. `WithParams` and `WithPositionalParams` both set the parameters.
pub data RegisterOption : Type 0 where
  with_description : Str → RegisterOption
  with_params : Any → RegisterOption
  with_category : Str → RegisterOption

pub record MethodMap (F : Type 0) : Type 0 where
  pub methods : Dict (MethodInfo F)
  pub type_name : Str

-- One entry of what `$methods` returns: a field is left out if it is empty.
pub record MethodEntry : Type 0 where
  pub name : Str
  pub description : Option Str
  pub params : Option Any
  pub category : Option Str

abbrev unless_empty : Str → Option Str
unless_empty s = if is_empty s then none else some s

abbrev unless_nil : Any → Option Any
unless_nil v = if is_nil v then none else some v

abbrev bare_entry : Str → MethodEntry
bare_entry name = record { name = name; description = none; params = none; category = none }

-- What a call of a method map returns.
pub data MethodResult (R : Type 0) : Type 0 where
  introspected : List MethodEntry → MethodResult R
  type_text : Str → MethodResult R
  not_found : Error → MethodResult R
  handled : R → MethodResult R

module _ {F : Type 0} where
  -- `NewMethodMap`
  abbrev pub new_method_map : MethodMap F
  new_method_map = record { methods = []; type_name = [] }

  abbrev apply_option : RegisterOption → MethodInfo F → MethodInfo F
  apply_option (with_description d) info = record info { description = d }
  apply_option (with_params ps) info = record info { params = ps }
  apply_option (with_category c) info = record info { category = c }

  abbrev apply_options : List RegisterOption → MethodInfo F → MethodInfo F
  apply_options [] info = info
  apply_options (o ∷ os) info = apply_options os (apply_option o info)

  -- `Register`
  unfoldable pub register_method : Str → F → List RegisterOption → MethodMap F → MethodMap F
  register_method method fn opts m =
      let info : MethodInfo F = record {
        name = method;
        description = [];
        params = nil;
        category = [];
        handler = fn;
      } in
      record m { methods = insert method (apply_options opts info) m.methods }

  -- `getMethods`
  abbrev method_entry : MethodInfo F → MethodEntry
  method_entry info = record {
    name = info.name;
    description = unless_empty info.description;
    params = unless_nil info.params;
    category = unless_empty info.category;
  }

  abbrev method_entries : Dict (MethodInfo F) → List MethodEntry
  method_entries [] = []
  method_entries ((key, info) ∷ d) = method_entry info ∷ method_entries d

  unfoldable pub get_methods : MethodMap F → List MethodEntry
  get_methods m =
      method_entries m.methods ++ bare_entry (codes "$methods") ∷ bare_entry (codes "$type") ∷ []

  -- `getType`
  unfoldable pub get_type : MethodMap F → Str
  get_type m = if is_empty m.type_name then codes "MethodMap" else m.type_name

  module _ {R : Type 0} (run : F → R) where
    abbrev call_info : Str → Option (MethodInfo F) → MethodResult R
    call_info method none = not_found (new_method_not_found_error method)
    call_info method (some info) = handled (run info.handler)

    -- `CallMethod`, with the run of a function on the call's parameters and caller.
    unfoldable pub call_map_method : Str → MethodMap F → MethodResult R
    unfolding get_methods get_type
    call_map_method method m =
        if str_eq method (codes "$methods")
        then introspected (get_methods m)
        else if str_eq method (codes "$type")
        then type_text (get_type m)
        else call_info method (lookup method m.methods)
