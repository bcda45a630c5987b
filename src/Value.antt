-- ===== src/Value.antt =====
-- `Value`, a result that is decoded when it is first looked at: go/jsonrpc3/jsonrpc3.go.
-- The accessors give the value back, since they keep what they decoded in it; the calls that an
-- accessor makes of others do not decode again. `sprint` stands for `fmt.Sprint`.
pub mod Kinds
pub mod Elements
pub mod Natives
pub mod Numbers
mod Tests
use jsonrpc.Base.{
  ℕ, zero, suc, ◌+◌, ltb, Bool, true, false, not, ◌&&◌, ◌||◌, Option, none, some, is_some, List, [],
  ◌∷◌, ◌++◌, Str, codes, str_eq, Result, ok, err, if◌then◌else◌,
}
use jsonrpc.Base.Int.{ℤ, pos, negsuc}
use jsonrpc.Any.{
  Any, nil, bool, number, text, slice, mapping, any_type, string_any, any_any, Items, no_items,
  item, Entries, no_entries, entry, is_nil,
}
use jsonrpc.Mime.{Codec, get_codec, mime_type_json}
use jsonrpc.Message.{RawMessage}
use jsonrpc.Enhanced.{
  ValueCodecs, Native, plain, date_time, byte_string, big_int, reg_exp, find_key, is_enhanced_type,
  decode_enhanced_type, type_date_time, type_bytes, type_big_int, type_reg_exp,
}

-- `Kind`
pub data Kind : Type 0 where
  invalid_kind null_kind bool_kind int_kind float_kind string_kind array_kind object_kind : Kind
  reference_kind date_time_kind bytes_kind big_int_kind reg_exp_kind : Kind

-- `Kind.String`, on the kinds that are named
abbrev pub kind_string : Kind → Str
kind_string invalid_kind = codes "invalid"
kind_string null_kind = codes "null"
kind_string bool_kind = codes "bool"
kind_string int_kind = codes "int"
kind_string float_kind = codes "float"
kind_string string_kind = codes "string"
kind_string array_kind = codes "array"
kind_string object_kind = codes "object"
kind_string reference_kind = codes "reference"
kind_string date_time_kind = codes "datetime"
kind_string bytes_kind = codes "bytes"
kind_string big_int_kind = codes "bigint"
kind_string reg_exp_kind = codes "regexp"

-- `Value`. The codec of the zero value is nil; it has no data, so that it never asks for the codec.
pub record Value : Type 0 where
  pub data_bytes : RawMessage
  pub codec : Option Codec
  pub cached : Any
  pub is_decoded : Bool

-- `Value{}`
abbrev pub zero_value : Value
zero_value = record { data_bytes = none; codec = none; cached = nil; is_decoded = false }

-- `NewValueWithCodec`
abbrev pub new_value_with_codec : RawMessage → Codec → Value
new_value_with_codec bytes codec = record {
  data_bytes = bytes;
  codec = some codec;
  cached = nil;
  is_decoded = false;
}

-- `NilValue`
abbrev pub nil_value : Value
nil_value = new_value_with_codec none (get_codec mime_type_json)

abbrev pub has_key : Str → Entries → Bool
has_key key xs = is_some (find_key key xs)

-- `IsReference`, of what was decoded.
unfoldable pub is_reference_any : Any → Bool
unfolding find_key
is_reference_any (mapping string_any xs) = has_key (codes "$ref") xs
is_reference_any (mapping any_any xs) = has_key (codes "$ref") xs
is_reference_any _ = false

abbrev pub basic_kind : Any → Kind
basic_kind (bool b) = bool_kind
basic_kind (number k n) = float_kind
basic_kind (text s) = string_kind
basic_kind (slice any_type xs) = array_kind
basic_kind (mapping string_any xs) = object_kind
basic_kind (mapping any_any xs) = object_kind
basic_kind _ = invalid_kind

abbrev pub enhanced_kind : Any → Option Str → Kind
enhanced_kind v none = basic_kind v
enhanced_kind v (some name) =
    if str_eq name type_date_time
    then date_time_kind
    else if str_eq name type_bytes
    then bytes_kind
    else if str_eq name type_big_int
    then big_int_kind
    else if str_eq name type_reg_exp
    then reg_exp_kind
    else basic_kind v

-- The kind of a decoded value.
unfoldable pub kind_of : Any → Kind
unfolding is_reference_any is_enhanced_type
kind_of v =
    if is_nil v
    then null_kind
    else if is_reference_any v
    then reference_kind
    else enhanced_kind v (is_enhanced_type v)

-- `val, ok := v.cached.([]any)`, with an index.
unfoldable pub get_item : ℕ → Items → Option Any
get_item i no_items = none
get_item zero (item x xs) = some x
get_item (suc i) (item x xs) = get_item i xs

abbrev pub count_items : Items → ℕ
count_items no_items = 0
count_items (item x xs) = count_items xs + 1

abbrev pub count_entries : Entries → ℕ
count_entries no_entries = 0
count_entries (entry k x xs) = count_entries xs + 1

-- `Len`, of what was decoded.
unfoldable pub len_any : Any → ℕ
len_any (slice any_type xs) = count_items xs
len_any (mapping string_any xs) = count_entries xs
len_any _ = 0

-- The element at an index of a decoded array.
unfoldable pub element_at : ℤ → Any → Option Any
unfolding get_item
element_at (pos i) (slice any_type xs) = get_item i xs
element_at i v = none

module _ (codecs : ValueCodecs) (sprint : Any → Str) where
  open codecs use {marshal, unmarshal, unmarshal_reference}

  abbrev pub decoded_into : Value → Result Any → Value × Option Str
  decoded_into v (ok x) = (record v { cached = x; is_decoded = true }, none)
  decoded_into v (err e) = (v, some e)

  abbrev pub decode_data : Value → Option Codec → RawMessage → Value × Option Str
  decode_data v codec none = (record v { cached = nil; is_decoded = true }, none)
  decode_data v none (some bytes) = (v, some [])
  decode_data v (some codec) (some bytes) = decoded_into v (unmarshal codec bytes)

  -- `ensureDecoded`: the value after it, and the error. (There is no value with data and no codec.)
  unfoldable pub ensure_decoded : Value → Value × Option Str
  ensure_decoded v = if v.is_decoded then (v, none) else decode_data v v.codec v.data_bytes

  -- An accessor that reads what was decoded, with what it gives on an error.
  abbrev pub reading : {A : Type 0} → A → (Any → A) → Value × Option Str → Value × A
  reading otherwise f (v, none) = (v, f v.cached)
  reading otherwise f (v, some e) = (v, otherwise)

  -- `Kind`
  unfoldable pub kind : Value → Value × Kind
  unfolding ensure_decoded kind_of
  kind v = reading invalid_kind kind_of (ensure_decoded v)

  -- `IsNull`
  unfoldable pub is_null : Value → Value × Bool
  unfolding ensure_decoded
  is_null v = reading false is_nil (ensure_decoded v)

  abbrev pub printed : Any → Str
  printed (text s) = s
  printed x = sprint x

  -- `String`
  unfoldable pub string : Value → Value × Str
  unfolding ensure_decoded
  string v = reading [] printed (ensure_decoded v)

  abbrev pub as_bool : Any → Bool
  as_bool (bool b) = b
  as_bool _ = false

  -- `Bool`
  unfoldable pub bool_value : Value → Value × Bool
  unfolding ensure_decoded
  bool_value v = reading false as_bool (ensure_decoded v)

  -- `Len`
  unfoldable pub len : Value → Value × ℕ
  unfolding ensure_decoded len_any
  len v = reading 0 len_any (ensure_decoded v)

  -- `IsReference`
  unfoldable pub is_reference : Value → Value × Bool
  unfolding ensure_decoded is_reference_any
  is_reference v = reading false is_reference_any (ensure_decoded v)

  -- `IsEnhanced`
  unfoldable pub is_enhanced : Value → Value × Option Str
  unfolding ensure_decoded is_enhanced_type
  is_enhanced v = reading none is_enhanced_type (ensure_decoded v)

  abbrev pub encoded_value : Any → Option Codec → Result Str → Value
  encoded_value x codec (err e) = zero_value
  encoded_value x codec (ok bytes) = record {
    data_bytes = some bytes;
    codec = codec;
    cached = x;
    is_decoded = true;
  }

  -- The value of an element, which is encoded for its bytes.
  abbrev pub element_value : Any → Option Codec → Value
  element_value x none = zero_value
  element_value x (some codec) = encoded_value x (some codec) (marshal codec x)

  abbrev pub indexed : Option Codec → Option Any → Value
  indexed codec none = zero_value
  indexed codec (some x) = element_value x codec

  -- `Index`
  unfoldable pub index : ℤ → Value → Value × Value
  unfolding ensure_decoded element_at
  index i v = reading zero_value (λ x. indexed v.codec (element_at i x)) (ensure_decoded v)

  -- The value under a key: that of a missing key is nil.
  abbrev found_under : Option Codec → Option Any → Value
  found_under codec none = record {
    data_bytes = none;
    codec = codec;
    cached = nil;
    is_decoded = true;
  }
  found_under codec (some x) = element_value x codec

  abbrev pub map_element : Str → Option Codec → Any → Value
  map_element key codec (mapping string_any xs) = found_under codec (find_key key xs)
  map_element key codec _ = zero_value

  -- `MapIndex`
  unfoldable pub map_index : Str → Value → Value × Value
  unfolding ensure_decoded find_key
  map_index key v = reading zero_value (map_element key v.codec) (ensure_decoded v)
