-- ===== src/Enhanced.antt =====
-- Enhanced values, which a map with a `$type` stands for: go/jsonrpc3/enhanced.go. The encoders and
-- decoders of each type, the compiler of regular expressions included, are parameters.
use jsonrpc.Base.{
  ℕ, Bool, Option, none, some, [], ◌∷◌, ◌++◌, Str, codes, str_eq, Result, ok, err, if◌then◌else◌,
  ◌==◌,
}
use jsonrpc.Base.Int.{ℤ}
use jsonrpc.Any.{Any, text, mapping, string_any, any_any, Entries, no_entries, entry}
use jsonrpc.Mime.{Codec}

-- What `codec.Marshal` makes of a value, and `codec.Unmarshal` of bytes, by the type of its target. A
-- time is a number of nanoseconds, and a compiled expression a pointer, which may be nil.
pub record ValueCodecs : Type 0 where
  pub marshal : Codec → Any → Result Str
  pub unmarshal : Codec → Str → Result Any
  pub unmarshal_reference : Codec → Str → Result Str
  pub unmarshal_date_time : Codec → Str → Result ℤ
  pub unmarshal_bytes : Codec → Str → Result Str
  pub unmarshal_big_int : Codec → Str → Result ℤ
  pub unmarshal_reg_exp : Codec → Str → Result (Option ℕ)

-- The constants `TypeDateTime` to `TypeRegExp`.
abbrev pub type_date_time : Str
type_date_time = codes "datetime"

abbrev pub type_bytes : Str
type_bytes = codes "bytes"

abbrev pub type_big_int : Str
type_big_int = codes "bigint"

abbrev pub type_reg_exp : Str
type_reg_exp = codes "regexp"

-- A decoded value: a native one, or a plain one.
pub data Native : Type 0 where
  plain : Any → Native
  date_time : ℤ → Native
  byte_string : Str → Native
  big_int : ℤ → Native
  reg_exp : Option ℕ → Native

abbrev is_key : Str → Any → Bool
is_key key (text k) = str_eq k key
is_key key _ = Bool.false

-- `x, ok := m[key]`
unfoldable pub find_key : Str → Entries → Option Any
find_key key no_entries = none
find_key key (entry k x xs) = let rest = find_key key xs in if is_key key k then some x else rest

abbrev pub as_text : Option Any → Option Str
as_text (some (text s)) = some s
as_text _ = none

-- `IsEnhancedType`
unfoldable pub is_enhanced_type : Any → Option Str
unfolding find_key
is_enhanced_type (mapping string_any xs) = as_text (find_key (codes "$type") xs)
is_enhanced_type (mapping any_any xs) = as_text (find_key (codes "$type") xs)
is_enhanced_type _ = none

-- The prefix that the flags of `NewRegExpFromPattern` put in front of a pattern.
abbrev flag_prefix : ℕ → Str
flag_prefix flag =
    if flag == b'i'
    then codes "(?i)"
    else if flag == b'm'
    then codes "(?m)"
    else if flag == b's'
    then codes "(?s)"
    else []

abbrev pub modified_pattern : Str → Str → Str
modified_pattern pattern [] = pattern
modified_pattern pattern (flag ∷ flags) = flag_prefix flag ++ modified_pattern pattern flags

-- An error with its context.
abbrev pub decoded_as {ℓ} : {A : Type ℓ} → Str → (A → Native) → Result A → Result Native
decoded_as what make (ok a) = ok (make a)
decoded_as what make (err e) = err (codes "failed to decode " ++ (what ++ (codes ": " ++ e)))

module _ (codecs : ValueCodecs) where
  open codecs use {
    marshal, unmarshal_date_time, unmarshal_bytes, unmarshal_big_int, unmarshal_reg_exp,
  }

  abbrev decode_encoded : Any → Codec → Str → Result Str → Result Native
  decode_encoded x codec type_name (err e) = err (codes "failed to encode enhanced type: " ++ e)
  decode_encoded x codec type_name (ok bytes) =
      if str_eq type_name type_date_time
      then decoded_as (codes "datetime") date_time (unmarshal_date_time codec bytes)
      else if str_eq type_name type_bytes
      then decoded_as (codes "bytes") byte_string (unmarshal_bytes codec bytes)
      else if str_eq type_name type_big_int
      then decoded_as (codes "bigint") big_int (unmarshal_big_int codec bytes)
      else if str_eq type_name type_reg_exp
      then decoded_as (codes "regexp") reg_exp (unmarshal_reg_exp codec bytes)
      else ok (plain x)

  abbrev decode_named : Any → Codec → Option Str → Result Native
  decode_named x codec none = ok (plain x)
  decode_named x codec (some type_name) = decode_encoded x codec type_name (marshal codec x)

  -- `DecodeEnhancedType`
  unfoldable pub decode_enhanced_type : Any → Codec → Result Native
  unfolding is_enhanced_type
  decode_enhanced_type x codec = decode_named x codec (is_enhanced_type x)
