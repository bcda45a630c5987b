-- ===== src/Value/Natives.antt =====
-- The references and the native values that a `Value` holds: go/jsonrpc3/jsonrpc3.go. An accessor of
-- one type gives nothing (nil, or the zero time) for a value of another kind.
use jsonrpc.Base.{
  ℕ, Bool, true, false, Option, none, some, [], ◌++◌, Str, codes, Result, ok, err, ◌≡◌, refl, ap,
}
use jsonrpc.Base.Int.{ℤ}
use jsonrpc.Any.{Any}
use jsonrpc.Mime.{Codec}
use jsonrpc.Message.{RawMessage}
use jsonrpc.Enhanced.{
  ValueCodecs, Native, plain, date_time, byte_string, big_int, reg_exp, is_enhanced_type,
  decode_enhanced_type,
}
use jsonrpc.Value.{
  Value, Kind, reference_kind, date_time_kind, bytes_kind, big_int_kind, reg_exp_kind,
  ensure_decoded, reading, kind, is_reference, is_enhanced,
}

module _ (codecs : ValueCodecs) (sprint : Any → Str) where
  open codecs use {unmarshal_reference}

  abbrev decoded_reference : Result Str → Result Str
  decoded_reference (ok ref) = ok ref
  decoded_reference (err e) = err (codes "failed to decode reference: " ++ e)

  abbrev reference_of : Option Codec → RawMessage → Result Str
  reference_of (some codec) (some bytes) = decoded_reference (unmarshal_reference codec bytes)
  reference_of codec bytes = err (codes "failed to decode reference: ")

  abbrev as_reference_if : Value × Bool → Value × Result Str
  as_reference_if (v, false) = (v, err (codes "value is not a reference"))
  as_reference_if (v, true) = (v, reference_of v.codec v.data_bytes)

  -- `AsReference`
  unfoldable pub as_reference : Value → Value × Result Str
  unfolding is_reference
  as_reference v = as_reference_if (is_reference codecs sprint v)

  abbrev with_type : Str → Result Native → Result Native
  with_type name (ok x) = ok x
  with_type name (err e) =
      err (codes "failed to decode enhanced type " ++ (name ++ (codes ": " ++ e)))

  abbrev native_of : Value → Option Codec → Result Native
  native_of v none = ok (plain v.cached)
  native_of v (some codec) = decode_enhanced_type codecs v.cached codec

  abbrev as_enhanced_if : Value × Option Str → Value × Result Native
  as_enhanced_if (v, none) = (v, err (codes "value is not an enhanced type"))
  as_enhanced_if (v, some name) = (v, with_type name (native_of v v.codec))

  -- `AsEnhanced`
  unfoldable pub as_enhanced : Value → Value × Result Native
  unfolding is_enhanced decode_enhanced_type
  as_enhanced v = as_enhanced_if (is_enhanced codecs sprint v)

  abbrev or_cached : Any → Result Native → Native
  or_cached x (ok n) = n
  or_cached x (err e) = plain x

  abbrev interface_if : Value × Option Str → Value × Result Native
  interface_if (v, some e) = (v, err e)
  interface_if (v, none) = (v, ok (or_cached v.cached (native_of v v.codec)))

  -- `Interface`: a value that cannot be decoded as its enhanced type is given as it is.
  unfoldable pub interface : Value → Value × Result Native
  unfolding ensure_decoded decode_enhanced_type
  interface v = interface_if (ensure_decoded codecs sprint v)

  abbrev empty_on_error : Value × Result Str → Value × Str
  empty_on_error (v, ok ref) = (v, ref)
  empty_on_error (v, err e) = (v, [])

  abbrev reference_if : Value × Kind → Value × Str
  reference_if (v, reference_kind) = empty_on_error (as_reference v)
  reference_if (v, k) = (v, [])

  -- `Reference`
  unfoldable pub reference_value : Value → Value × Str
  unfolding kind as_reference
  reference_value v = reference_if (kind codecs sprint v)

  -- The native value, where it is of the type that is asked for.
  abbrev native_as : {A : Type 0} → (Native → Option A) → Value × Result Native → Value × Option A
  native_as pick (v, ok n) = (v, pick n)
  native_as pick (v, err e) = (v, none)

  abbrev as_date_time : Native → Option ℤ
  as_date_time (date_time t) = some t
  as_date_time _ = none

  abbrev date_time_if : Value × Kind → Value × Option ℤ
  date_time_if (v, date_time_kind) = native_as as_date_time (as_enhanced v)
  date_time_if (v, k) = (v, none)

  -- `DateTime`; `none` is the zero time.
  unfoldable pub date_time_value : Value → Value × Option ℤ
  unfolding kind as_enhanced
  date_time_value v = date_time_if (kind codecs sprint v)

  abbrev as_bytes : Native → Option Str
  as_bytes (byte_string s) = some s
  as_bytes _ = none

  abbrev bytes_if : Value × Kind → Value × Option Str
  bytes_if (v, bytes_kind) = native_as as_bytes (as_enhanced v)
  bytes_if (v, k) = (v, none)

  -- `Bytes`
  unfoldable pub bytes_value : Value → Value × Option Str
  unfolding kind as_enhanced
  bytes_value v = bytes_if (kind codecs sprint v)

  abbrev as_big_int : Native → Option ℤ
  as_big_int (big_int n) = some n
  as_big_int _ = none

  abbrev big_int_if : Value × Kind → Value × Option ℤ
  big_int_if (v, big_int_kind) = native_as as_big_int (as_enhanced v)
  big_int_if (v, k) = (v, none)

  -- `BigInt`
  unfoldable pub big_int_value : Value → Value × Option ℤ
  unfolding kind as_enhanced
  big_int_value v = big_int_if (kind codecs sprint v)

  abbrev as_reg_exp : Native → Option ℕ
  as_reg_exp (reg_exp r) = r
  as_reg_exp _ = none

  abbrev reg_exp_if : Value × Kind → Value × Option ℕ
  reg_exp_if (v, reg_exp_kind) = native_as as_reg_exp (as_enhanced v)
  reg_exp_if (v, k) = (v, none)

  -- `RegExp`
  unfoldable pub reg_exp_value : Value → Value × Option ℕ
  unfolding kind as_enhanced
  reg_exp_value v = reg_exp_if (kind codecs sprint v)

  abbrev or_plain : Value × Result Native → Native
  or_plain (v, r) = or_cached v.cached r

  or_cached-with_type :
      (x : Any) (name : Str) (r : Result Native) → or_cached x r ≡ or_cached x (with_type name r)
  or_cached-with_type x name (ok n) = refl
  or_cached-with_type x name (err e) = refl

  interface_if-as_enhanced_if :
      (r : Value × Option Str) (name : Str)
      → (reading codecs sprint none is_enhanced_type r).1 ≡ some name
      → (interface_if r).1
        ≡ ok (or_plain (as_enhanced_if (reading codecs sprint none is_enhanced_type r)))
  interface_if-as_enhanced_if (v, none) name h =
      rw h (ap (λ n. ok n) (or_cached-with_type v.cached name (native_of v v.codec)))
  interface_if-as_enhanced_if (v, some e) name h = cc

  -- For a value that carries the name of a type, `Interface` gives what `AsEnhanced` decodes, and where
  -- this is an error, the plain value.
  pub interface-as_enhanced :
      (v : Value) (name : Str)
      → (is_enhanced codecs sprint v).1 ≡ some name
      → (interface v).1 ≡ ok (or_plain (as_enhanced v))
  unfolding interface as_enhanced is_enhanced
  interface-as_enhanced v name h =
      interface_if-as_enhanced_if (ensure_decoded codecs sprint v) name h
