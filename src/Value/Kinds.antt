-- ===== src/Value/Kinds.antt =====
-- What the accessors of a `Value` say of one another: go/jsonrpc3/jsonrpc3.go.
use jsonrpc.Base.{
  Bool, true, false, [], Option, none, some, Str, Result, ok, err, ◌≡◌, refl, ◌∙◌, sym, ap, str_eq,
  inl, inr, ◌⊎◌, if_elim, if◌then◌else◌,
}
use mathlib.Core.Path.{subst}
use jsonrpc.Any.{
  Any, nil, bool, number, text, object, reference, marshaler, pointer, struct, slice, mapping,
  any_type, object_type, concrete, string_any, any_any, other_map, is_nil,
}
use jsonrpc.Enhanced.{
  ValueCodecs, type_date_time, type_bytes, type_big_int, type_reg_exp, is_enhanced_type,
}
use jsonrpc.Mime.{Codec}
use jsonrpc.Message.{RawMessage}
use jsonrpc.Value.{
  decode_data, decoded_into, printed, as_bool, len_any, basic_kind, enhanced_kind, date_time_kind,
  bytes_kind, big_int_kind, reg_exp_kind, Value, Kind, int_kind, null_kind, reference_kind,
  invalid_kind, ensure_decoded, reading, kind, is_null, string, bool_value, len, is_reference,
  kind_of, is_reference_any,
}

-- Tests of a kind.
abbrev pub is_reference_kind : Kind → Bool
is_reference_kind reference_kind = true
is_reference_kind _ = false

abbrev pub is_null_kind : Kind → Bool
is_null_kind null_kind = true
is_null_kind _ = false

abbrev pub is_int_kind : Kind → Bool
is_int_kind int_kind = true
is_int_kind _ = false

-- A kind that is none of the three.
abbrev IsOther : Kind → Type 0
IsOther k = (is_reference_kind k ≡ false) × (is_null_kind k ≡ false) × (is_int_kind k ≡ false)

basic_kind-IsOther : (x : Any) → IsOther (basic_kind x)
basic_kind-IsOther (slice any_type xs) = (refl, refl, refl)
basic_kind-IsOther (slice object_type xs) = (refl, refl, refl)
basic_kind-IsOther (slice concrete xs) = (refl, refl, refl)
basic_kind-IsOther (mapping string_any xs) = (refl, refl, refl)
basic_kind-IsOther (mapping any_any xs) = (refl, refl, refl)
basic_kind-IsOther (mapping (other_map t) xs) = (refl, refl, refl)
basic_kind-IsOther (bool b) = (refl, refl, refl)
basic_kind-IsOther (number k n) = (refl, refl, refl)
basic_kind-IsOther (text s) = (refl, refl, refl)
basic_kind-IsOther nil = (refl, refl, refl)
basic_kind-IsOther (object o) = (refl, refl, refl)
basic_kind-IsOther (reference r) = (refl, refl, refl)
basic_kind-IsOther (marshaler m) = (refl, refl, refl)
basic_kind-IsOther (pointer x) = (refl, refl, refl)
basic_kind-IsOther (struct fs) = (refl, refl, refl)

enhanced_kind-IsOther : (x : Any) (name : Option Str) → IsOther (enhanced_kind x name)
enhanced_kind-IsOther x none = basic_kind-IsOther x
enhanced_kind-IsOther x (some name) =
    if_elim IsOther (str_eq name type_date_time) date_time_kind _ (refl, refl, refl)
      (if_elim IsOther (str_eq name type_bytes) bytes_kind _ (refl, refl, refl)
        (if_elim IsOther (str_eq name type_big_int) big_int_kind _ (refl, refl, refl)
          (if_elim IsOther (str_eq name type_reg_exp) reg_exp_kind (basic_kind x) (refl, refl, refl)
            (basic_kind-IsOther x))))

-- A kind tells what the tests of the value tell.
abbrev Tells : Bool → Bool → Kind → Type 0
Tells is_ref is_null k =
    (is_reference_kind k ≡ is_ref) × (is_null_kind k ≡ is_null) × (is_int_kind k ≡ false)

unless_reference-Tells :
    (b : Bool) (k : Kind) → IsOther k → Tells b false (if b then reference_kind else k)
unless_reference-Tells true k h = (refl, refl, refl)
unless_reference-Tells false k h = h

told :
    (x : Any)
    → Tells
        (is_reference_any x)
        false
        (if is_reference_any x then reference_kind else enhanced_kind x (is_enhanced_type x))
told x =
    unless_reference-Tells (is_reference_any x) (enhanced_kind x (is_enhanced_type x))
      (enhanced_kind-IsOther x (is_enhanced_type x))

kind_of-Tells : (x : Any) → Tells (is_reference_any x) (is_nil x) (kind_of x)
unfolding kind_of is_reference_any
kind_of-Tells nil = (refl, refl, refl)
kind_of-Tells (bool b) = told (bool b)
kind_of-Tells (number k n) = told (number k n)
kind_of-Tells (text s) = told (text s)
kind_of-Tells (object o) = told (object o)
kind_of-Tells (reference r) = told (reference r)
kind_of-Tells (marshaler m) = told (marshaler m)
kind_of-Tells (pointer x) = told (pointer x)
kind_of-Tells (struct fs) = told (struct fs)
kind_of-Tells (slice t xs) = told (slice t xs)
kind_of-Tells (mapping t xs) = told (mapping t xs)

module _ (codecs : ValueCodecs) (sprint : Any → Str) where
  abbrev ensured : Value → Value × Option Str
  ensured v = ensure_decoded codecs sprint v

  -- Decoding ends in a decoded value, or in an error that leaves the value as it was.
  abbrev Settled : Value → Value × Option Str → Type 0
  Settled v r =
      ((v' : Value) × (r ≡ (v', none)) × (v'.is_decoded ≡ true)) ⊎ ((e : Str) × (r ≡ (v, some e)))

  decoded_into-Settled : (v : Value) (r : Result Any) → Settled v (decoded_into codecs sprint v r)
  decoded_into-Settled v (ok x) = inl (_, refl, refl)
  decoded_into-Settled v (err e) = inr (e, refl)

  decode_data-Settled :
      (v : Value) (codec : Option Codec) (bytes : RawMessage)
      → Settled v (decode_data codecs sprint v codec bytes)
  decode_data-Settled v codec none = inl (_, refl, refl)
  decode_data-Settled v none (some bytes) = inr (_, refl)
  decode_data-Settled v (some codec) (some bytes) =
      decoded_into-Settled v (codecs.unmarshal codec bytes)

  unless_decoded-Settled :
      (v : Value) (b : Bool)
      → v.is_decoded ≡ b
      → Settled v (if b then (v, none) else decode_data codecs sprint v v.codec v.data_bytes)
  unless_decoded-Settled v true h = inl (v, refl, h)
  unless_decoded-Settled v false h = decode_data-Settled v v.codec v.data_bytes

  pub ensure_decoded-Settled : (v : Value) → Settled v (ensured v)
  unfolding ensure_decoded
  ensure_decoded-Settled v = unless_decoded-Settled v v.is_decoded refl

  ensure_decoded_decoded : (v : Value) → v.is_decoded ≡ true → ensured v ≡ (v, none)
  unfolding ensure_decoded
  ensure_decoded_decoded v h =
      ap (λ b. if b then (v, none) else decode_data codecs sprint v v.codec v.data_bytes) h

  -- What was decoded is not decoded again, and what could not be decoded fails in the same way.
  ensure_decoded-ensure_decoded : (v : Value) → ensured (ensured v).0 ≡ ensured v
  ensure_decoded-ensure_decoded v = elim (ensure_decoded-Settled v) [
    | inl (v', e, h) ↦ subst (λ r. ensured r.0 ≡ r) (sym e) (ensure_decoded_decoded v' h)
    | inr (x, e) ↦ ap (λ r. ensured r.0) e
  ]

  reading_fst :
      {A : Type 0} (otherwise : A) (f : Any → A) (r : Value × Option Str)
      → (reading codecs sprint otherwise f r).0 ≡ r.0
  reading_fst otherwise f (v, none) = refl
  reading_fst otherwise f (v, some e) = refl

  -- What an accessor gives does not depend on the accessors that were used before.
  reading-reading :
      {A B : Type 0} (a : A) (f : Any → A) (b : B) (g : Any → B) (v : Value)
      → (reading codecs sprint b g (ensured (reading codecs sprint a f (ensured v)).0)).1
        ≡ (reading codecs sprint b g (ensured v)).1
  reading-reading a f b g v =
      ap (λ x. (reading codecs sprint b g (ensured x)).1) (reading_fst a f (ensured v))
      ∙ ap (λ r. (reading codecs sprint b g r).1) (ensure_decoded-ensure_decoded v)

  -- Looking at the kind of a value changes nothing that its other accessors tell, and they change
  -- nothing of its kind.
  pub kind-accessors :
      (v : Value)
      → let seen = (kind codecs sprint v).0 in
        ((kind codecs sprint seen).1 ≡ (kind codecs sprint v).1)
        × ((string codecs sprint seen).1 ≡ (string codecs sprint v).1)
        × ((bool_value codecs sprint seen).1 ≡ (bool_value codecs sprint v).1)
        × ((len codecs sprint seen).1 ≡ (len codecs sprint v).1)
        × ((kind codecs sprint (string codecs sprint v).0).1 ≡ (kind codecs sprint v).1)
        × ((kind codecs sprint (bool_value codecs sprint v).0).1 ≡ (kind codecs sprint v).1)
        × ((kind codecs sprint (len codecs sprint v).0).1 ≡ (kind codecs sprint v).1)
  unfolding kind string bool_value len
  kind-accessors v = (
    reading-reading invalid_kind kind_of invalid_kind kind_of v,
    reading-reading invalid_kind kind_of [] (printed codecs sprint) v,
    reading-reading invalid_kind kind_of false (as_bool codecs sprint) v,
    reading-reading invalid_kind kind_of 0 len_any v,
    reading-reading [] (printed codecs sprint) invalid_kind kind_of v,
    reading-reading false (as_bool codecs sprint) invalid_kind kind_of v,
    reading-reading 0 len_any invalid_kind kind_of v,
  )

  reading-Tells :
      (r : Value × Option Str)
      → Tells
          (reading codecs sprint false is_reference_any r).1
          (reading codecs sprint false is_nil r).1
          (reading codecs sprint invalid_kind kind_of r).1
  reading-Tells (v, none) = kind_of-Tells v.cached
  reading-Tells (v, some e) = (refl, refl, refl)

  -- The kind of a value is that of references exactly if the value is a reference, and that of nil
  -- exactly if it is nil. No value has the kind of integers.
  pub kind-is_reference :
      (v : Value)
      → (is_reference_kind (kind codecs sprint v).1 ≡ (is_reference codecs sprint v).1)
        × (is_null_kind (kind codecs sprint v).1 ≡ (is_null codecs sprint v).1)
        × (is_int_kind (kind codecs sprint v).1 ≡ false)
  unfolding kind is_reference is_null
  kind-is_reference v = reading-Tells (ensured v)
