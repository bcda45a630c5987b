-- ===== src/Value/Tests.antt =====
-- The theorems on `Value` at concrete ones.
use jsonrpc.Base.{ℕ, ◌-◌, ◌^◌, true, some, ok, err, [], Str, codes, ◌≡◌, refl, arith}
use jsonrpc.Base.Int.{ℤ, pos, negsuc}
use jsonrpc.Any.{Any, number, uint64}
use jsonrpc.Enhanced.{ValueCodecs}
use jsonrpc.Mime.{get_codec, mime_type_cbor}
use jsonrpc.Value.{Value, new_value_with_codec, ensure_decoded}
use jsonrpc.Value.Numbers.{signed, int_value, float_value, int_value-float_value}

-- Everything is decoded to a number of the kind that CBOR decodes an integer to, above all integers of
-- 64 bits with a sign.
abbrev sample_codecs : ValueCodecs
sample_codecs = record {
  marshal = λ codec x. ok (codes "true");
  unmarshal = λ codec bytes. ok (number uint64 (2 ^ 64 - 1));
  unmarshal_reference = λ codec bytes. ok (codes "ref-1");
  unmarshal_date_time = λ codec bytes. err [];
  unmarshal_bytes = λ codec bytes. err [];
  unmarshal_big_int = λ codec bytes. err [];
  unmarshal_reg_exp = λ codec bytes. err [];
}

abbrev printed_any : Any → Str
printed_any x = codes "printed"

abbrev encoded : Value
encoded = new_value_with_codec (some (codes "n")) (get_codec mime_type_cbor)

abbrev large : Value
large = record encoded { cached = number uint64 (2 ^ 64 - 1); is_decoded = true }

abbrev sample_float : ℤ → ℕ
sample_float (pos n) = n
sample_float (negsuc n) = 0

int_value-float_value_example :
    (signed (2 ^ 63) (int_value (λ n. n) sample_float sample_codecs printed_any encoded).1
      ≡ negsuc 0)
    × ((float_value (λ n. n) sample_float sample_codecs printed_any encoded).1 ≡ 2 ^ 64 - 1)
unfolding ensure_decoded
int_value-float_value_example =
    int_value-float_value (λ n. n) sample_float sample_codecs printed_any encoded large uint64
      (2 ^ 64 - 1) (pos (2 ^ 64 - 1)) refl refl (omega arith) refl
