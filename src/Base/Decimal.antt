-- ===== src/Base/Decimal.antt =====
-- Decimal numerals: what `fmt.Sprintf` writes for `%d`, and the number that digits spell.
use mathlib.Core.List.{foldl}
use jsonrpc.Base.{
  ℕ, zero, suc, ◌+◌, ◌-◌, ◌*◌, ◌/◌, ◌%◌, ◌^◌, ◌≤◌, ◌<◌, ◌≡◌, refl, [], ◌∷◌, arith, ltb,
  if◌then◌else◌, Str, codes, All, ap, ◌∙◌, sym,
}

-- The digits of `n` in front of `out`; `n + 1` rounds are enough.
pub print : ℕ → ℕ → Str → Str
print zero n out = out
print (suc f) n out =
    let rest = print f (n / 10) ((b'0' + n % 10) ∷ out) in
    if ltb n 10 then (b'0' + n) ∷ out else rest

unfoldable pub decimal : ℕ → Str
unfolding print
decimal n = print (suc n) n []

-- What `%d` writes for an `int64`, given by its bit pattern.
unfoldable pub signed_decimal : ℕ → Str
signed_decimal n = if ltb n (2 ^ 63) then decimal n else b'-' ∷ decimal (2 ^ 64 - n)

abbrev pub IsDigit : ℕ → Type 0
IsDigit c = (b'0' ≤ c) × (c ≤ b'9')

-- The number that digits spell behind `n`, with no bound.
abbrev pub value : ℕ → Str → ℕ
value = foldl (λ n c. n * 10 + (c - b'0'))

value-print : (f n : ℕ) (out : Str) → n < f → value 0 (print f n out) ≡ value n out
unfolding print
value-print zero n out h = absurd (omega arith)
value-print (suc f) n out h = ground (arith, value-print f (n / 10) ((b'0' + n % 10) ∷ out))

pub value-decimal : (n : ℕ) → value 0 (decimal n) ≡ n
unfolding decimal
value-decimal n = value-print (suc n) n [] (omega arith)

-- Two numbers with one numeral are equal.
pub decimal_injective : (m n : ℕ) → decimal m ≡ decimal n → m ≡ n
decimal_injective m n h = sym (value-decimal m) ∙ ap (value 0) h ∙ value-decimal n

print-IsDigit : (f n : ℕ) (out : Str) → All IsDigit out → All IsDigit (print f n out)
unfolding print
print-IsDigit zero n out h = h
print-IsDigit (suc f) n out h = ground (arith, print-IsDigit f (n / 10) ((b'0' + n % 10) ∷ out))

pub decimal-IsDigit : (n : ℕ) → All IsDigit (decimal n)
unfolding decimal
decimal-IsDigit n = print-IsDigit (suc n) n [] tt

numeral : decimal 2048 ≡ codes "2048"
unfolding decimal
numeral = refl
