-- ===== src/Value/Numbers.antt =====
-- The numbers of a `Value`: `Int` and `Float` of go/jsonrpc3/jsonrpc3.go. A number is the bit pattern
-- of its kind's width. `truncate` is Go's conversion of a float64 to an int64, on bit patterns, and
-- `float_of` that of an integer to a float64.
use jsonrpc.Base.{
  ℕ, zero, suc, ◌+◌, ◌-◌, ◌^◌, ◌<◌, ◌≤◌, ltb, Option, none, some, Str, ◌≡◌, refl, ◌∙◌, sym, ap,
  arith, ◌⊎◌, if◌then◌else◌, Bool-cases, inl, inr,
}
use mathlib.Core.Path.{subst}
use jsonrpc.Base.Int.{ℤ, pos, negsuc, minus}
use jsonrpc.Any.{Any, number, NumberKind, float64, int64, int, int32, uint, uint32, uint64}
use jsonrpc.Enhanced.{ValueCodecs}
use jsonrpc.Value.{Value, ensure_decoded, reading}

-- The integer of a pattern in two's complement.
abbrev pub signed : ℕ → ℕ → ℤ
signed half n = if ltb n half then pos n else minus (half + half - n)

-- `int64(n)` of an int32.
abbrev pub extend : ℕ → ℕ
extend n = if ltb n (2 ^ 31) then n else n + (2 ^ 64 - 2 ^ 32)

module _ (truncate : ℕ → ℕ) (float_of : ℤ → ℕ) where
  -- The cases of `Int`.
  abbrev pub as_int : Any → ℕ
  as_int (number float64 n) = truncate n
  as_int (number int64 n) = n
  as_int (number int n) = n
  as_int (number int32 n) = extend n
  as_int (number uint n) = n
  as_int (number uint32 n) = n
  as_int (number uint64 n) = n
  as_int _ = 0

  -- The cases of `Float`.
  abbrev pub as_float : Any → ℕ
  as_float (number float64 n) = n
  as_float (number int64 n) = float_of (signed (2 ^ 63) n)
  as_float (number int n) = float_of (signed (2 ^ 63) n)
  as_float (number int32 n) = float_of (signed (2 ^ 31) n)
  as_float (number uint n) = float_of (pos n)
  as_float (number uint32 n) = float_of (pos n)
  as_float (number uint64 n) = float_of (pos n)
  as_float _ = 0

  module _ (codecs : ValueCodecs) (sprint : Any → Str) where
    -- `Int`
    unfoldable pub int_value : Value → Value × ℕ
    unfolding ensure_decoded
    int_value v = reading codecs sprint 0 as_int (ensure_decoded codecs sprint v)

    -- `Float`
    unfoldable pub float_value : Value → Value × ℕ
    unfolding ensure_decoded
    float_value v = reading codecs sprint 0 as_float (ensure_decoded codecs sprint v)

-- The integer that a number of a kind is.
abbrev pub integer : NumberKind → ℕ → Option ℤ
integer float64 n = none
integer int64 n = some (signed (2 ^ 63) n)
integer int n = some (signed (2 ^ 63) n)
integer int32 n = some (signed (2 ^ 31) n)
integer uint n = some (pos n)
integer uint32 n = some (pos n)
integer uint64 n = some (pos n)

abbrev pub width : NumberKind → ℕ
width int32 = 32
width uint32 = 32
width _ = 64

-- An integer from -2^63 up to 2^64 - 1 as an int64.
abbrev pub wrapped : ℤ → ℤ
wrapped (pos n) = signed (2 ^ 63) n
wrapped (negsuc n) = negsuc n

signed-small : (half n : ℕ) → n < half → signed half n ≡ pos n
signed-small half n small = ground arith

signed-large : (half n : ℕ) → half ≤ n → signed half n ≡ minus (half + half - n)
signed-large half n large = ground arith

wrapped-minus : (k : ℕ) → wrapped (minus k) ≡ minus k
wrapped-minus zero = refl
wrapped-minus (suc k) = refl

-- An int64 wraps to itself.
wrapped-signed : (n : ℕ) → wrapped (signed (2 ^ 63) n) ≡ signed (2 ^ 63) n
wrapped-signed n = elim (Bool-cases (ltb n (2 ^ 63))) [
  | inl small ↦ rw small (rw small refl)
  | inr large ↦ rw large (wrapped-minus _)
]

extend-small : (n : ℕ) → n < 2 ^ 31 → signed (2 ^ 63) (extend n) ≡ pos n
extend-small n small =
    let e : extend n ≡ n = ground arith in
    ap (signed (2 ^ 63)) e ∙ signed-small (2 ^ 63) n (omega arith)

extend-large : (n : ℕ) → 2 ^ 31 ≤ n → n < 2 ^ 32 → signed (2 ^ 63) (extend n) ≡ minus (2 ^ 32 - n)
extend-large n large fits =
    let e : extend n ≡ n + (2 ^ 64 - 2 ^ 32) = ground arith in
    ap (signed (2 ^ 63)) e
    ∙ signed-large (2 ^ 63) (n + (2 ^ 64 - 2 ^ 32)) (omega arith)
    ∙ ap minus (omega arith)

lt_cases : (a b : ℕ) → (a < b) ⊎ (b ≤ a)
lt_cases a b = ground arith

-- The integer of an int32 is that of its extension.
signed-extend : (n : ℕ) → n < 2 ^ 32 → signed (2 ^ 63) (extend n) ≡ wrapped (signed (2 ^ 31) n)
signed-extend n fits = elim (lt_cases n (2 ^ 31)) [
  | inl small ↦
      extend-small n small
      ∙ sym (ap wrapped (signed-small (2 ^ 31) n small) ∙ signed-small (2 ^ 63) n (omega arith))
  | inr large ↦
      extend-large n large fits
      ∙ sym (ap wrapped (signed-large (2 ^ 31) n large) ∙ wrapped-minus (2 ^ 32 - n))
]

module _ (truncate : ℕ → ℕ) (float_of : ℤ → ℕ) where
  -- A number is read as an integer by `Int`, and as its float by `Float`.
  abbrev Reads : NumberKind → ℕ → ℤ → Type 0
  Reads k n z =
      (signed (2 ^ 63) (as_int truncate float_of (number k n)) ≡ wrapped z)
      × (as_float truncate float_of (number k n) ≡ float_of z)

  some-Reads : (k : NumberKind) (n : ℕ) (x z : ℤ) → some x ≡ some z → Reads k n x → Reads k n z
  some-Reads k n x z e h = let same : x ≡ z = cc in subst (Reads k n) same h

  integer-Reads :
      (k : NumberKind) (n : ℕ) (z : ℤ) → n < 2 ^ width k → integer k n ≡ some z → Reads k n z
  integer-Reads float64 n z fits e = absurd (cc)
  integer-Reads int64 n z fits e = some-Reads int64 n _ z e (sym (wrapped-signed n), refl)
  integer-Reads int n z fits e = some-Reads int n _ z e (sym (wrapped-signed n), refl)
  integer-Reads int32 n z fits e = some-Reads int32 n _ z e (signed-extend n fits, refl)
  integer-Reads uint n z fits e = some-Reads uint n _ z e (refl, refl)
  integer-Reads uint32 n z fits e = some-Reads uint32 n _ z e (refl, refl)
  integer-Reads uint64 n z fits e = some-Reads uint64 n _ z e (refl, refl)

  module _ (codecs : ValueCodecs) (sprint : Any → Str) where
    reading_cached :
        {A : Type 0} (otherwise : A) (f : Any → A) (v v' : Value) (x : Any)
        → ensure_decoded codecs sprint v ≡ (v', none)
        → v'.cached ≡ x
        → (reading codecs sprint otherwise f (ensure_decoded codecs sprint v)).1 ≡ f x
    reading_cached otherwise f v v' x e c =
        ap (λ r. (reading codecs sprint otherwise f r).1) e ∙ ap f c

    -- Of a value that decodes to a number of a kind of integers, `Int` gives the integer, wrapped into
    -- 64 bits where it is 2^63 or more, and `Float` the float of the integer itself.
    pub int_value-float_value :
        (v v' : Value) (k : NumberKind) (n : ℕ) (z : ℤ)
        → ensure_decoded codecs sprint v ≡ (v', none)
        → v'.cached ≡ number k n
        → n < 2 ^ width k
        → integer k n ≡ some z
        → (signed (2 ^ 63) (int_value truncate float_of codecs sprint v).1 ≡ wrapped z)
          × ((float_value truncate float_of codecs sprint v).1 ≡ float_of z)
    unfolding int_value float_value
    int_value-float_value v v' k n z e c fits whole =
        let (reads_int, reads_float) = integer-Reads k n z fits whole in
        (
          ap (signed (2 ^ 63)) (reading_cached 0 (as_int truncate float_of) v v' (number k n) e c)
              ∙ reads_int,
          reading_cached 0 (as_float truncate float_of) v v' (number k n) e c ∙ reads_float,
        )
