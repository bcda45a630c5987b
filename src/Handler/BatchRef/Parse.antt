-- ===== src/Handler/BatchRef/Parse.antt =====
-- The text of a batch-local reference and its index.
use jsonrpc.Base.{
  ℕ, ◌+◌, ◌-◌, ◌*◌, ◌%◌, ◌^◌, ◌≤◌, ◌<◌, [], ◌∷◌, ◌≡◌, refl, arith, ◌∙◌, ap, Str, codes, ok, All,
}
use jsonrpc.Base.Decimal.{decimal, IsDigit, value, value-decimal, decimal-IsDigit}
use jsonrpc.Handler.BatchRef.{
  parse_batch_local_ref, scan, parse_index, word, backslash, is_batch_local_ref,
}

-- The reference to the result of request `k`: `fmt.Sprintf("\\%d", k)`.
unfoldable pub batch_local_ref : ℕ → Str
batch_local_ref k = backslash ∷ decimal k

le-value : (s : Str) (n : ℕ) → n ≤ value n s
le-value [] n = omega arith
le-value (c ∷ s) n = omega (arith, le-value s (n * 10 + (c - b'0')))

scan-value :
    (ref s : Str) (n : ℕ) → All IsDigit s → value n s < word → scan ref s n ≡ ok (value n s)
unfolding scan
scan-value ref [] n h small = refl
scan-value ref (c ∷ s) n (h, hs) small =
    let m = n * 10 + (c - b'0') in ground (arith, scan-value ref s m hs small, le-value s m)

-- An index is read back from the reference that is printed for it, if it fits 64 bits.
pub parse_batch_local_ref-batch_local_ref :
    (k : ℕ) → k < 2 ^ 64 → parse_batch_local_ref (batch_local_ref k) ≡ ok k
unfolding parse_batch_local_ref batch_local_ref is_batch_local_ref parse_index
parse_batch_local_ref-batch_local_ref k small =
    scan-value (backslash ∷ decimal k) (decimal k) 0 (decimal-IsDigit k)
      (rw (value-decimal k) small)
    ∙ ap ok (value-decimal k)

scan_accepts : (ref s : Str) (n i : ℕ) → scan ref s n ≡ ok i → All IsDigit s
unfolding scan
scan_accepts ref [] n i h = tt
scan_accepts ref (c ∷ s) n i h = ground (arith, scan_accepts ref s ((n * 10 + (c - b'0')) % word) i)

-- What is accepted is a backslash and digits, the empty run of digits included.
pub parse_batch_local_ref_accepts :
    (ref : Str) (i : ℕ)
    → parse_batch_local_ref ref ≡ ok i
    → (digits : Str) × (ref ≡ backslash ∷ digits) × All IsDigit digits
unfolding parse_batch_local_ref is_batch_local_ref parse_index
parse_batch_local_ref_accepts [] i h = cc
parse_batch_local_ref_accepts (c ∷ s) i h =
    (s, ground arith, scan_accepts (c ∷ s) s 0 i (ground arith))

-- Digits behind numbers that are equal modulo 2^64.
value-same_word : (s : Str) (a b : ℕ) → a % word ≡ b % word → value a s % word ≡ value b s % word
value-same_word [] a b h = h
value-same_word (c ∷ s) a b h =
    value-same_word s (a * 10 + (c - b'0')) (b * 10 + (c - b'0')) (omega (arith, h))

scan_reads : (ref s : Str) (n i : ℕ) → n < word → scan ref s n ≡ ok i → i ≡ value n s % word
unfolding scan
scan_reads ref [] n i small h = let same : n ≡ i = cc in omega (arith, small, same)
scan_reads ref (c ∷ s) n i small h =
    let m = n * 10 + (c - b'0') in
    let rest : scan ref s (m % word) ≡ ok i = ground arith in
    scan_reads ref s (m % word) i (omega arith) rest ∙ value-same_word s (m % word) m (omega arith)

-- What is accepted is a backslash and digits, and the index is what they spell, modulo 2^64.
pub parse_batch_local_ref_reads :
    (ref : Str) (i : ℕ)
    → parse_batch_local_ref ref ≡ ok i
    → (digits : Str) × (ref ≡ b'\\' ∷ digits) × All IsDigit digits × (i ≡ value 0 digits % 2 ^ 64)
unfolding parse_batch_local_ref is_batch_local_ref parse_index scan
parse_batch_local_ref_reads [] i h = cc
parse_batch_local_ref_reads (c ∷ s) i h =
    let read : scan (c ∷ s) s 0 ≡ ok i = ground arith in
    (s, ground arith, scan_accepts (c ∷ s) s 0 i read, scan_reads (c ∷ s) s 0 i (omega arith) read)

-- An index that does not fit wraps around: 2^64 is read as 0.
wraps : parse_batch_local_ref (batch_local_ref (2 ^ 64)) ≡ ok 0
unfolding parse_batch_local_ref batch_local_ref decimal
wraps = refl

-- A lone backslash is read as `\0`.
lone_backslash : parse_batch_local_ref (codes "\\") ≡ ok 0
unfolding parse_batch_local_ref
lone_backslash = refl
