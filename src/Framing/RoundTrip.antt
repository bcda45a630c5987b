-- ===== src/Framing/RoundTrip.antt =====
-- A written message is read back: go/jsonrpc3/webtransport_framing.go.
use jsonrpc.Base.{
  ℕ, ◌+◌, ◌*◌, ◌^◌, ◌%◌, ◌/◌, ◌≤◌, ◌<◌, ltb, true, false, some, List, [], ◌∷◌, ◌++◌, length, ◌≡◌,
  refl, arith,
}
use jsonrpc.Framing.{
  write_framed_message, read_framed_message, frame, too_large, max_message_size, read_full,
}

read_full-append :
    (bytes rest : List ℕ) → read_full (length bytes) (bytes ++ rest) ≡ some (bytes, rest)
read_full-append [] rest = refl
read_full-append (b ∷ bytes) rest = rw (read_full-append bytes rest) refl

big_endian_value :
    (n : ℕ)
    → n < 2 ^ 32
    → n / 2 ^ 24 % 256 * 2 ^ 24 + n / 2 ^ 16 % 256 * 2 ^ 16 + n / 2 ^ 8 % 256 * 2 ^ 8 + n % 256 ≡ n
big_endian_value n small = omega (arith, small)

no_cut : (n : ℕ) → n < 2 ^ 32 → n % 2 ^ 32 ≡ n
no_cut n small = omega (arith, small)

small_enough : (n : ℕ) → n ≤ max_message_size → ltb max_message_size n ≡ false
small_enough n h = ground (arith, h)

-- A message of at most 100 MB that is written to a stream is read back as it was, and what follows it
-- on the stream is left: the frames of a stream are read one by one.
pub read_framed_message-write_framed_message :
    (bytes rest : List ℕ)
    → length bytes ≤ max_message_size
    → read_framed_message (write_framed_message bytes ++ rest) ≡ frame bytes rest
unfolding read_framed_message write_framed_message
read_framed_message-write_framed_message bytes rest small =
    let n = length bytes in
    let fits : n < 2 ^ 32 = omega (arith, small) in
    rw (no_cut n fits, big_endian_value n fits, small_enough n small, read_full-append bytes rest)
      refl

-- A message of more than 100 MB, whose length fits into 32 bits, is written all the same, and the
-- reader refuses it.
pub read_framed_message_too_large :
    (bytes rest : List ℕ)
    → max_message_size < length bytes
    → length bytes < 2 ^ 32
    → read_framed_message (write_framed_message bytes ++ rest) ≡ too_large (length bytes)
unfolding read_framed_message write_framed_message
read_framed_message_too_large bytes rest large fits =
    let n = length bytes in
    let over : ltb max_message_size n ≡ true = ground (arith, large) in
    rw (no_cut n fits, big_endian_value n fits, over) refl
