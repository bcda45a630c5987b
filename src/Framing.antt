-- ===== src/Framing.antt =====
-- Length-prefixed messages on a byte stream: go/jsonrpc3/webtransport_framing.go.
-- A stream is the list of the bytes still to be read; `binary.Read` and `io.ReadFull` fail if fewer
-- bytes than they want are left. A write does not fail.
pub mod RoundTrip
mod Tests
use jsonrpc.Base.{
  ℕ, zero, suc, ◌+◌, ◌*◌, ◌^◌, ◌%◌, ◌/◌, ltb, Bool, Option, none, some, List, [], ◌∷◌, ◌++◌, length,
  if◌then◌else◌,
}

-- `binary.BigEndian` of a uint32.
abbrev pub big_endian : ℕ → List ℕ
big_endian n = n / 2 ^ 24 % 256 ∷ n / 2 ^ 16 % 256 ∷ n / 2 ^ 8 % 256 ∷ n % 256 ∷ []

-- `writeFramedMessage`: what it puts on the stream. The length is cut to 32 bits.
unfoldable pub write_framed_message : List ℕ → List ℕ
write_framed_message bytes = big_endian (length bytes % 2 ^ 32) ++ bytes

-- The bytes that are read, and those that are left.
pub data ReadOutcome : Type 0 where
  frame : List ℕ → List ℕ → ReadOutcome
  no_length : ReadOutcome
  too_large : ℕ → ReadOutcome
  no_message : ReadOutcome

abbrev pub max_message_size : ℕ
max_message_size = 100 * 1024 * 1024

abbrev add_byte : ℕ → Option (List ℕ × List ℕ) → Option (List ℕ × List ℕ)
add_byte b none = none
add_byte b (some (bs, rest)) = some (b ∷ bs, rest)

-- `io.ReadFull`
abbrev pub read_full : ℕ → List ℕ → Option (List ℕ × List ℕ)
read_full zero stream = some ([], stream)
read_full (suc n) [] = none
read_full (suc n) (b ∷ stream) = add_byte b (read_full n stream)

abbrev read_body : Option (List ℕ × List ℕ) → ReadOutcome
read_body none = no_message
read_body (some (bytes, rest)) = frame bytes rest

abbrev pub read_message : ℕ → List ℕ → ReadOutcome
read_message n stream =
    let body = read_full n stream in if ltb max_message_size n then too_large n else read_body body

-- `readFramedMessage`
unfoldable pub read_framed_message : List ℕ → ReadOutcome
read_framed_message (a ∷ b ∷ c ∷ d ∷ stream) =
    read_message (a * 2 ^ 24 + b * 2 ^ 16 + c * 2 ^ 8 + d) stream
read_framed_message _ = no_length
