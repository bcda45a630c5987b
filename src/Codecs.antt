-- ===== src/Codecs.antt =====
-- The codecs of message sets: `MarshalMessages` and `UnmarshalMessages` of go/jsonrpc3/encoding.go.
-- Encoding and decoding one message, and a list of them, are calls of encoding/json and
-- fxamacker/cbor, and parameters.
pub mod RoundTrip
mod Tests
use jsonrpc.Base.{
  ℕ, Bool, true, false, not, ◌&&◌, ◌||◌, ◌==◌, Option, none, some, List, [], ◌∷◌, map, Str, codes,
  Result, ok, err, is_some, is_empty, if◌then◌else◌,
}
use jsonrpc.Any.{Any}
use jsonrpc.Message.{Message, MessageSet}
use jsonrpc.Message.Compact.{CompactMessage, to_compact_message, from_compact_message}
use jsonrpc.Message.Convert.{set_formats}
use jsonrpc.Mime.{Codec, json_codec, cbor_codec, compact_cbor_codec}
use jsonrpc.Http.{Wire}

-- An encoder and a decoder of values of one type, and of lists of them.
pub record Format (A : Type 0) : Type 0 where
  pub marshal_one : A → Result Str
  pub marshal_many : List A → Result Str
  pub unmarshal_one : Str → Result A
  pub unmarshal_many : Str → Result (List A)

pub record Formats : Type 0 where
  pub json : Format Message
  pub cbor : Format Message
  pub compact : Format CompactMessage
  pub json_any : Str → Option Any

abbrev first_encoded : {A : Type 0} → Format A → List A → Option (Result Str)
first_encoded f [] = none
first_encoded f (x ∷ xs) = some (f.marshal_one x)

-- `MarshalMessages` of the three codecs; `none` is the panic of a single set without a message.
unfoldable pub marshal_set : {A : Type 0} → Format A → List A → Bool → Option (Result Str)
marshal_set f xs is_batch = if not is_batch then first_encoded f xs else some (f.marshal_many xs)

unfoldable pub marshal_messages : Formats → Codec → MessageSet → Option (Result Str)
unfolding marshal_set
marshal_messages fs (json_codec mimetype) ms = marshal_set fs.json ms.messages ms.is_batch
marshal_messages fs (cbor_codec mimetype) ms = marshal_set fs.cbor ms.messages ms.is_batch
marshal_messages fs (compact_cbor_codec mimetype) ms =
    marshal_set fs.compact (map to_compact_message ms.messages) ms.is_batch

-- A message set with the codec's format on every message.
abbrev pub marked : Str → Bool → List Message → MessageSet
marked mimetype is_batch ms = set_formats mimetype (record { messages = ms; is_batch = is_batch })

abbrev single_read : Str → Result Message → Result MessageSet
single_read mimetype (err e) = err e
single_read mimetype (ok m) = ok (marked mimetype false (m ∷ []))

abbrev batch_read : Str → Result (List Message) → Result MessageSet
batch_read mimetype (err e) = err e
batch_read mimetype (ok ms) = ok (marked mimetype true ms)

-- Whether the first character behind white space is a bracket.
abbrev pub opens_array : Str → Bool
opens_array [] = false
opens_array (c ∷ s) =
    let rest = opens_array s in
    if c == b' ' || (c == 9 || (c == 10 || c == 13)) then rest else c == b'['

-- `UnmarshalMessages` of `jsonCodec`
unfoldable pub unmarshal_json_messages : Format Message → Str → Str → Result MessageSet
unmarshal_json_messages f mimetype bytes =
    if opens_array bytes
    then batch_read mimetype (f.unmarshal_many bytes)
    else single_read mimetype (f.unmarshal_one bytes)

-- Whether the first element of a decoded list looks like a message.
abbrev pub looks_like_message : Message → Bool
looks_like_message m =
    not (is_empty m.jsonrpc) || (not (is_empty m.method) || (is_some m.result || is_some m.error))

-- A list counts as a batch if it is there, and begins with what looks like a message.
abbrev pub as_batch : Str → Result (List Message) → Result MessageSet → Result MessageSet
as_batch mimetype (err e) alone = alone
as_batch mimetype (ok []) alone = alone
as_batch mimetype (ok (m ∷ ms)) alone =
    if looks_like_message m then ok (marked mimetype true (m ∷ ms)) else alone

-- `UnmarshalMessages` of `cborCodec`
unfoldable pub unmarshal_cbor_messages : Format Message → Str → Str → Result MessageSet
unmarshal_cbor_messages f mimetype bytes =
    as_batch mimetype (f.unmarshal_many bytes) (single_read mimetype (f.unmarshal_one bytes))

abbrev map_result : {A B : Type 0} → (A → B) → Result A → Result B
map_result g (err e) = err e
map_result g (ok x) = ok (g x)

-- `UnmarshalMessages` of `compactCBORCodec`, which tests the same fields before the conversion.
unfoldable pub unmarshal_compact_messages : Format CompactMessage → Str → Str → Result MessageSet
unmarshal_compact_messages f mimetype bytes =
    as_batch mimetype (map_result (map from_compact_message) (f.unmarshal_many bytes))
      (single_read mimetype (map_result from_compact_message (f.unmarshal_one bytes)))

unfoldable pub unmarshal_messages : Formats → Codec → Str → Result MessageSet
unfolding unmarshal_json_messages unmarshal_cbor_messages unmarshal_compact_messages
unmarshal_messages fs (json_codec mimetype) bytes = unmarshal_json_messages fs.json mimetype bytes
unmarshal_messages fs (cbor_codec mimetype) bytes = unmarshal_cbor_messages fs.cbor mimetype bytes
unmarshal_messages fs (compact_cbor_codec mimetype) bytes =
    unmarshal_compact_messages fs.compact mimetype bytes

abbrev or_panic : Option (Result Str) → Result Str
or_panic none = err (codes "index out of range")
or_panic (some r) = r

-- The codecs as the transports use them; no transport sends a single set without a message.
unfoldable pub codec_wire : Formats → Wire
unfolding marshal_messages unmarshal_messages
codec_wire fs = record {
  marshal_messages = λ codec ms. or_panic (marshal_messages fs codec ms);
  unmarshal_messages = λ codec bytes. unmarshal_messages fs codec bytes;
  unmarshal_json = fs.json_any;
}
