-- ===== src/Codecs/RoundTrip.antt =====
-- What is encoded is decoded again: the codecs of go/jsonrpc3/encoding.go.
use jsonrpc.Base.{Bool, true, false, List, [], ◌∷◌, map, Str, ok, err, ◌≡◌}
use jsonrpc.Message.{Message, MessageSet}
use jsonrpc.Message.Compact.{to_compact_message}
use jsonrpc.Mime.{Codec, json_codec, cbor_codec, compact_cbor_codec}
use jsonrpc.Codecs.{Format, Formats, opens_array, looks_like_message}

-- A message as a decoder returns it, without a format.
abbrev pub bare : Message → Message
bare m = record m { format = [] }

-- What a library does with a message set, whose messages it gets by `to`: it encodes them to bytes, and
-- decodes these to what `seen` says of each; the bytes of a single message are no list.
pub data Carries {A : Type 0} (f : Format A) (to seen : Message → A)
    : List Message → Bool → Str → Type 0 where
  one :
      (m : Message) (bytes e : Str)
      → f.marshal_one (to m) ≡ ok bytes
      → f.unmarshal_one bytes ≡ ok (seen m)
      → f.unmarshal_many bytes ≡ err e
      → Carries f to seen (m ∷ []) false bytes
  many :
      (m : Message) (ms : List Message) (bytes : Str)
      → f.marshal_many (map to (m ∷ ms)) ≡ ok bytes
      → f.unmarshal_many bytes ≡ ok (map seen (m ∷ ms))
      → Carries f to seen (m ∷ ms) true bytes

-- The first message of a list looks like one.
abbrev pub FirstLooks : List Message → Type 0
FirstLooks [] = Unit
FirstLooks (m ∷ ms) = looks_like_message m ≡ true

-- What the library of a codec does: encoding/json writes an array, and nothing else, with a bracket in
-- front.
abbrev pub CarriesSet : Formats → Codec → MessageSet → Str → Type 0
CarriesSet fs (json_codec mimetype) ms bytes =
    Carries fs.json (λ m. m) bare ms.messages ms.is_batch bytes × (opens_array bytes ≡ ms.is_batch)
CarriesSet fs (cbor_codec mimetype) ms bytes =
    Carries fs.cbor (λ m. m) bare ms.messages ms.is_batch bytes × FirstLooks ms.messages
CarriesSet fs (compact_cbor_codec mimetype) ms bytes =
    Carries fs.compact to_compact_message to_compact_message ms.messages ms.is_batch bytes
    × FirstLooks ms.messages
