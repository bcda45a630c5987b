-- ===== src/Mime.antt =====
-- MIME types and the choice of a codec: go/jsonrpc3/mimetype.go, `GetCodec` of encoding.go and
-- `NewParamsWithFormat` of jsonrpc3.go.
pub mod Choice
pub mod Parsing
use jsonrpc.Base.{
  ℕ, Bool, true, false, ◌&&◌, ◌||◌, Option, none, some, [], ◌∷◌, Str, codes, str_eq, is_empty, leb,
  starts_with, ◌==◌, if◌then◌else◌,
}
use jsonrpc.Message.{RawMessage}

abbrev pub mime_type_json : Str
mime_type_json = codes "application/json"

abbrev pub mime_type_cbor : Str
mime_type_cbor = codes "application/cbor"

abbrev pub mime_type_cbor_compact : Str
mime_type_cbor_compact = codes "application/cbor; format=compact"

-- `unicode.IsSpace`
abbrev pub is_space : ℕ → Bool
is_space c =
    (leb 0x09 c && leb c 0x0d)
    || (c == 0x20
        || (c == 0x85
            || (c == 0xa0
                || (c == 0x1680
                    || ((leb 0x2000 c && leb c 0x200a)
                        || (c == 0x2028
                            || (c == 0x2029 || (c == 0x202f || (c == 0x205f || c == 0x3000)))))))))

abbrev pub trim_left : Str → Str
trim_left [] = []
trim_left (c ∷ s) = if is_space c then trim_left s else c ∷ s

abbrev pub trim_right : Str → Str
trim_right [] = []
trim_right (c ∷ s) = let rest = trim_right s in if is_space c && is_empty rest then [] else c ∷ rest

-- `strings.TrimSpace`
unfoldable pub trim_space : Str → Str
trim_space s = trim_right (trim_left s)

-- `strings.SplitN(s, sep, 2)` at a separator of one character: what stands before it, and what
-- behind it if it occurs.
unfoldable pub split_at : ℕ → Str → Str × Option Str
split_at sep [] = ([], none)
split_at sep (c ∷ s) =
    let rest = split_at sep s in if c == sep then ([], some s) else (c ∷ rest.0, rest.1)

-- `strings.TrimPrefix` of a prefix of `n` characters that is there.
abbrev pub drop_prefix : Str → Str → Str
drop_prefix s [] = s
drop_prefix [] (p ∷ ps) = []
drop_prefix (c ∷ s) (p ∷ ps) = drop_prefix s ps

pub record MimeType : Type 0 where
  pub base : Str
  pub format : Str

abbrev format_key : Str
format_key = codes "format="

-- The format that a parameter text gives: only a text that begins with `format=` gives one.
format_parameter : Option Str → Str
format_parameter none = []
format_parameter (some parameters) =
    let p = trim_space parameters in
    if starts_with p format_key then trim_space (drop_prefix p format_key) else []

unfoldable pub parse_mime_type : Str → MimeType
unfolding trim_space split_at format_parameter
parse_mime_type mimetype =
    let parts = split_at b';' mimetype in
    record { base = trim_space parts.0; format = format_parameter parts.1 }

-- `MimeType.IsCBOR`
unfoldable pub is_cbor : MimeType → Bool
is_cbor mt = str_eq mt.base mime_type_cbor

-- `MimeType.IsJSON`
unfoldable pub is_json : MimeType → Bool
is_json mt = str_eq mt.base mime_type_json

-- `MimeType.IsCompact`
unfoldable pub is_compact : MimeType → Bool
is_compact mt = str_eq mt.format (codes "compact")

-- The three codecs, each with the mimetype that it reports.
pub data Codec : Type 0 where
  json_codec cbor_codec compact_cbor_codec : Str → Codec

-- `Codec.MimeType`
unfoldable pub codec_mime_type : Codec → Str
codec_mime_type (json_codec m) = m
codec_mime_type (cbor_codec m) = m
codec_mime_type (compact_cbor_codec m) = m

unfoldable pub get_codec : Str → Codec
unfolding parse_mime_type is_cbor is_compact
get_codec mimetype =
    let mt = parse_mime_type mimetype in
    if is_cbor mt
    then if is_compact mt then compact_cbor_codec mimetype else cbor_codec mimetype
    else if str_eq mimetype (codes "cbor")
    then cbor_codec mime_type_cbor
    else json_codec mimetype

-- The parameters of a call, with the decoder for them.
pub data Params : Type 0 where
  json_params cbor_params : RawMessage → Params

unfoldable pub new_params_with_format : RawMessage → Str → Params
unfolding parse_mime_type is_cbor
new_params_with_format raw mimetype =
    if is_cbor (parse_mime_type mimetype) || str_eq mimetype (codes "cbor")
    then cbor_params raw
    else json_params raw
