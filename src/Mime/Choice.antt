-- ===== src/Mime/Choice.antt =====
-- Which codec a MIME type selects.
use jsonrpc.Base.{Bool, true, false, ◌≡◌, refl, arith, Str, codes, if◌then◌else◌}
use jsonrpc.Message.{RawMessage}
use jsonrpc.Mime.{
  Codec, json_codec, cbor_codec, compact_cbor_codec, json_params, cbor_params, get_codec,
  new_params_with_format, mime_type_json, mime_type_cbor, mime_type_cbor_compact,
}

abbrev pub reads_cbor : Codec → Bool
reads_cbor (json_codec m) = false
reads_cbor (cbor_codec m) = true
reads_cbor (compact_cbor_codec m) = true

-- A receiver decodes a call's parameters by CBOR exactly when the codec of the same MIME type, which
-- encodes them, is one of the two for CBOR.
pub new_params_with_format-get_codec :
    (raw : RawMessage) (mimetype : Str)
    → new_params_with_format raw mimetype
      ≡ (if reads_cbor (get_codec mimetype) then cbor_params raw else json_params raw)
unfolding new_params_with_format get_codec
new_params_with_format-get_codec raw mimetype = ground arith

the_three :
    (get_codec mime_type_json ≡ json_codec mime_type_json)
    × (get_codec mime_type_cbor ≡ cbor_codec mime_type_cbor)
    × (get_codec mime_type_cbor_compact ≡ compact_cbor_codec mime_type_cbor_compact)
unfolding get_codec
the_three = (refl, refl, refl)

-- A parameter before `format=` hides it.
charset_first :
    get_codec (codes "application/cbor; charset=utf-8; format=compact")
    ≡ cbor_codec (codes "application/cbor; charset=utf-8; format=compact")
unfolding get_codec
charset_first = refl
