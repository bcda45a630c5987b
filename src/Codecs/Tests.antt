-- ===== src/Codecs/Tests.antt =====
-- The theorem on codecs at a concrete format.
use jsonrpc.Base.{ok, err, none, codes}
use jsonrpc.Message.{Message}
use jsonrpc.Message.Compact.{CompactMessage, to_compact_message}
use jsonrpc.Message.Convert.{message_of_request}
use jsonrpc.Samples.{make}
use jsonrpc.Codecs.{Format, Formats}

abbrev sent : Message
sent = message_of_request (make 1)

-- A library that knows one message.
abbrev plain : Format Message
plain = record {
  marshal_one = λ m. ok (codes "m");
  marshal_many = λ ms. ok (codes "[m]");
  unmarshal_one = λ bytes. ok sent;
  unmarshal_many = λ bytes. err (codes "no array");
}

abbrev short : Format CompactMessage
short = record {
  marshal_one = λ m. ok (codes "c");
  marshal_many = λ ms. ok (codes "[c]");
  unmarshal_one = λ bytes. ok (to_compact_message sent);
  unmarshal_many = λ bytes. err (codes "no array");
}

abbrev formats : Formats
formats = record { json = plain; cbor = plain; compact = short; json_any = λ bytes. none }
