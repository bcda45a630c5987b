-- ===== src/Message/Compact.antt =====
-- The compact structs of go/jsonrpc3/cbor_compact.go, which go out with integer keys, and their
-- conversions.
use jsonrpc.Base.{Option, none, some, Str, [], ◌≡◌, refl, arith}
use jsonrpc.Any.{Any}
use jsonrpc.Message.Data.{
  RawMessage, Error, Request, Response, Message, set_format, set_request_format,
}

pub record CompactMessage : Type 0 where
  pub jsonrpc : Str
  pub ref : Str
  pub method : Str
  pub params : RawMessage
  pub id : Any
  pub result : RawMessage
  pub error : Option Error

pub record CompactRequest : Type 0 where
  pub jsonrpc : Str
  pub ref : Str
  pub method : Str
  pub params : RawMessage
  pub id : Any

pub record CompactResponse : Type 0 where
  pub jsonrpc : Str
  pub result : RawMessage
  pub error : Option Error
  pub id : Any

unfoldable pub to_compact_message : Message → CompactMessage
to_compact_message m = record {
  jsonrpc = m.jsonrpc;
  ref = m.ref;
  method = m.method;
  params = m.params;
  id = m.id;
  result = m.result;
  error = m.error;
}

unfoldable pub from_compact_message : CompactMessage → Message
from_compact_message c = record {
  jsonrpc = c.jsonrpc;
  ref = c.ref;
  method = c.method;
  params = c.params;
  result = c.result;
  error = c.error;
  id = c.id;
  format = [];
}

pub to_compact_request : Request → CompactRequest
to_compact_request r = record {
  jsonrpc = r.jsonrpc;
  ref = r.ref;
  method = r.method;
  params = r.params;
  id = r.id;
}

pub from_compact_request : CompactRequest → Request
from_compact_request c = record {
  jsonrpc = c.jsonrpc;
  ref = c.ref;
  method = c.method;
  params = c.params;
  id = c.id;
  format = [];
}

-- The error is copied when there is one.
compact_error : Option Error → Option Error
compact_error none = none
compact_error (some e) = some e

pub to_compact_response : Response → CompactResponse
unfolding compact_error
to_compact_response r = record {
  jsonrpc = r.jsonrpc;
  result = r.result;
  error = compact_error r.error;
  id = r.id;
}

pub from_compact_response : CompactResponse → Response
from_compact_response c = record {
  jsonrpc = c.jsonrpc;
  result = c.result;
  error = c.error;
  id = c.id;
}

-- The compact form of a message, a request and a response keeps every field but the format, which
-- is never sent: reading it back and setting the format gives the original.
pub compact_round_trip :
    (m : Message) (q : Request) (r : Response)
    → (set_format m.format (from_compact_message (to_compact_message m)) ≡ m)
      × (set_request_format q.format (from_compact_request (to_compact_request q)) ≡ q)
      × (from_compact_response (to_compact_response r) ≡ r)
unfolding from_compact_message to_compact_message from_compact_request to_compact_request
    from_compact_response to_compact_response set_format set_request_format
compact_round_trip m q r = (refl, refl, ground arith)
