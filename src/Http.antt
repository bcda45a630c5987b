-- ===== src/Http.antt =====
-- The transport over HTTP: go/jsonrpc3/http_server.go and http_client.go.
-- What they are given: the encoders of message sets of go/jsonrpc3/encoding.go, which call
-- encoding/json and fxamacker/cbor.
pub mod ClientRefs
pub mod Server
pub mod EventStream
pub mod Client
pub mod EndToEnd
mod Tests
use jsonrpc.Base.{ℕ, Bool, Option, Str, Result}
use jsonrpc.Any.{Any}
use jsonrpc.Message.{MessageSet}
use jsonrpc.Mime.{Codec}

-- `MarshalMessages` and `UnmarshalMessages` of a codec, and `json.Unmarshal` into an `any`.
pub record Wire : Type 0 where
  pub marshal_messages : Codec → MessageSet → Result Str
  pub unmarshal_messages : Codec → Str → Result MessageSet
  pub unmarshal_json : Str → Option Any

-- What a handler reads of a request: the headers it asks for (empty if they are missing), the body
-- (none if it cannot be read), and whether the response can be flushed.
pub record HttpRequest : Type 0 where
  pub method : Str
  pub content_type : Str
  pub session_id : Str
  pub connection : Str
  pub upgrade : Str
  pub body : Option Str
  pub can_flush : Bool

-- A response; `session_id` is the header `RPC-Session-Id`, if it is set.
pub record HttpResponse : Type 0 where
  pub status : ℕ
  pub content_type : Str
  pub session_id : Option Str
  pub body : Str
