-- ===== src/Message/Data.antt =====
-- The structs of go/jsonrpc3/jsonrpc3.go. A nil `RawMessage` or `*Error` is `none`; a request with
-- no ID is one whose ID is nil.
use jsonrpc.Base.{Bool, not, Option, List, Str, ◌||◌, ◌&&◌, is_some, is_empty, codes}
use jsonrpc.Base.Int.{ℤ}
use jsonrpc.Any.{Any, is_nil}

-- The bytes of an encoded value.
abbrev pub RawMessage : Type 0
RawMessage = Option Str

pub record Error : Type 0 where
  pub code : ℤ
  pub message : Str
  pub details : Any

pub record Request : Type 0 where
  pub jsonrpc : Str
  pub ref : Str
  pub method : Str
  pub params : RawMessage
  pub id : Any
  pub format : Str

pub record Response : Type 0 where
  pub jsonrpc : Str
  pub result : RawMessage
  pub error : Option Error
  pub id : Any

pub record Message : Type 0 where
  pub jsonrpc : Str
  pub ref : Str
  pub method : Str
  pub params : RawMessage
  pub result : RawMessage
  pub error : Option Error
  pub id : Any
  pub format : Str

pub record MessageSet : Type 0 where
  pub messages : List Message
  pub is_batch : Bool

abbrev pub Batch : Type 0
Batch = List Request

abbrev pub BatchResponse : Type 0
BatchResponse = List Response

abbrev pub version_30 : Str
version_30 = codes "3.0"

-- `Request.IsNotification`
unfoldable pub is_notification : Request → Bool
is_notification r = is_nil r.id

-- `Message.IsRequest`
unfoldable pub is_request : Message → Bool
is_request m = not (is_empty m.method)

-- `Message.IsResponse`
unfoldable pub is_response : Message → Bool
is_response m = is_some m.result || is_some m.error

-- `Message.IsNotification`
unfoldable pub is_message_notification : Message → Bool
unfolding is_request
is_message_notification m = is_request m && is_nil m.id

-- `Message.SetFormat`
unfoldable pub set_format : Str → Message → Message
set_format mimetype m = record m { format = mimetype }

-- `Request.SetFormat`
unfoldable pub set_request_format : Str → Request → Request
set_request_format mimetype r = record r { format = mimetype }
