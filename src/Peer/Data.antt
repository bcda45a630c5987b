-- ===== src/Peer/Data.antt =====
-- The state of a peer of go/jsonrpc3/peer.go.
use jsonrpc.Base.{ℕ, Bool, Option, List, Str}
use jsonrpc.Any.{Any}
use jsonrpc.Message.{Error, Response, MessageSet}

-- The channel of a call, which holds one response at most: empty, with a response, or closed.
pub data Channel : Type 0 where
  empty : Channel
  holding : Response → Channel
  shut : Channel

-- `calls` are the calls in progress, by ID, with their channels; `pending` are the IDs in
-- `pendingReqs`; `queue` is what the write loop has still to send.
pub record Peer : Type 0 where
  pub content_type : Str
  pub next_id : ℕ
  pub ref_prefix : Str
  pub ref_counter : ℕ
  pub calls : List (Any × Channel)
  pub pending : List Any
  pub queue : List MessageSet
  pub closed : Bool
  pub conn_err : Option Str

-- How a call ends: with an encoded value, with nil, with the error of the response, with the text of
-- an error of its own, or by the panic of a nil response.
pub data CallOutcome : Type 0 where
  value : Str → CallOutcome
  nil_value : CallOutcome
  rpc_error : Error → CallOutcome
  call_error : Str → CallOutcome
  panics : CallOutcome
