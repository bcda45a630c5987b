-- ===== src/Env.antt =====
-- What the program is given: the application's objects, the encoders and decoders of
-- encoding/json and fxamacker/cbor, and the printing of times.
use jsonrpc.Base.{ℕ, List, Option, Str, Result}
use jsonrpc.Any.{Any}
use jsonrpc.Message.{Error}
use jsonrpc.Mime.{Codec, Params}
use jsonrpc.Session.{Session, Traits, Cleanup}

-- What a method returns: a value, an error of type `*Error`, or another error with its text.
pub data CallResult : Type 0 where
  returned : Any → CallResult
  failed : Error → CallResult
  failed_other : Str → CallResult

-- `World` is the state of the application. A method may change it, and the session too, through its
-- `Caller`.
pub record Env : Type 1 where
  pub World : Type 0
  pub traits : Traits
  pub call_method : ℕ → Str → Params → Session → World → CallResult × Session × World
  pub clean_up : Cleanup → World → World
  pub marshal : Codec → Any → Result Str
  pub decode_ref : Params → Result Str
  pub unmarshal_object : Str → Option (List (Str × Any))
  pub format_time : ℕ → Str
