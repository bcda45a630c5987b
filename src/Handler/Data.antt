-- ===== src/Handler/Data.antt =====
-- The struct `Handler` of go/jsonrpc3/handler.go, without its session and its caller, which a method
-- reaches through the environment.
use jsonrpc.Base.{ℕ, Option, List, Str}

pub record Handler : Type 0 where
  pub root_object : Option ℕ
  pub version : Str
  pub mime_types : List Str
