-- ===== src/Session/Data.antt =====
-- The structs of go/jsonrpc3/session.go, and what an object's type says of it.
use jsonrpc.Base.{ℕ, Bool, Str, codes, []}
use jsonrpc.Base.Dict.{Dict}
use jsonrpc.Any.{Any, nil}

pub record RefInfo : Type 0 where
  pub ref : Str
  pub type_name : Str
  pub direction : Str
  pub created : ℕ
  pub last_accessed : ℕ
  pub metadata : Any

-- A remote reference leads to a `RefInfo` by its pointer, a number; `infos` is what the pointers point
-- to, also those of the callers.
pub record Session : Type 0 where
  pub id : Str
  pub created_at : ℕ
  pub local_refs : Dict ℕ
  pub remote_refs : Dict ℕ
  pub infos : ℕ → RefInfo
  pub ref_counter : ℕ

-- `RefInfo{}`
abbrev pub zero_info : RefInfo
zero_info = record {
  ref = [];
  type_name = [];
  direction = [];
  created = 0;
  last_accessed = 0;
  metadata = nil;
}

abbrev pub local : Str
local = codes "local"

abbrev pub remote : Str
remote = codes "remote"

-- Whether an object implements `Disposable` and `Closeable`, and what `%T` prints for it.
pub record Traits : Type 0 where
  pub is_disposable : ℕ → Bool
  pub is_closeable : ℕ → Bool
  pub type_name : ℕ → Str

-- A call of an object's `Dispose` or `Close`.
pub data Cleanup : Type 0 where
  dispose close : ℕ → Cleanup
