-- ===== src/Any.antt =====
-- Go values of the dynamic type `any`, as far as go/jsonrpc3/refwalk.go, jsonrpc3.go and enhanced.go
-- tell them apart: by type switches, type assertions and reflect.Kind.
mod Data
pub mod Equality
pub use Data.*
unfoldable pub use Equality.{deep_equal}
