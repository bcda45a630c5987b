-- ===== src/Message.antt =====
-- The message types of go/jsonrpc3/jsonrpc3.go and their conversions, with those of cbor_compact.go.
mod Data
pub mod Errors
pub mod Convert
pub mod Compact
unfoldable pub use Data.*
