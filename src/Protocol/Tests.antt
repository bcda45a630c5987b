-- ===== src/Protocol/Tests.antt =====
-- The theorems on the protocol methods at concrete sessions.
use jsonrpc.Base.{ℕ, Bool}
