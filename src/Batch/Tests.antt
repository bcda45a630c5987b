-- ===== src/Batch/Tests.antt =====
-- The theorems on batches at concrete ones.
use jsonrpc.Base.{[], ◌∷◌, ℕ, ◌<◌, ◌≡◌, ◌⊎◌, refl, arith, [], codes, ok}
use jsonrpc.Any.{nil}
use jsonrpc.Samples.{id_of}
use jsonrpc.Handler.BatchRef.{parse_batch_local_ref}
use jsonrpc.Handler.BatchRef.Parse.{batch_local_ref}
use jsonrpc.Batch.{BatchBuilder, new_batch_builder, builder_call, builder_request, promise_call}
use jsonrpc.Batch.Chained.{Built, started, called, chained, Built-backward}

abbrev one : BatchBuilder
one = (builder_call id_of (codes "make") nil new_batch_builder).0

-- A call, and a call on its result.
abbrev two : BatchBuilder
two = (promise_call id_of 0 (codes "use") nil one).0

abbrev two-Built : Built id_of (1 ∷ 0 ∷ []) two
unfolding builder_call promise_call
two-Built =
    chained 0 0 (codes "use") nil (0 ∷ []) one refl
      (called (codes "make") nil [] new_batch_builder started)

Built-backward_example :
    (batch_local_ref 0 ≡ [])
    ⊎ ((k : ℕ) × (k < 1) × (parse_batch_local_ref (batch_local_ref 0) ≡ ok k))
unfolding promise_call builder_call
Built-backward_example =
    Built-backward id_of (1 ∷ 0 ∷ []) two two-Built (omega arith) 1
      (builder_request (batch_local_ref 0) (codes "use") (id_of 2)) (omega arith) refl
