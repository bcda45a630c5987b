-- ===== src/Framing/Tests.antt =====
-- The theorems on frames at concrete messages.
use jsonrpc.Base.{◌≡◌, ◌++◌, arith, [], ◌∷◌}
use jsonrpc.Framing.{write_framed_message, read_framed_message, frame}
use jsonrpc.Framing.RoundTrip.{read_framed_message-write_framed_message}

read_framed_message-write_framed_message_example :
    read_framed_message (write_framed_message (1 ∷ 2 ∷ 3 ∷ []) ++ 9 ∷ [])
    ≡ frame (1 ∷ 2 ∷ 3 ∷ []) (9 ∷ [])
read_framed_message-write_framed_message_example =
    read_framed_message-write_framed_message (1 ∷ 2 ∷ 3 ∷ []) (9 ∷ []) (omega arith)
