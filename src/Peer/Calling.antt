-- ===== src/Peer/Calling.antt =====
-- A single call of a peer: `Call` of go/jsonrpc3/peer.go.
use jsonrpc.Base.{
  ℕ, ◌+◌, true, ◌≡◌, Option, none, some, List, [], ◌∷◌, ◌++◌, Str, codes, Result, ok, err, is_some,
  if◌then◌else◌,
}
use jsonrpc.Any.{Any, nil, number, float64, deep_equal}
use jsonrpc.Message.{RawMessage, Request, Response, version_30}
use jsonrpc.Message.Convert.{request_to_message_set}
use jsonrpc.Mime.{Codec, get_codec}
use jsonrpc.Peer.{
  Peer, Channel, empty, holding, shut, CallOutcome, value, nil_value, rpc_error, call_error, panics,
  enqueue,
}

abbrev drop_id : Any → List Any → List Any
drop_id id [] = []
drop_id id (j ∷ ids) = let rest = drop_id id ids in if deep_equal j id then rest else j ∷ rest

abbrev pub drop_call : Any → List (Any × Channel) → List (Any × Channel)
drop_call id [] = []
drop_call id ((j, ch) ∷ calls) =
    let rest = drop_call id calls in if deep_equal j id then rest else (j, ch) ∷ rest

-- `RawMessage` of a response as the outcome of a call.
abbrev of_response : Response → CallOutcome
of_response r = elim r.error [
  | some e ↦ rpc_error e
  | none ↦ elim r.result [ some bytes ↦ value bytes | none ↦ nil_value ]
]

-- The text of the connection's error; without one it is not asked for.
abbrev pub get_error : Option Str → Str
get_error none = []
get_error (some e) = e

abbrev encoded_params : Result Str → Result RawMessage
encoded_params (ok bytes) = ok (some bytes)
encoded_params (err e) = err (codes "failed to marshal params: " ++ e)

abbrev pub call_request : Str → Option Str → RawMessage → Any → Request
call_request method ref raw id = record {
  jsonrpc = version_30;
  ref = elim ref [ some r ↦ r | none ↦ [] ];
  method = method;
  params = raw;
  id = id;
  format = [];
}

-- `NewRequestWithFormat`, without its parameters: those of nil are left out.
abbrev pub encode_params : (Codec → Any → Result Str) → Codec → Any → Result RawMessage
encode_params marshal c nil = ok none
encode_params marshal c params = encoded_params (marshal c params)

module _ (float_of : ℕ → ℕ) where
  -- The ID of the n-th call.
  abbrev pub call_id : ℕ → Any
  call_id n = number float64 (float_of n)

  -- A request goes into the queue, unless the peer is closed.
  unfoldable pub send_call : ℕ → Str → Option Str → Result RawMessage → Peer → Peer × Result Any
  unfolding enqueue
  send_call n method ref (err e) p = (p, err (codes "failed to create request: " ++ e))
  send_call n method ref (ok raw) p =
      let id = call_id n in
      if p.closed then (p, err (codes "connection closed")) else (
        enqueue (request_to_message_set (call_request method ref raw id))
            (record p { calls = (id, empty) ∷ p.calls; pending = id ∷ p.pending }),
        ok id,
      )

  -- The first half of `Call`: a new ID, and the request in the queue. An error ends the call.
  unfoldable pub begin_call :
      (Codec → Any → Result Str) → Str → Any → Option Str → Peer → Peer × Result Any
  unfolding send_call
  begin_call marshal method params ref p =
      let n = p.next_id + 1 in
      let encoded = encode_params marshal (get_codec p.content_type) params in
      if is_some p.conn_err
      then (p, err (get_error p.conn_err))
      else send_call n method ref encoded (record p { next_id = n })

-- The second half of `Call`: the call with a channel wakes up with an outcome. When several cases of
-- the `select` are ready, any of them may be taken.
pub data Wakes (p : Peer) : Channel → CallOutcome → Type 0 where
  by_response : (r : Response) → Wakes p (holding r) (of_response r)
  by_shut : Wakes p shut panics
  by_close : (ch : Channel) → p.closed ≡ true → Wakes p ch (call_error (codes "connection closed"))
  by_timeout : (ch : Channel) → Wakes p ch (call_error (codes "context deadline exceeded"))

-- A call that has ended is forgotten.
unfoldable pub end_call : Any → Peer → Peer
end_call id p = record p { calls = drop_call id p.calls; pending = drop_id id p.pending }
