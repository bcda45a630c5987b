-- ===== src/Peer/Sending.antt =====
-- What a peer of go/jsonrpc3/peer.go sends besides single calls: notifications and batches.
use jsonrpc.Base.{
  ℕ, ◌+◌, Bool, true, false, Option, none, some, List, [], ◌∷◌, ◌++◌, Str, codes, Result, ok, err,
  is_empty, is_some, if◌then◌else◌,
}
use jsonrpc.Base.Decimal.{decimal}
use jsonrpc.Any.{Any, nil, is_nil, deep_equal}
use jsonrpc.Message.{RawMessage, Request, Response}
use jsonrpc.Message.Convert.{batch_to_message_set, request_to_message_set}
use jsonrpc.Mime.{Codec, get_codec, mime_type_json}
use jsonrpc.Batch.{BatchRequest}
use jsonrpc.Peer.{Peer, Channel, empty, holding, shut, enqueue}
use jsonrpc.Peer.Calling.{call_id, call_request, encode_params, get_error}

abbrev pub map_option {ℓ} : {A B : Type ℓ} → (A → B) → Option A → Option B
map_option f none = none
map_option f (some x) = some (f x)

-- The text of a result, and that of its error behind another text.
abbrev pub failing {ℓ} : {A : Type ℓ} → Str → Result A → Result A
failing message (ok x) = ok x
failing message (err e) = err (message ++ e)

-- A notification goes into the queue, unless the peer is closed.
unfoldable pub send_notification : Str → Option Str → Result RawMessage → Peer → Peer × Result Any
unfolding enqueue
send_notification method ref (err e) p = (p, err (codes "failed to create notification: " ++ e))
send_notification method ref (ok raw) p =
    if p.closed
    then (p, err (codes "connection closed"))
    else (enqueue (request_to_message_set (call_request method ref raw nil)) p, ok nil)

-- `Notify`
unfoldable pub notify :
    (Codec → Any → Result Str) → Str → Any → Option Str → Peer → Peer × Result Any
unfolding send_notification
notify marshal method params ref p =
    if is_some p.conn_err
    then (p, err (get_error p.conn_err))
    else send_notification method ref (encode_params marshal (get_codec p.content_type) params) p

-- A reference that is not empty.
abbrev named_ref : Str → Option Str
named_ref ref = if is_empty ref then none else some ref

module _ (float_of : ℕ → ℕ) (marshal : Codec → Any → Result Str) where
  -- The number of IDs after a request of a batch, and the ID of the request.
  abbrev pub next_number : Bool → ℕ → ℕ
  next_number true n = n
  next_number false n = n + 1

  abbrev pub next_call_id : Bool → ℕ → Any
  next_call_id true n = nil
  next_call_id false n = call_id float_of (n + 1)

  abbrev batch_request : BatchRequest → Any → RawMessage → Request
  batch_request b id raw = call_request b.method (named_ref b.ref) raw id

  abbrev pub add_request :
      BatchRequest
      → Any
      → Result RawMessage
      → ℕ
      → ℕ × Result (List Request)
      → ℕ × Result (List Request)
  add_request b id (err e) n' rest = (n', err e)
  add_request b id (ok raw) n' (n, err e) = (n, err e)
  add_request b id (ok raw) n' (n, ok reqs) = (n, ok (batch_request b id raw ∷ reqs))

  -- The requests of a batch with their IDs, and the number of the last ID. The parameters are encoded
  -- as JSON. The loop stops at the first failure.
  unfoldable pub make_requests : ℕ → ℕ → List BatchRequest → ℕ × Result (List Request)
  make_requests i n [] = (n, ok [])
  make_requests i n (b ∷ bs) =
      let n' = next_number b.is_notification n in
      let raw =
        failing (codes "failed to create request " ++ decimal i ++ codes ": ")
          (encode_params marshal (get_codec mime_type_json) b.params) in
      let rest = make_requests (i + 1) n' bs in
      add_request b (next_call_id b.is_notification n) raw n' rest

  -- The IDs of the requests that have one, and their channels.
  abbrev pub batch_ids : List Request → List Any
  batch_ids [] = []
  batch_ids (r ∷ rs) = let rest = batch_ids rs in if is_nil r.id then rest else r.id ∷ rest

  abbrev pub batch_calls : List Request → List (Any × Channel)
  batch_calls [] = []
  batch_calls (r ∷ rs) =
      let rest = batch_calls rs in if is_nil r.id then rest else (r.id, empty) ∷ rest

  unfoldable pub send_batch : ℕ × Result (List Request) → Peer → Peer × Result (List Request)
  unfolding enqueue
  send_batch (n, err e) p = (record p { next_id = n }, err e)
  send_batch (n, ok reqs) p =
      if p.closed then (record p { next_id = n }, err (codes "connection closed")) else (
        enqueue (batch_to_message_set reqs) (record p {
          next_id = n;
          calls = batch_calls reqs ++ p.calls;
          pending = batch_ids reqs ++ p.pending;
        }),
        ok reqs,
      )

  -- The first half of `CallBatch`: the requests, in the queue as one batch. No requests need no batch.
  unfoldable pub begin_batch : List BatchRequest → Peer → Peer × Result (List Request)
  unfolding send_batch
  begin_batch [] p = if is_some p.conn_err then (p, err (get_error p.conn_err)) else (p, ok [])
  begin_batch (b ∷ bs) p =
      if is_some p.conn_err
      then (p, err (get_error p.conn_err))
      else send_batch (make_requests 0 p.next_id (b ∷ bs)) p

-- The channel of the call with an ID.
abbrev pub channel_of : Any → List (Any × Channel) → Option Channel
channel_of id [] = none
channel_of id ((j, ch) ∷ calls) =
    let rest = channel_of id calls in if deep_equal j id then some ch else rest

-- A response from a channel, in front of those of the later requests; a closed channel gives nil.
abbrev pub add_received :
    Option Channel → Option (List (Option Response)) → Option (List (Option Response))
add_received none rest = none
add_received (some empty) rest = none
add_received (some shut) rest = map_option (λ rs. none ∷ rs) rest
add_received (some (holding r)) rest = map_option (λ rs. some r ∷ rs) rest

-- The second half of `CallBatch`: the responses by the position of their requests, nil for a
-- notification; `none` while a response is missing, where the call waits or gives up.
unfoldable pub collect : List Request → List (Any × Channel) → Option (List (Option Response))
collect [] calls = some []
collect (r ∷ rs) calls =
    let rest = collect rs calls in
    if is_nil r.id
    then map_option (λ qs. none ∷ qs) rest
    else add_received (channel_of r.id calls) rest
