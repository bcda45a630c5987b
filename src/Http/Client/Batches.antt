-- ===== src/Http/Client/Batches.antt =====
-- `Notify` and `CallBatch` of go/jsonrpc3/http_client.go. `show` stands for `fmt.Sprintf("%v")`.
pub mod Aligned
use jsonrpc.Base.{
  ℕ, ◌+◌, Bool, true, false, not, ◌&&◌, ◌||◌, ◌==◌, Option, none, some, List, [], ◌∷◌, ◌++◌, map,
  Str, codes, Result, ok, err, if◌then◌else◌,
}
use jsonrpc.Base.Decimal.{decimal}
use jsonrpc.Base.Dict.{Dict, lookup, insert}
use jsonrpc.Any.{Any, nil, is_nil}
use jsonrpc.Message.{RawMessage, Request, Response, Batch, BatchResponse, MessageSet}
use jsonrpc.Message.Convert.{request_to_message_set, batch_to_message_set, to_batch_response}
use jsonrpc.Mime.{Codec, get_codec}
use jsonrpc.Env.{Env}
use jsonrpc.Batch.{BatchRequest, BatchResults}
use jsonrpc.Peer.Calling.{encode_params, call_request}
use jsonrpc.Http.{Wire}
use jsonrpc.Http.Client.{
  HttpClient, HttpReply, Attempt, finished, rejected, generate_id, should_fallback, reject,
  status_error, formats, do_request, try_formats,
}
use jsonrpc.Http.Client.Calls.{settle}

-- An error with its context.
abbrev in_context : {A : Type 0} → Str → Result A → Result A
in_context what (ok a) = ok a
in_context what (err e) = err (what ++ e)

abbrev then_encode : {A : Type 0} → (A → Result Str) → Result A → Result Str
then_encode f (ok a) = f a
then_encode f (err e) = err e

-- The responses of a batch by the text of their IDs; the last of one text stays.
unfoldable pub response_map : (Any → Str) → List Response → Dict Response → Dict Response
response_map show [] d = d
response_map show (r ∷ rs) d =
    response_map show rs (if is_nil r.id then d else insert (show r.id) r d)

-- The responses by the position of their requests.
unfoldable pub align : (Any → Str) → Batch → List Response → List (Option Response)
unfolding response_map
align show batch rs =
    map (λ req. if is_nil req.id then none else lookup (show req.id) (response_map show rs []))
      batch

module _ (wire : Wire) (env : Env) (show : Any → Str) where
  open env use {marshal}

  abbrev raw_request : Str → Option Str → Any → Result RawMessage → Result Request
  raw_request method ref id (ok raw) = ok (call_request method ref raw id)
  raw_request method ref id (err e) = err e

  -- `NewRequestWithFormat`, with the reference that the caller sets.
  abbrev new_request : Str → Any → Option Str → Any → Str → Result Request
  new_request method params ref id format =
      raw_request method ref id (encode_params marshal (get_codec format) params)

  abbrev encoded_notification : Str → Request → Result Str
  encoded_notification format req =
      in_context (codes "failed to encode notification: ")
        (wire.marshal_messages (get_codec format) (request_to_message_set req))

  unfoldable pub encode_notification : Str → Any → Option Str → Str → Result Str
  encode_notification method params ref format = then_encode (encoded_notification format) (
      in_context (codes "failed to create notification: ")
        (new_request method params ref nil format))

  -- What an attempt of `Notify` makes of a reply: an error, or none.
  unfoldable pub read_notified : Str → HttpReply → HttpClient → Attempt (Option Str) × HttpClient
  read_notified format r c =
      if should_fallback r.status
      then (rejected (reject format r.status), c)
      else if not (r.status == 204) && not (r.status == 200)
      then (finished (some (status_error r)), c)
      else (finished none, settle format c)

  abbrev id_for : Bool → HttpClient → HttpClient × Any
  id_for true c = (c, nil)
  id_for false c = generate_id c

  abbrev add_request :
      ℕ → Result Request → HttpClient × Result Batch → HttpClient → HttpClient × Result Batch
  add_request i (err e) rest c =
      (c, err (codes "failed to create request " ++ (decimal i ++ (codes ": " ++ e))))
  add_request i (ok req) (c', ok reqs) c = (c', ok (req ∷ reqs))
  add_request i (ok req) (c', err e) c = (c', err e)

  -- The requests of a batch, from an index on; the first that cannot be made ends it.
  unfoldable pub build_batch : ℕ → Str → List BatchRequest → HttpClient → HttpClient × Result Batch
  build_batch i format [] c = (c, ok [])
  build_batch i format (b ∷ bs) c =
      let (c1, id) = id_for b.is_notification c in
      add_request i (new_request b.method b.params (some b.ref) id format)
        (build_batch (i + 1) format bs c1) c1

  abbrev encode_batch : Str → Batch → Result Str
  encode_batch format batch =
      in_context (codes "failed to encode batch: ")
        (wire.marshal_messages (get_codec format) (batch_to_message_set batch))

  abbrev aligned :
      Str → Batch → HttpClient → Result BatchResponse → Result BatchResults × HttpClient
  aligned format batch c (err e) = (err (codes "invalid batch response: " ++ e), c)
  aligned format batch c (ok rs) =
      (ok (record { responses = align show batch rs; format = format }), settle format c)

  abbrev decoded_batch :
      Str → Batch → HttpClient → Result MessageSet → Result BatchResults × HttpClient
  decoded_batch format batch c (err e) = (err (codes "failed to decode batch response: " ++ e), c)
  decoded_batch format batch c (ok ms) = aligned format batch c (to_batch_response ms)

  abbrev batch_body : Str → Batch → HttpClient → Option Str → Result BatchResults × HttpClient
  batch_body format batch c none = (err (codes "failed to read response"), c)
  batch_body format batch c (some bytes) =
      decoded_batch format batch c (wire.unmarshal_messages (get_codec format) bytes)

  -- What an attempt of `CallBatch` makes of a reply.
  unfoldable pub read_batch :
      Str → Batch → HttpReply → HttpClient → Attempt (Result BatchResults) × HttpClient
  unfolding align
  read_batch format batch r c =
      let (results, c') = batch_body format batch c r.body in
      if should_fallback r.status
      then (rejected (reject format r.status), c)
      else if r.status == 204
      then (
        finished (ok (record { responses = map (λ req. none) batch; format = format })),
        settle format c,
      )
      else if not (r.status == 200)
      then (finished (err (status_error r)), c)
      else (finished results, c')

  module _ (Net : Type 0) (send : Str → Str → Str → Net → Result HttpReply × Net) where
    abbrev replied :
        {A : Type 0}
        → (HttpReply → HttpClient → Attempt A × HttpClient)
        → Result HttpReply × HttpClient × Net
        → Attempt A × HttpClient × Net
    replied read (err e, c, n) = (rejected e, c, n)
    replied read (ok r, c, n) = let (a, c') = read r c in (a, c', n)

    abbrev posted_notification :
        ℕ → Str → HttpClient → Net → Result Str → Attempt (Option Str) × HttpClient × Net
    posted_notification now format c n (err e) = (finished (some e), c, n)
    posted_notification now format c n (ok bytes) =
        replied (read_notified format) (do_request Net send now bytes format c n)

    abbrev attempt_notify :
        ℕ
        → Str
        → Any
        → Option Str
        → Str
        → HttpClient
        → Net
        → Attempt (Option Str) × HttpClient × Net
    attempt_notify now method params ref format c n =
        posted_notification now format c n (encode_notification method params ref format)

    -- `Notify`
    unfoldable pub notify_http :
        ℕ → Str → Any → Option Str → HttpClient → Net → Option Str × HttpClient × Net
    unfolding encode_notification read_notified do_request try_formats
    notify_http now method params ref c n =
        try_formats (attempt_notify now method params ref) (λ e. some e) (formats c) [] c n

    abbrev posted_bytes :
        ℕ
        → Str
        → Batch
        → HttpClient
        → Net
        → Result Str
        → Attempt (Result BatchResults) × HttpClient × Net
    posted_bytes now format batch c n (err e) = (finished (err e), c, n)
    posted_bytes now format batch c n (ok bytes) =
        replied (read_batch format batch) (do_request Net send now bytes format c n)

    abbrev posted_batch :
        ℕ → Str → Net → HttpClient × Result Batch → Attempt (Result BatchResults) × HttpClient × Net
    posted_batch now format n (c, err e) = (finished (err e), c, n)
    posted_batch now format n (c, ok batch) =
        posted_bytes now format batch c n (encode_batch format batch)

    abbrev attempt_batch :
        ℕ
        → List BatchRequest
        → Str
        → HttpClient
        → Net
        → Attempt (Result BatchResults) × HttpClient × Net
    attempt_batch now bs format c n = posted_batch now format n (build_batch 0 format bs c)

    -- `CallBatch`
    unfoldable pub call_batch_http :
        ℕ → List BatchRequest → HttpClient → Net → Result BatchResults × HttpClient × Net
    unfolding build_batch read_batch do_request try_formats
    call_batch_http now [] c n = (err (codes "batch cannot be empty"), c, n)
    call_batch_http now (b ∷ bs) c n =
        try_formats (attempt_batch now (b ∷ bs)) (λ e. err e) (formats c) [] c n
