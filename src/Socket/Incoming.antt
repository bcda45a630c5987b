-- ===== src/Socket/Incoming.antt =====
-- The read loop of go/jsonrpc3/websocket_client.go.
use jsonrpc.Base.{ℕ, Option, none, some, List, [], ◌∷◌, ◌++◌, Str, codes, Result, ok, err}
use jsonrpc.Any.{text}
use jsonrpc.Message.{Error, Request, Response, Message, MessageSet, Batch, BatchResponse}
use jsonrpc.Message.Convert.{
  message_to_request, to_batch, response_to_message_set, batch_response_to_message_set,
}
use jsonrpc.Message.Errors.{new_internal_error, new_invalid_request_error}
use jsonrpc.Session.{Session}
use jsonrpc.Env.{Env}
use jsonrpc.Handler.{Handler, handle_request, handle_batch}
use jsonrpc.Peer.{
  Peer, Incoming, batch_requests, single_request, responses, invalid_batch, classify,
  error_responses, handle_responses,
}
use jsonrpc.Http.{Wire}
use jsonrpc.Socket.{Socket, queue_bytes, socket_codec}

module _ (wire : Wire) (env : Env) where
  open env use {World}

  abbrev pub After : Type 0
  After = Socket × Session × World

  -- What was encoded goes into the queue; an answer that cannot be encoded is dropped.
  abbrev pub queue_encoded : Result Str → Socket → Socket
  queue_encoded (ok bytes) c = queue_bytes bytes c
  queue_encoded (err e) c = c

  abbrev pub send_errors : BatchResponse → Socket → Socket
  send_errors [] c = c
  send_errors (r ∷ rs) c =
      queue_encoded
        (wire.marshal_messages (socket_codec wire c) (batch_response_to_message_set (r ∷ rs))) c

  -- `sendErrorForBatch`
  unfoldable pub send_error_for_batch : MessageSet → Error → Socket → Socket
  send_error_for_batch ms e c = send_errors (error_responses ms.messages e) c

  abbrev pub answered : Option Response × Session × World → Socket → After
  answered (none, s, w) c = (c, s, w)
  answered (some r, s, w) c = (
    queue_encoded (wire.marshal_messages (socket_codec wire c) (response_to_message_set r)) c,
    s,
    w,
  )

  abbrev pub socket_answer : Handler → ℕ → Option Request → Socket → Session → World → After
  socket_answer h now none c s w = (c, s, w)
  socket_answer h now (some req) c s w = answered (handle_request env h now req s w) c

  -- `handleIncomingRequest`
  unfoldable pub socket_incoming_request : Handler → ℕ → Message → Socket → Session → World → After
  socket_incoming_request h now m c s w = socket_answer h now (message_to_request m) c s w

  -- Responses that cannot be encoded are replaced by errors for all requests.
  abbrev pub queue_responses : MessageSet → Result Str → Socket → Socket
  queue_responses ms (ok bytes) c = queue_bytes bytes c
  queue_responses ms (err e) c =
      send_error_for_batch ms (new_internal_error (text (codes "failed to encode response: " ++ e)))
        c

  abbrev pub answered_batch : MessageSet → BatchResponse × Session × World → Socket → After
  answered_batch ms ([], s, w) c = (c, s, w)
  answered_batch ms (r ∷ rs, s, w) c = (
    queue_responses ms
        (wire.marshal_messages (socket_codec wire c) (batch_response_to_message_set (r ∷ rs))) c,
    s,
    w,
  )

  abbrev pub socket_batch_answer :
      Handler → ℕ → MessageSet → Result Batch → Socket → Session → World → After
  socket_batch_answer h now ms (err e) c s w = (
    send_error_for_batch ms (new_internal_error (text (codes "failed to parse batch: " ++ e))) c,
    s,
    w,
  )
  socket_batch_answer h now ms (ok batch) c s w =
      answered_batch ms (handle_batch env h now batch s w) c

  -- `handleIncomingBatch`
  unfoldable pub socket_incoming_batch : Handler → ℕ → MessageSet → Socket → Session → World → After
  unfolding send_error_for_batch
  socket_incoming_batch h now ms c s w = socket_batch_answer h now ms (to_batch ms) c s w

  abbrev pub first_request : Handler → ℕ → List Message → Socket → Session → World → Option After
  first_request h now [] c s w = none
  first_request h now (m ∷ ms) c s w = some (socket_incoming_request h now m c s w)

  abbrev pub with_peer : Socket → Session → World → Option Peer → Option After
  with_peer c s w none = none
  with_peer c s w (some p) = some (record c { peer = p }, s, w)

  -- The handlers by the kind of the message set; `none` is a panic.
  abbrev pub socket_dispatch :
      Incoming → Handler → ℕ → MessageSet → Socket → Session → World → Option After
  socket_dispatch batch_requests h now ms c s w = some (socket_incoming_batch h now ms c s w)
  socket_dispatch single_request h now ms c s w = first_request h now ms.messages c s w
  socket_dispatch responses h now ms c s w = with_peer c s w (handle_responses ms.messages c.peer)
  socket_dispatch invalid_batch h now ms c s w = some (
    send_error_for_batch ms
        (new_invalid_request_error (text (codes "mixed requests and responses in batch"))) c,
    s,
    w,
  )

  abbrev dispatch_decoded :
      Handler → ℕ → Result MessageSet → Socket → Session → World → Option After
  dispatch_decoded h now (err e) c s w = some (c, s, w)
  dispatch_decoded h now (ok ms) c s w = socket_dispatch (classify ms) h now ms c s w

  -- One round of `readLoop` with the bytes of a message; those that cannot be decoded are ignored.
  unfoldable pub socket_receive : Handler → ℕ → Str → Socket → Session → World → Option After
  unfolding socket_incoming_request socket_incoming_batch send_error_for_batch
  socket_receive h now bytes c s w =
      dispatch_decoded h now (wire.unmarshal_messages (socket_codec wire c) bytes) c s w
