-- ===== src/Stream/Http2Client.antt =====
-- `HTTP2Client` of go/jsonrpc3/http2_client.go: its code is that of a peer but for `CallBatch`, whose
-- parameters are in the client's format, and the write loop, which is in Stream. The dialling is left
-- out.
use jsonrpc.Base.{
  ℕ, ◌==◌, not, Option, none, some, List, [], ◌∷◌, ◌++◌, Str, codes, Result, if◌then◌else◌,
}
use jsonrpc.Base.Decimal.{decimal}
use jsonrpc.Any.{Any}
use jsonrpc.Message.{Request, MessageSet, version_30}
use jsonrpc.Mime.{Codec}
use jsonrpc.Session.{Session, Traits, Cleanup}
use jsonrpc.Batch.{BatchRequest}
use jsonrpc.Env.{Env}
use jsonrpc.Handler.{Handler}
use jsonrpc.Peer.{Peer, new_peer, register_object, unregister_object, close_peer, set_error}
use jsonrpc.Peer.Calling.{begin_call}
use jsonrpc.Peer.Sending.{notify}
use jsonrpc.Peer.Reading.{receive}
use jsonrpc.Http.{Wire}
use jsonrpc.Stream.{stream_batch}

-- What `connect` waits for.
pub data Connecting : Type 0 where
  refused : Str → Connecting
  replied : ℕ → Connecting
  timed_out : Connecting

-- `connect`: the error, if there is one.
unfoldable pub connect : Connecting → Option Str
connect (refused e) = some (codes "failed to connect: " ++ e)
connect (replied status) =
    if not (status == 200) then some (codes "server returned status " ++ decimal status) else none
connect timed_out = some (codes "connection timeout")

abbrev connected : Option Str → Str → Str → Option Peer
connected (some e) content_type prefix = none
connected none content_type prefix = some (new_peer content_type prefix)

-- `newHTTP2Client`: the client, unless it cannot connect.
unfoldable pub new_http2_client : Connecting → Str → Str → Option Peer
unfolding connect
new_http2_client c content_type prefix = connected (connect c) content_type prefix

-- The handler of a client, whose one MIME type is its content type.
abbrev pub client_handler : Option ℕ → Str → Handler
client_handler root content_type = record {
  root_object = root;
  version = version_30;
  mime_types = content_type ∷ [];
}

module _ (wire : Wire) (float_of : ℕ → ℕ) (marshal : Codec → Any → Result Str) where
  -- The first half of `Call`.
  abbrev pub http2_client_call : Str → Any → Option Str → Peer → Peer × Result Any
  http2_client_call method params ref p = begin_call float_of marshal method params ref p

  -- `Notify`
  abbrev pub http2_client_notify : Str → Any → Option Str → Peer → Peer × Result Any
  http2_client_notify method params ref p = notify marshal method params ref p

  -- The first half of `CallBatch`.
  abbrev pub http2_client_batch : List BatchRequest → Peer → Peer × Result (List Request)
  http2_client_batch bs p = stream_batch wire float_of marshal bs p

-- `RegisterObject`
abbrev pub http2_client_register_object : Str → ℕ → Peer → Session → Peer × Session × Str
http2_client_register_object ref obj p s = register_object ref obj p s

-- `UnregisterObject`
abbrev pub http2_client_unregister_object : Traits → Str → Session → Session × List Cleanup
http2_client_unregister_object t ref s = unregister_object t ref s

-- `Close`
abbrev pub http2_client_close : Traits → Peer → Session → Peer × Session × List Cleanup
http2_client_close t p s = close_peer t p s

-- One round of `readLoop`: a message set, the end of the stream, or an error of the decoder. The last
-- two end the loop, and with it the connection.
pub data Decoded : Type 0 where
  decoded : MessageSet → Decoded
  end_of_stream : Decoded
  decode_error : Str → Decoded

module _ (env : Env) where
  open env use {World, traits}

  abbrev pub ended : Peer × Session × List Cleanup → World → Peer × Session × World × List Cleanup
  ended (p, s, calls) w = (p, s, w, calls)

  -- What the handlers do with a message set: `handleIncomingRequest` and those behind it.
  abbrev pub http2_client_handle :
      Handler → ℕ → MessageSet → Peer → Session → World → Option (Peer × Session × World)
  http2_client_handle h now ms p s w = receive env h now ms p s w

  abbrev pub going_on :
      Option (Peer × Session × World) → Option (Peer × Session × World × List Cleanup)
  going_on none = none
  going_on (some (p, s, w)) = some (p, s, w, [])

  -- `none` is a panic.
  unfoldable pub http2_client_read :
      Handler
      → ℕ
      → Decoded
      → Peer
      → Session
      → World
      → Option (Peer × Session × World × List Cleanup)
  http2_client_read h now (decoded ms) p s w = going_on (http2_client_handle h now ms p s w)
  http2_client_read h now end_of_stream p s w = some (ended (close_peer traits p s) w)
  http2_client_read h now (decode_error e) p s w =
      some (ended (close_peer traits (set_error (codes "read error: " ++ e) p) s) w)
