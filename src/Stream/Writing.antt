-- ===== src/Stream/Writing.antt =====
-- What reaches the stream, and what a failing write leads to: the write loops of
-- go/jsonrpc3/http2_client.go, http2_server.go, webtransport_client.go and webtransport_server.go.
use jsonrpc.Base.{
  ℕ, length, zero, suc, true, false, Option, none, some, List, [], ◌∷◌, ◌++◌, Str, codes, ◌≡◌, refl,
  sym, ap, ◌∙◌, Bool-cases, Result, ok, map, All, append-nil, append_assoc, inl, inr,
}
use jsonrpc.Any.{Any, deep_equal, is_nil, text}
use jsonrpc.Message.{Request, Response, MessageSet}
use jsonrpc.Message.Errors.{new_internal_error}
use jsonrpc.Mime.{Codec, get_codec, codec_mime_type}
use jsonrpc.Peer.{
  Peer, Channel, empty, holding, listed, offer, offer_call, notify_pending_request, set_error,
}
use jsonrpc.Peer.Sending.{channel_of, map_option}
use jsonrpc.Message.Convert.{set_formats}
use jsonrpc.Http.{Wire}
use jsonrpc.Http.EndToEnd.{Recovers}
use jsonrpc.Stream.{
  Item, item_set, request_item, write_item, write_items, web_transport_write_loop,
  http2_client_write_loop,
}

-- The channel of a call, offered a response.
channel_of-offer_call :
    (id : Any) (r : Response) (calls : List (Any × Channel))
    → channel_of id (offer_call id r calls) ≡ map_option (offer r) (channel_of id calls)
channel_of-offer_call id r [] = refl
channel_of-offer_call id r ((j, ch) ∷ calls) = elim (Bool-cases (deep_equal j id)) [
  | inl same ↦ rw same refl
  | inr other ↦ rw other (channel_of-offer_call id r calls)
]

-- The response that a request gets which cannot be sent.
abbrev pub send_failure : Request → Str → Response
send_failure req e = record {
  jsonrpc = req.jsonrpc;
  result = none;
  error = some (new_internal_error (text (codes "Failed to send request: " ++ e)));
  id = req.id;
}

module _ (wire : Wire) (Net : Type 0) (write : Str → Net → Option Str × Net) where
  -- A request that cannot be encoded or written, while its call waits: a WebTransport connection stops
  -- writing, wakes the call with an internal error that says why, and from then on has that error.
  pub web_transport_write_failure :
      (req : Request) (is : List Item) (p : Peer) (n n' : Net) (e : Str)
      → write_item wire Net write (get_codec p.content_type) (request_item req) n ≡ (some e, n')
      → is_nil req.id ≡ false
      → listed req.id p.pending ≡ true
      → channel_of req.id p.calls ≡ some empty
      → p.conn_err ≡ none
      → let (p', is', n2) = web_transport_write_loop wire Net write (request_item req ∷ is) p n in
        (channel_of req.id p'.calls ≡ some (holding (send_failure req e)))
        × (p'.conn_err ≡ some e)
        × (is' ≡ is)
  unfolding web_transport_write_loop write_items notify_pending_request set_error
  web_transport_write_failure req is p n n' e fails has_id waits idle no_error =
      rw (fails, has_id, waits, no_error)
        (
          channel_of-offer_call req.id (send_failure req e) p.calls
              ∙ ap (map_option (offer (send_failure req e))) idle,
          refl,
          refl,
        )

  -- An HTTP/2 client in the same place leaves the call to its timeout: the channel stays empty, though
  -- the connection has the error and nothing is written any more.
  pub http2_client_write_failure :
      (req : Request) (is : List Item) (p : Peer) (n n' : Net) (e : Str)
      → write_item wire Net write (get_codec p.content_type) (request_item req) n ≡ (some e, n')
      → p.conn_err ≡ none
      → let (p', is', n2) = http2_client_write_loop wire Net write (request_item req ∷ is) p n in
        (p'.calls ≡ p.calls) × (p'.conn_err ≡ some e) × (is' ≡ is)
  unfolding http2_client_write_loop write_items set_error
  http2_client_write_failure req is p n n' e fails no_error =
      rw (fails, no_error) (refl, refl, refl)

-- A stream that takes everything, as the bytes that were written.
abbrev pub recorded : Str → Str → Option Str × Str
recorded bytes stream = (none, stream ++ bytes)

-- `next` is the decoder of the library, which takes the bytes of one value off a stream.
module _ (wire : Wire) (next : Codec → Str → Option (Str × Str)) where
  -- `Decode` of the message decoders, with what is left of the stream; `none` at the end of the stream,
  -- or where the library finds no value.
  abbrev pub decode_next : Codec → Option (Str × Str) → Option (Result MessageSet × Str)
  decode_next codec none = none
  decode_next codec (some (raw, rest)) = some (wire.unmarshal_messages codec raw, rest)

  unfoldable pub decode : Codec → Str → Option (Result MessageSet × Str)
  decode codec stream = decode_next codec (next codec stream)

  -- Up to so many rounds of a read loop: what is decoded, and the rest of the stream.
  unfoldable pub decode_all : Codec → ℕ → Str → List (Result MessageSet) × Str
  decode_all codec zero stream = ([], stream)
  decode_all codec (suc n) stream = elim (decode codec stream) [
    | none ↦ ([], stream)
    | some (r, rest) ↦ (let (rs, left) = decode_all codec n rest in (r ∷ rs, left))
  ]

  module _ (codec : Codec) (enc : MessageSet → Str) where
    -- An item that the codec recovers, and whose bytes the library's decoder tells from what follows.
    abbrev pub Carried : Item → Type 0
    Carried i =
        Recovers wire codec (item_set i) (enc (item_set i))
        × ((rest : Str) → next codec (enc (item_set i) ++ rest) ≡ some (enc (item_set i), rest))

    abbrev stream_of : List Item → Str
    stream_of [] = []
    stream_of (i ∷ is) = enc (item_set i) ++ stream_of is

    write_items-stream_of :
        (fails : Item → Str → Peer → Peer) (is : List Item) (p : Peer) (n : Str)
        → All Carried is
        → write_items wire Str recorded fails codec is p n ≡ (p, [], n ++ stream_of is)
    unfolding write_items write_item
    write_items-stream_of fails [] p n h = ap (λ l. (p, [], l)) (sym (append-nil n))
    write_items-stream_of fails (i ∷ is) p n (((writes, reads), delimited), hs) = rw writes (
        write_items-stream_of fails is p (n ++ enc (item_set i)) hs
        ∙ ap (λ l. (p, [], l)) (append_assoc n (enc (item_set i)) (stream_of is)))

    decode_all-more :
        (n : ℕ) (stream raw rest : Str)
        → next codec stream ≡ some (raw, rest)
        → decode_all codec (suc n) stream ≡ (
            let (rs, left) = decode_all codec n rest in
            (wire.unmarshal_messages codec raw ∷ rs, left))
    unfolding decode_all decode
    decode_all-more n stream raw rest e = rw (e, decode_all) refl

    decode_all-stream_of :
        (is : List Item)
        → All Carried is
        → decode_all codec (length is) (stream_of is)
          ≡ (map (λ i. ok (set_formats (codec_mime_type codec) (item_set i))) is, [])
    unfolding decode_all
    decode_all-stream_of [] h = refl
    decode_all-stream_of (i ∷ is) (((writes, reads), delimited), hs) =
        decode_all-more (length is) _ _ _ (delimited (stream_of is))
        ∙ rw (reads, decode_all-stream_of is hs) refl

    -- Where no write fails, and the codec recovers every item, from bytes that the library's decoder
    -- tells from whatever follows them: a write loop empties its channel and changes nothing of the
    -- connection, and a reader of the bytes on the stream, which are written without marks between
    -- them, decodes the items' message sets, each once and in the order in which they were sent, up to
    -- the end of the stream.
    pub write_items-decode_all :
        (fails : Item → Str → Peer → Peer) (is : List Item) (p : Peer)
        → All Carried is
        → let (p', waiting, stream) = write_items wire Str recorded fails codec is p [] in
          (p' ≡ p)
          × (waiting ≡ [])
          × (decode_all codec (length is) stream
              ≡ (map (λ i. ok (set_formats (codec_mime_type codec) (item_set i))) is, []))
    write_items-decode_all fails is p h =
        let e = write_items-stream_of fails is p [] h in
        (
          ap (λ r. r.0) e,
          ap (λ r. r.1) e,
          ap (λ r. decode_all codec (length is) r.2) e ∙ decode_all-stream_of is h,
        )
