-- ===== src/Socket/Exchange.antt =====
-- A WebSocket client and its server: go/jsonrpc3/websocket_client.go and websocket_server.go.
use jsonrpc.Base.{
  ℕ, ◌+◌, false, Option, none, some, List, [], ◌∷◌, ◌++◌, Str, str_eq, Result, ok, is_empty, ◌≡◌,
  refl, ap, sym, ◌∙◌, Bool-cases, inl, inr,
}
use mathlib.Core.Path.{subst}
use jsonrpc.Any.{Any}
use jsonrpc.Message.{RawMessage, Response, MessageSet, set_request_format}
use jsonrpc.Message.Convert.{set_formats, request_to_message_set, response_to_message_set}
use jsonrpc.Message.Convert.RoundTrip.{HasOutcome}
use jsonrpc.Mime.{Codec, get_codec, codec_mime_type, mime_type_cbor, mime_type_cbor_compact}
use jsonrpc.Session.{Session}
use jsonrpc.Env.{Env}
use jsonrpc.Handler.{Handler, handle_request}
use jsonrpc.Handler.Single.{handle_request-Answers}
use jsonrpc.Peer.{Peer, holding, offer_call, is_hashable, new_peer}
use jsonrpc.Peer.Calling.{call_id, call_request, encode_params}
use jsonrpc.Peer.Reading.{receive}
use jsonrpc.Peer.Sending.{map_option}
use jsonrpc.Http.{Wire}
use jsonrpc.Socket.{Socket, socket_call, proposed_protocol, new_socket}
use jsonrpc.Socket.Incoming.{socket_receive}
use jsonrpc.Socket.Queueing.{Encodes, encoded, encode_after}
use jsonrpc.Socket.Refines.{EncodesAfter, socket_receive-receive}
use jsonrpc.Socket.Server.{new_web_socket_conn, served_content_type}
use jsonrpc.Stream.Ends.{receive-answer, receive-woken}
use jsonrpc.Stream.Exchange.{asking, listed_call, woken_calls}

-- Where the server accepts the subprotocol that the client proposes, both ends have the same content
-- type, whichever the client was made with.
pub new_web_socket_same :
    (asked prefix1 prefix2 : Str)
    → let protocol = proposed_protocol asked in
      (new_socket protocol asked prefix1).peer.content_type
      ≡ (new_web_socket_conn protocol prefix2).peer.content_type
unfolding new_socket new_web_socket_conn served_content_type new_peer
new_web_socket_same asked prefix1 prefix2 = elim (Bool-cases (str_eq asked mime_type_cbor)) [
  | inl cbor ↦ rw cbor refl
  | inr other ↦ elim (Bool-cases (str_eq asked mime_type_cbor_compact)) [
    | inl compact ↦ rw (other, compact) refl
    | inr json ↦ rw (other, json) refl
  ]
]

-- The first message in the queue of one end, as the read loop of the other takes it.
module _ (wire : Wire) (env : Env) (h : Handler) (now : ℕ) where
  open env use {World}

  abbrev pub beside :
      Socket → Option (Socket × Session × World) → Option (Socket × (Socket × Session × World))
  beside c none = none
  beside c (some end) = some (c, end)

  abbrev pub passed :
      List Str → Socket → Socket × Session × World → Option (Socket × (Socket × Session × World))
  passed [] c end = some (c, end)
  passed (bytes ∷ rest) c (d, s, w) =
      beside (record c { out = rest }) (socket_receive wire env h now bytes d s w)

  unfoldable pub pass_message :
      Socket → Socket × Session × World → Option (Socket × (Socket × Session × World))
  pass_message c end = passed c.out c end

  module _ (enc : Codec → MessageSet → Str) where
    -- The only message in the queue of a client that stands for a peer, as the other end reads it.
    pub pass_message-receive :
        (ms ms' : MessageSet) (x y y' : Peer) (s s' : Session) (w w' : World)
        → wire.unmarshal_messages (get_codec y.content_type) (enc (get_codec x.content_type) ms)
          ≡ ok ms'
        → receive env h now ms' y s w ≡ some (y', s', w')
        → Encodes wire env enc y'
        → pass_message
            (encoded wire env enc (record x { queue = ms ∷ [] }))
            (encoded wire env enc y, s, w)
          ≡ some (encoded wire env enc (record x { queue = [] }), (encoded wire env enc y', s', w'))
    unfolding pass_message
    pass_message-receive ms ms' x y y' s s' w w' decoded received fits =
        let bytes = enc (get_codec x.content_type) ms in
        let all_fit = subst (EncodesAfter wire env enc) (sym received) fits in
        ap (beside (encoded wire env enc (record x { queue = [] }))) (
          socket_receive-receive wire env enc h now bytes ms' y s w decoded all_fit
          ∙ ap (map_option (encode_after wire env enc)) received)

module _ (wire : Wire) (here there : Env) (h k : Handler) (now later : ℕ) where
  abbrev came_back :
      Option (Socket × (Socket × Session × here.World)) → Option (Socket × Session × here.World)
  came_back none = none
  came_back (some (d, end)) = some end

  abbrev turned :
      Session
      → here.World
      → Option (Socket × (Socket × Session × there.World))
      → Option (Socket × Session × here.World)
  turned s w none = none
  turned s w (some (c, (d, t, v))) = came_back (pass_message wire here h later d (c, s, w))

  -- A message of a client goes to the server, and the server's goes back.
  unfoldable pub socket_exchange :
      Socket × Session × here.World
      → Socket × Session × there.World
      → Option (Socket × Session × here.World)
  socket_exchange (c, s, w) end = turned s w (pass_message wire there k now c end)

  -- A call that is sent, on a client that stands for a peer.
  socket_call-asking :
      (enc : Codec → MessageSet → Str) (float_of : ℕ → ℕ) (marshal : Codec → Any → Result Str)
      (method : Str) (params : Any) (ref : Option Str) (raw : RawMessage) (p : Peer)
      → p.closed ≡ false
      → p.conn_err ≡ none
      → p.queue ≡ []
      → encode_params marshal (get_codec p.content_type) params ≡ ok raw
      → let codec = get_codec p.content_type in
        let id = call_id float_of (p.next_id + 1) in
        let ms = request_to_message_set (call_request method ref raw id) in
        wire.marshal_messages codec ms ≡ ok (enc codec ms)
        → (socket_call wire float_of marshal method params ref (encoded wire here enc p)).0
          ≡ encoded wire here enc (record (asking (p.next_id + 1) id ms p) { queue = ms ∷ [] })
  unfolding socket_call
  socket_call-asking enc float_of marshal method params ref raw p is_open no_error idle encodes
        writes =
      rw (no_error, encodes, writes, is_open, idle) refl

  module _ (enc : Codec → MessageSet → Str) where
    -- A call of a WebSocket client on an open connection, where both ends are of one content type, with
    -- empty queues, and the method responds with a result or an error: if the codec carries the request
    -- and the answer, then after one message each way the channel of the call holds the response that
    -- the handling of the request gave on the server, nothing is left in the client's queue, and other
    -- calls with the same ID are offered the response too.
    pub socket_exchange-socket_call :
        (float_of : ℕ → ℕ) (marshal : Codec → Any → Result Str) (method : Str) (params : Any)
        (ref : Option Str) (raw : RawMessage) (p q : Peer) (s : Session) (w : here.World)
        (t t' : Session) (v v' : there.World) (resp : Response)
        → p.queue ≡ []
        → q.queue ≡ []
        → p.closed ≡ false
        → q.closed ≡ false
        → p.conn_err ≡ none
        → q.content_type ≡ p.content_type
        → is_empty method ≡ false
        → encode_params marshal (get_codec p.content_type) params ≡ ok raw
        → let codec = get_codec p.content_type in
          let id = call_id float_of (p.next_id + 1) in
          let req = call_request method ref raw id in
          handle_request there k now (set_request_format (codec_mime_type codec) req) t v
            ≡ (some resp, t', v')
          → HasOutcome resp
          → wire.marshal_messages codec (request_to_message_set req)
            ≡ ok (enc codec (request_to_message_set req))
          → wire.unmarshal_messages codec (enc codec (request_to_message_set req))
            ≡ ok (set_formats (codec_mime_type codec) (request_to_message_set req))
          → wire.marshal_messages codec (response_to_message_set resp)
            ≡ ok (enc codec (response_to_message_set resp))
          → wire.unmarshal_messages codec (enc codec (response_to_message_set resp))
            ≡ ok (set_formats (codec_mime_type codec) (response_to_message_set resp))
          → socket_exchange
              (
                (socket_call wire float_of marshal method params ref (encoded wire here enc p)).0,
                s,
                w,
              )
              (encoded wire there enc q, t, v)
            ≡ some (
              record {
                peer = record p {
                  next_id = p.next_id + 1;
                  calls = (id, holding resp) ∷ offer_call id resp p.calls;
                  pending = id ∷ p.pending;
                  queue = [];
                };
                out = [];
              },
              s,
              w,
            )
    unfolding socket_exchange is_hashable set_request_format
    socket_exchange-socket_call float_of marshal method params ref raw p q s w t t' v v' resp idle_p
          idle_q open_p open_q no_error same named encoded_raw handled outcome writes carries
          writes_back carries_back =
        let codec = get_codec p.content_type in
        let f = codec_mime_type codec in
        let n = p.next_id + 1 in
        let id = call_id float_of n in
        let req = call_request method ref raw id in
        let asked = asking n id (request_to_message_set req) p in
        let sent = record asked { queue = [] } in
        let answer = response_to_message_set resp in
        let id_same : resp.id ≡ id =
          (handle_request-Answers there k now (set_request_format f req) t v resp
            (ap (λ o. o.0) handled)).0 in
        let asks =
          socket_call-asking enc float_of marshal method params ref raw p open_p no_error idle_p
            encoded_raw writes in
        let there_is =
          pass_message-receive wire there k now enc (request_to_message_set req) _ asked q
            (record q { queue = answer ∷ [] }) t t' v v'
            (ap
                (λ c.
                  wire.unmarshal_messages (get_codec c) (enc codec (request_to_message_set req)))
                same
              ∙ carries)
            (receive-answer there k now f req resp q t t' v v' named open_q handled
              ∙ ap (λ l. some (record q { queue = l ++ answer ∷ [] }, t', v')) idle_q)
            (
              ap (λ c. wire.marshal_messages (get_codec c) answer) same
                  ∙ writes_back
                  ∙ ap (λ c. ok (enc (get_codec c) answer)) (sym same),
              tt,
            ) in
        let woken =
          receive-woken here h later f resp sent s w outcome (ap is_hashable id_same)
            (listed_call float_of n resp.id p.pending id_same) in
        let back =
          pass_message-receive wire here h later enc answer _ q sent _ s s w w
            (ap (λ c. wire.unmarshal_messages codec (enc (get_codec c) answer)) same ∙ carries_back)
            woken tt in
        ap (λ c. turned s w (pass_message wire there k now c (encoded wire there enc q, t, v))) asks
        ∙ (ap (turned s w) there_is
            ∙ (ap came_back back
                ∙ ap (λ c. some (encoded wire here enc (record sent { calls = c }), s, w))
                    (woken_calls float_of n resp p.calls id_same)))
