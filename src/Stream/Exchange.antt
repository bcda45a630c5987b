-- ===== src/Stream/Exchange.antt =====
-- A call from one end of a WebTransport stream to the other, and its answer:
-- go/jsonrpc3/webtransport_client.go and webtransport_server.go.
use jsonrpc.Base.{
  ℕ, ◌+◌, ◌||◌, true, false, Option, none, some, List, [], ◌∷◌, ◌++◌, Str, Result, ok, is_empty,
  if◌then◌else◌, ◌≡◌, refl, sym, ap, ◌∙◌, arith,
}
use mathlib.Core.Path.{subst}
use jsonrpc.Any.{Any, deep_equal}
use jsonrpc.Message.{RawMessage, Response, MessageSet, set_request_format}
use jsonrpc.Message.Convert.{set_formats, request_to_message_set, response_to_message_set}
use jsonrpc.Message.Convert.RoundTrip.{HasOutcome}
use jsonrpc.Mime.{Codec, get_codec, codec_mime_type}
use jsonrpc.Session.{Session}
use jsonrpc.Env.{Env}
use jsonrpc.Handler.{Handler, handle_request}
use jsonrpc.Handler.Single.{handle_request-Answers}
use jsonrpc.Peer.{Peer, Channel, empty, holding, offer_call, listed, is_hashable, enqueue}
use jsonrpc.Peer.Calling.{begin_call, send_call, call_id, call_request, encode_params}
use jsonrpc.Http.{Wire}
use jsonrpc.Http.EndToEnd.{Recovers}
use jsonrpc.Stream.WebTransportClient.{web_transport_client_call}
use jsonrpc.Stream.Ends.{End, pass_one, paired, carried, read_set, receive-answer, receive-woken}

pub call_id_same :
    (float_of : ℕ → ℕ) (n : ℕ) → deep_equal (call_id float_of n) (call_id float_of n) ≡ true
unfolding deep_equal
call_id_same float_of n = ground arith

-- A call waits for the response that has its ID, and is woken by it.
pub listed_call :
    (float_of : ℕ → ℕ) (n : ℕ) (id : Any) (ids : List Any)
    → id ≡ call_id float_of n
    → listed id (call_id float_of n ∷ ids) ≡ true
listed_call float_of n id ids same =
    ap (λ i. listed i (call_id float_of n ∷ ids)) same
    ∙ ap (λ b. b || listed (call_id float_of n) ids) (call_id_same float_of n)

pub woken_calls :
    (float_of : ℕ → ℕ) (n : ℕ) (resp : Response) (calls : List (Any × Channel))
    → resp.id ≡ call_id float_of n
    → offer_call resp.id resp ((call_id float_of n, empty) ∷ calls)
      ≡ (call_id float_of n, holding resp) ∷ offer_call (call_id float_of n) resp calls
woken_calls float_of n resp calls same =
    let id = call_id float_of n in
    ap (λ i. offer_call i resp ((id, empty) ∷ calls)) same
    ∙ ap (λ b. (id, if b then holding resp else empty) ∷ offer_call id resp calls)
        (call_id_same float_of n)

-- A peer with one call that waits, and its request in the queue.
abbrev pub asking : ℕ → Any → MessageSet → Peer → Peer
asking n id ms p = record p {
  next_id = n;
  calls = (id, empty) ∷ p.calls;
  pending = id ∷ p.pending;
  queue = p.queue ++ ms ∷ [];
}

pub begin_call-asking :
    (float_of : ℕ → ℕ) (marshal : Codec → Any → Result Str) (method : Str) (params : Any)
    (ref : Option Str) (raw : RawMessage) (p : Peer)
    → p.closed ≡ false
    → p.conn_err ≡ none
    → encode_params marshal (get_codec p.content_type) params ≡ ok raw
    → let id = call_id float_of (p.next_id + 1) in
      begin_call float_of marshal method params ref p ≡ (
        asking (p.next_id + 1) id (request_to_message_set (call_request method ref raw id)) p,
        ok id,
      )
unfolding begin_call send_call enqueue
begin_call-asking float_of marshal method params ref raw p is_open no_error encodes =
    rw (encodes, is_open, no_error) refl

module _ (wire : Wire) (env : Env) (h : Handler) (now : ℕ) where
  open env use {World}

  -- The only item in the queue of one end, as the other reads it.
  pass_one-receive :
      (ms : MessageSet) (bytes : Str) (p q : Peer) (s : Session) (w : World) (end : End env)
      → q.content_type ≡ p.content_type
      → Recovers wire (get_codec p.content_type) ms bytes
      → read_set wire env h now
          (ok (set_formats (codec_mime_type (get_codec p.content_type)) ms))
          (q, s, w)
        ≡ some end
      → pass_one wire env h now (record p { queue = ms ∷ [] }) (q, s, w)
        ≡ some (record p { queue = [] }, end)
  unfolding pass_one
  pass_one-receive ms bytes p q s w end same (writes, reads) handled =
      let sent = record p { queue = [] } in
      let decoded = ap (λ c. wire.unmarshal_messages (get_codec c) bytes) same ∙ reads in
      ap (λ r. paired wire env h now sent (carried wire env h now r (q, s, w))) writes
      ∙ (ap (λ r. paired wire env h now sent (read_set wire env h now r (q, s, w))) decoded
          ∙ ap (paired wire env h now sent) handled)

module _ (wire : Wire) (here there : Env) (h k : Handler) (now later : ℕ) where
  -- A request goes to the other end, and what that end queues comes back.
  abbrev reached_back : Option (Peer × End here) → Option (End here)
  reached_back none = none
  reached_back (some (q, end)) = some end

  abbrev turned_back : Session → here.World → Option (Peer × End there) → Option (End here)
  turned_back s w none = none
  turned_back s w (some (p, (q, s', w'))) = reached_back (pass_one wire here h later q (p, s, w))

  unfoldable pub exchange : End here → End there → Option (End here)
  exchange (p, s, w) end = turned_back s w (pass_one wire there k now p end)

  -- A call of a WebTransport client on the other end of its stream, where both queues are empty, both
  -- ends are open and of one content type, and the method responds with a result or an error: if the
  -- codec carries the request and the answer, then after one item each way the channel of the call
  -- holds the response that the handling of the request gave at the other end. The client is as its
  -- call left it but for that channel, its queue, which is empty again, and the channels of other
  -- calls with the same ID, which are offered the response too.
  pub exchange-web_transport_client_call :
      (float_of : ℕ → ℕ) (marshal : Codec → Any → Result Str) (method : Str) (params : Any)
      (ref : Option Str) (raw : RawMessage) (p q : Peer) (s : Session) (w : here.World)
      (t t' : Session) (v v' : there.World) (resp : Response) (bytes answer_bytes : Str)
      → p.queue ≡ []
      → q.queue ≡ []
      → p.closed ≡ false
      → q.closed ≡ false
      → p.conn_err ≡ none
      → q.content_type ≡ p.content_type
      → is_empty method ≡ false
      → encode_params marshal (get_codec p.content_type) params ≡ ok raw
      → let codec = get_codec p.content_type in
        let id = call_id float_of (p.next_id + 1) in
        let req = call_request method ref raw id in
        handle_request there k now (set_request_format (codec_mime_type codec) req) t v
          ≡ (some resp, t', v')
        → HasOutcome resp
        → Recovers wire codec (request_to_message_set req) bytes
        → Recovers wire codec (response_to_message_set resp) answer_bytes
        → exchange
            ((web_transport_client_call wire float_of marshal method params ref p).0, s, w)
            (q, t, v)
          ≡ some (
            record p {
              next_id = p.next_id + 1;
              calls = (id, holding resp) ∷ offer_call id resp p.calls;
              pending = id ∷ p.pending;
              queue = [];
            },
            s,
            w,
          )
  unfolding exchange is_hashable set_request_format
  exchange-web_transport_client_call float_of marshal method params ref raw p q s w t t' v v' resp
        bytes answer_bytes idle_p idle_q open_p open_q no_error same named encodes handled outcome
        carries carries_back =
      let codec = get_codec p.content_type in
      let id = call_id float_of (p.next_id + 1) in
      let req = call_request method ref raw id in
      let asked = asking (p.next_id + 1) id (request_to_message_set req) p in
      let sent = record asked { queue = [] } in
      let id_same : resp.id ≡ id =
        (handle_request-Answers there k now (set_request_format (codec_mime_type codec) req) t v
          resp (ap (λ o. o.0) handled)).0 in
      let there_is =
        pass_one-receive wire there k now (request_to_message_set req) bytes asked q t v _ same
          carries
          (receive-answer there k now (codec_mime_type codec) req resp q t t' v v' named open_q
            handled) in
      let woken =
        receive-woken here h later (codec_mime_type (get_codec q.content_type)) resp sent s w
          outcome (ap is_hashable id_same)
          (listed_call float_of (p.next_id + 1) resp.id p.pending id_same) in
      let answer = response_to_message_set resp in
      let carries_here =
        subst (λ c. Recovers wire (get_codec c) answer answer_bytes) (sym same) carries_back in
      ap (λ a. turned_back s w (pass_one wire there k now a.0 (q, t, v)))
        (begin_call-asking float_of marshal method params ref raw p open_p no_error encodes)
      ∙ (ap
            (λ l. turned_back s w (
              pass_one wire there k now
                (record asked { queue = l ++ request_to_message_set req ∷ [] }) (q, t, v)))
            idle_p
          ∙ (ap (turned_back s w) there_is
              ∙ (ap
                    (λ l. reached_back (
                      pass_one wire here h later (record q { queue = l ++ answer ∷ [] })
                        (sent, s, w)))
                    idle_q
                  ∙ (ap reached_back (
                        pass_one-receive wire here h later answer answer_bytes q sent s w _
                          (sym same) carries_here woken)
                      ∙ ap (λ c. some (record sent { calls = c }, s, w))
                          (woken_calls float_of (p.next_id + 1) resp p.calls id_same)))))
