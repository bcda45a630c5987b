-- ===== src/Socket/Queueing.antt =====
-- A queue of encoded message sets beside a peer's queue: go/jsonrpc3/websocket_client.go and peer.go.
use jsonrpc.Base.{
  All, err, Bool-cases, Result, Bool, true, false, List, [], ◌∷◌, ◌++◌, map, Str, ok, if◌then◌else◌,
  ◌≡◌, refl, sym, ap, ◌∙◌, inl, inr,
}
use mathlib.Core.Path.{subst}
use jsonrpc.Peer.Matching.{All-middle}
use jsonrpc.Message.{MessageSet, BatchResponse}
use jsonrpc.Message.Convert.{batch_response_to_message_set}
use jsonrpc.Session.{Session}
use jsonrpc.Env.{Env}
use jsonrpc.Mime.{Codec, get_codec}
use jsonrpc.Peer.{Peer, enqueue, enqueue_batch}
use jsonrpc.Http.{Wire}
use jsonrpc.Socket.{Socket, queue_bytes}
use jsonrpc.Socket.Incoming.{queue_encoded, send_errors, send_error_for_batch, queue_responses}

map-append_one :
    {A B : Type 0} (f : A → B) (xs : List A) (x : A) → map f xs ++ f x ∷ [] ≡ map f (xs ++ x ∷ [])
map-append_one f [] x = refl
map-append_one f (y ∷ xs) x = ap (λ t. f y ∷ t) (map-append_one f xs x)

module _ (wire : Wire) (env : Env) (enc : Codec → MessageSet → Str) where
  open env use {World}

  -- The codec of a peer encodes everything in the peer's queue, by a function.
  abbrev pub Encodes : Peer → Type 0
  Encodes p =
      let codec = get_codec p.content_type in
      All (λ ms. wire.marshal_messages codec ms ≡ ok (enc codec ms)) p.queue

  -- The client that a peer stands for: its queue encoded.
  abbrev pub encoded : Peer → Socket
  encoded p = record {
    peer = record p { queue = [] };
    out = map (enc (get_codec p.content_type)) p.queue;
  }

  abbrev pub encode_after : Peer × Session × World → Socket × Session × World
  encode_after (p, s, w) = (encoded p, s, w)

  queue_bytes-encoded :
      (ms : MessageSet) (p : Peer)
      → queue_bytes (enc (get_codec p.content_type) ms) (encoded p) ≡ encoded (enqueue ms p)
  unfolding enqueue
  queue_bytes-encoded ms p = unless_closed p.closed
    where
      unless_closed :
          (b : Bool)
          → (if b then encoded p else record (encoded p) {
            out =
                map (enc (get_codec p.content_type)) p.queue
                ++ enc (get_codec p.content_type) ms ∷ [];
          })
            ≡ encoded (if b then p else record p { queue = p.queue ++ ms ∷ [] })
      unless_closed true = refl
      unless_closed false =
          ap (λ q. record { peer = record p { queue = [] }; out = q })
            (map-append_one (enc (get_codec p.content_type)) p.queue ms)

  enqueue-closed : (ms : MessageSet) (p : Peer) → p.closed ≡ true → enqueue ms p ≡ p
  unfolding enqueue
  enqueue-closed ms p over = rw over refl

  -- What is encoded does not matter where the queue is closed.
  queue_encoded-closed :
      (r : Result Str) (p : Peer)
      → p.closed ≡ true
      → queue_encoded wire env r (encoded p) ≡ encoded p
  queue_encoded-closed (ok bytes) p over = rw over refl
  queue_encoded-closed (err e) p over = refl

  send_errors-closed :
      (rs : BatchResponse) (p : Peer)
      → p.closed ≡ true
      → send_errors wire env rs (encoded p) ≡ encoded p
  send_errors-closed [] p over = refl
  send_errors-closed (r ∷ rs) p over = queue_encoded-closed _ p over

  queue_responses-closed :
      (ms : MessageSet) (r : Result Str) (p : Peer)
      → p.closed ≡ true
      → queue_responses wire env ms r (encoded p) ≡ encoded p
  unfolding send_error_for_batch
  queue_responses-closed ms (ok bytes) p over = rw over refl
  queue_responses-closed ms (err e) p over = send_errors-closed _ p over

  -- The message set that was queued last is encoded.
  last-Encodes :
      (ms : MessageSet) (p : Peer)
      → p.closed ≡ false
      → Encodes (enqueue ms p)
      → wire.marshal_messages (get_codec p.content_type) ms ≡ ok (enc (get_codec p.content_type) ms)
  unfolding enqueue
  last-Encodes ms p live h =
      let grown : enqueue ms p ≡ record p { queue = p.queue ++ ms ∷ [] } = rw live refl in
      let codec = get_codec p.content_type in
      All-middle (λ m. wire.marshal_messages codec m ≡ ok (enc codec m)) p.queue ms []
        (subst Encodes grown h)

  pub queue_encoded-encoded :
      (ms : MessageSet) (p : Peer)
      → Encodes (enqueue ms p)
      → queue_encoded wire env (wire.marshal_messages (get_codec p.content_type) ms) (encoded p)
        ≡ encoded (enqueue ms p)
  queue_encoded-encoded ms p h = elim (Bool-cases p.closed) [
    | inl over ↦ queue_encoded-closed _ p over ∙ ap encoded (sym (enqueue-closed ms p over))
    | inr live ↦ rw (last-Encodes ms p live h) (queue_bytes-encoded ms p)
  ]

  pub send_errors-encoded :
      (rs : BatchResponse) (p : Peer)
      → Encodes (enqueue_batch rs p)
      → send_errors wire env rs (encoded p) ≡ encoded (enqueue_batch rs p)
  unfolding enqueue_batch
  send_errors-encoded [] p h = refl
  send_errors-encoded (r ∷ rs) p h =
      queue_encoded-encoded (batch_response_to_message_set (r ∷ rs)) p h

  pub queue_responses-encoded :
      (ms set : MessageSet) (p : Peer)
      → Encodes (enqueue set p)
      → queue_responses wire env ms
          (wire.marshal_messages (get_codec p.content_type) set)
          (encoded p)
        ≡ encoded (enqueue set p)
  queue_responses-encoded ms set p h = elim (Bool-cases p.closed) [
    | inl over ↦ queue_responses-closed ms _ p over ∙ ap encoded (sym (enqueue-closed set p over))
    | inr live ↦ rw (last-Encodes set p live h) (queue_bytes-encoded set p)
  ]
