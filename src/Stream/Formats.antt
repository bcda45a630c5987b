-- ===== src/Stream/Formats.antt =====
-- Which format the two ends of a connection speak, and which one a batch is in:
-- go/jsonrpc3/webtransport_client.go, webtransport_server.go, http2_client.go and peer.go.
use jsonrpc.Base.{
  ℕ, ◌+◌, List, [], ◌∷◌, ◌++◌, Str, codes, Result, ok, err, is_empty, is_some, if◌then◌else◌, ◌≡◌,
  refl, sym, ap, ◌∙◌, append_assoc, Bool-cases, inl, inr,
}
use jsonrpc.Base.Decimal.{decimal}
use jsonrpc.Any.{Any}
use jsonrpc.Message.{RawMessage, Request}
use jsonrpc.Mime.{Codec, get_codec, mime_type_json}
use jsonrpc.Batch.{BatchRequest}
use jsonrpc.Peer.{Peer}
use jsonrpc.Peer.Calling.{encode_params, get_error}
use jsonrpc.Peer.Sending.{make_requests, failing, next_number, begin_batch, send_batch}
use jsonrpc.Socket.{socket_requests, failed_at}
use jsonrpc.Http.{Wire}
use jsonrpc.Stream.{stream_batch}
use jsonrpc.Stream.WebTransport.{web_transport_content_type, new_web_transport_conn}
use jsonrpc.Stream.WebTransportClient.{accepted_transport_type, new_web_transport_client}

-- The two ends of a WebTransport session have the same content type, whatever the client asks for.
pub new_web_transport_same :
    (asked prefix1 prefix2 : Str)
    → (new_web_transport_client asked (web_transport_content_type asked) prefix1).content_type
      ≡ (new_web_transport_conn asked prefix2).content_type
unfolding new_web_transport_client new_web_transport_conn accepted_transport_type
    web_transport_content_type jsonrpc.Peer.new_peer
new_web_transport_same asked prefix1 prefix2 = elim (Bool-cases (is_empty asked)) [
  | inl none_asked ↦ rw none_asked refl
  | inr some_asked ↦ rw (some_asked, some_asked) refl
]

module _ (wire : Wire) (float_of : ℕ → ℕ) (marshal : Codec → Any → Result Str) where
  failed_at-failing :
      (i : ℕ) (r : Result RawMessage)
      → failed_at wire float_of marshal i r
        ≡ failing (codes "failed to create request " ++ decimal i ++ codes ": ") r
  failed_at-failing i (ok raw) = refl
  failed_at-failing i (err e) =
      ap (λ s. err (codes "failed to create request " ++ s))
        (sym (append_assoc (decimal i) (codes ": ") e))

  socket_requests-make_requests :
      (bs : List BatchRequest) (i n : ℕ)
      → socket_requests wire float_of marshal (get_codec mime_type_json) i n bs
        ≡ make_requests float_of marshal i n bs
  unfolding socket_requests make_requests
  socket_requests-make_requests [] i n = refl
  socket_requests-make_requests (b ∷ bs) i n =
      rw
        (socket_requests-make_requests bs (i + 1)
          (next_number float_of marshal b.is_notification n))
        (rw (failed_at-failing i (encode_params marshal (get_codec mime_type_json) b.params)) refl)

  -- The batch of an HTTP/2 client or a WebTransport connection is the batch of a peer where the
  -- content type is JSON; a peer encodes the parameters of a batch as JSON whatever its content type.
  pub stream_batch-begin_batch :
      (bs : List BatchRequest) (p : Peer)
      → p.content_type ≡ mime_type_json
      → stream_batch wire float_of marshal bs p ≡ begin_batch float_of marshal bs p
  unfolding stream_batch begin_batch
  stream_batch-begin_batch [] p json = refl
  stream_batch-begin_batch (b ∷ bs) p json =
      let sent : ℕ × Result (List Request) → Peer × Result (List Request) = λ r.
        if is_some p.conn_err
        then (p, err (get_error p.conn_err))
        else send_batch float_of marshal r p in
      ap (λ c. sent (socket_requests wire float_of marshal (get_codec c) 0 p.next_id (b ∷ bs))) json
      ∙ ap sent (socket_requests-make_requests (b ∷ bs) 0 p.next_id)
