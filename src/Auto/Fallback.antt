-- ===== src/Auto/Fallback.antt =====
-- When a connection fails: go/jsonrpc3/auto_client.go.
use jsonrpc.Base.{
  false, not, ◌||◌, Str, codes, str_eq, is_empty, Result, ok, err, if_elim, ◌≡◌, refl,
}
use jsonrpc.Auto.{
  Endpoint, Transport, web_transport, is_http1, is_http2, or_else, try_http2, try_web_socket,
  try_http, connect_by_protocol, connect_alternative, connect, http3_url,
}

module _ {Client Net : Type 0} (dial : Transport → Str → Str → Net → Result Client × Net)
    (http_client : Str → Client) where
  abbrev pub Succeeds : Result Client × Net → Type 0
  Succeeds r = (c : Client) × (r.0 ≡ ok c)

  or_else-Succeeds :
      (r : Result Client × Net) (go : Net → Result Client × Net)
      → ((n : Net) → Succeeds (go n))
      → Succeeds (or_else dial http_client r go)
  or_else-Succeeds (ok c, n) go h = (c, refl)
  or_else-Succeeds (err e, n) go h = h n

  try_http-Succeeds : (e : Endpoint) (n : Net) → Succeeds (try_http dial http_client e n)
  try_http-Succeeds e n = (http_client e.addr, refl)

  connect_by_protocol-Succeeds :
      (e : Endpoint) (n : Net)
      → is_http2 e.protocol ≡ false
      → Succeeds (connect_by_protocol dial http_client e n)
  unfolding connect_by_protocol
  connect_by_protocol-Succeeds e n h = rw h (
      if_elim Succeeds (is_http1 e.protocol) _ _
        (or_else-Succeeds (try_web_socket dial http_client e n) (try_http dial http_client e)
          (try_http-Succeeds e))
        (if_elim Succeeds (is_empty e.protocol) _ _
          (or_else-Succeeds (try_http2 dial http_client e n) _ (λ n'.
            or_else-Succeeds (try_web_socket dial http_client e n') (try_http dial http_client e)
              (try_http-Succeeds e)))
          (or_else-Succeeds (try_http2 dial http_client e n) (try_http dial http_client e)
            (try_http-Succeeds e))))

  connect_alternative-Succeeds :
      (e : Endpoint) (n : Net)
      → is_http2 e.protocol ≡ false
      → Succeeds (connect_alternative dial http_client e n)
  connect_alternative-Succeeds e n h =
      if_elim Succeeds (not (is_empty e.alt_svc_url)) _ _
        (or_else-Succeeds (dial web_transport e.alt_svc_url e.content_type n)
          (connect_by_protocol dial http_client e) (λ n'. connect_by_protocol-Succeeds e n' h))
        (connect_by_protocol-Succeeds e n h)

  -- An endpoint that is no peer and did not answer by HTTP/2 is always connected to, whatever dialling
  -- leads to: the last resort, a client by HTTP, does not fail.
  pub connect-Succeeds :
      (e : Endpoint) (n : Net)
      → str_eq e.protocol (codes "peer") ≡ false
      → is_http2 e.protocol ≡ false
      → Succeeds (connect dial http_client e n)
  unfolding connect
  connect-Succeeds e n no_peer h = rw no_peer (
      if_elim Succeeds (str_eq e.protocol (codes "http/3") || e.http3_works) _ _
        (or_else-Succeeds (dial web_transport (http3_url e.addr) e.content_type n)
          (connect_alternative dial http_client e) (λ n'. connect_alternative-Succeeds e n' h))
        (connect_alternative-Succeeds e n h))
