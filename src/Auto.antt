-- ===== src/Auto.antt =====
-- The client that chooses its transport: go/jsonrpc3/auto_client.go. What the probes find is a
-- parameter, and so is dialling.
pub mod Fallback
pub mod Announcing
mod Tests
use jsonrpc.Base.{
  ℕ, zero, suc, Bool, true, false, not, ◌&&◌, ◌||◌, ◌==◌, Option, none, some, List, [], ◌∷◌, ◌++◌,
  Str, codes, str_eq, starts_with, is_empty, Result, ok, err, if◌then◌else◌,
}
use jsonrpc.Mime.{mime_type_json, mime_type_cbor}

-- `Endpoint`, without the TLS configuration.
pub record Endpoint : Type 0 where
  pub addr : Str
  pub protocol : Str
  pub alt_svc_url : Str
  pub http3_works : Bool
  pub content_type : Str

-- What `probeServerParallel` finds: the protocol and the alternative of the server's answer to a
-- HEAD request, and whether HTTP/3 works.
pub record Found : Type 0 where
  pub found_protocol : Str
  pub found_alt_svc : Str
  pub found_http3 : Bool

-- `Probe`, with the content type of the options.
unfoldable pub probe : (Str → Found) → Str → Str → Endpoint
probe find addr content_type =
    let base : Str → Endpoint = λ protocol. record {
      addr = addr;
      protocol = protocol;
      alt_svc_url = [];
      http3_works = false;
      content_type = content_type;
    } in
    let f = find addr in
    if starts_with addr (codes "http3://")
    then base (codes "http/3")
    else if not (starts_with addr (codes "http://")) && not (starts_with addr (codes "https://"))
    then base (codes "peer")
    else record {
      addr = addr;
      protocol = f.found_protocol;
      alt_svc_url = f.found_alt_svc;
      http3_works = f.found_http3;
      content_type = content_type;
    }

-- `strings.TrimPrefix`
abbrev pub without : ℕ → Str → Str
without zero s = s
without (suc n) [] = []
without (suc n) (c ∷ s) = without n s

abbrev pub trim_prefix : Str → ℕ → Str → Str
trim_prefix prefix n s = if starts_with s prefix then without n s else s

abbrev ends_with_slash : Str → Bool
ends_with_slash [] = false
ends_with_slash (c ∷ []) = c == b'/'
ends_with_slash (c ∷ d ∷ s) = ends_with_slash (d ∷ s)

-- The URL of a direct connection by HTTP/3.
unfoldable pub http3_url : Str → Str
http3_url addr =
    let url =
      if starts_with addr (codes "http3://")
      then codes "https://" ++ trim_prefix (codes "http3://") 8 addr
      else addr in
    if ends_with_slash url then url else url ++ codes "/"

-- `strings.Replace` of the first occurrence of a text of a length.
unfoldable pub replace_first : Str → ℕ → Str → Str → Str
replace_first old n new [] = []
replace_first old n new (c ∷ s) =
    let rest = replace_first old n new s in
    if starts_with (c ∷ s) old then new ++ without n (c ∷ s) else c ∷ rest

abbrev pub web_socket_url : Str → Str
web_socket_url url =
    replace_first (codes "http://") 7 (codes "ws://")
      (replace_first (codes "https://") 8 (codes "wss://") url)

-- What is dialled.
pub data Transport : Type 0 where
  web_transport http2 web_socket tcp : Transport

-- The protocols that a server may answer with.
abbrev pub is_http2 : Str → Bool
is_http2 p = str_eq p (codes "HTTP/2.0") || (str_eq p (codes "HTTP/2") || str_eq p (codes "http/2"))

abbrev pub is_http1 : Str → Bool
is_http1 p =
    str_eq p (codes "HTTP/1.1") || (str_eq p (codes "HTTP/1.0") || str_eq p (codes "http/1.1"))

-- `dial` connects by a transport to a URL with a content type; `http_client` is what `NewHTTPClient`
-- makes for a URL, which connects later.
module _ {Client Net : Type 0} (dial : Transport → Str → Str → Net → Result Client × Net)
    (http_client : Str → Client) where
  abbrev Dialled : Type 0
  Dialled = Result Client × Net

  -- The next attempt, if one has failed.
  abbrev pub or_else : Dialled → (Net → Dialled) → Dialled
  or_else (ok c, n) go = (ok c, n)
  or_else (err e, n) go = go n

  abbrev pub failing_with : Str → Dialled → Dialled
  failing_with what (ok c, n) = (ok c, n)
  failing_with what (err e, n) = (err (what ++ e), n)

  -- `tryHTTP2`, `tryWebSocket` with the default content type, `tryHTTP` and `dialPeer`
  abbrev pub try_http2 : Endpoint → Net → Dialled
  try_http2 e n =
      failing_with (codes "HTTP/2 connection failed: ") (dial http2 e.addr e.content_type n)

  abbrev pub try_web_socket : Endpoint → Net → Dialled
  try_web_socket e n =
      failing_with (codes "WebSocket connection failed: ")
        (dial web_socket (web_socket_url e.addr) mime_type_cbor n)

  abbrev pub try_http : Endpoint → Net → Dialled
  try_http e n = (ok (http_client e.addr), n)

  abbrev dial_peer : Endpoint → Net → Dialled
  dial_peer e n =
      failing_with (codes "failed to dial " ++ (e.addr ++ codes ": "))
        (dial tcp e.addr e.content_type n)

  -- The switch at the end of `Connect`.
  unfoldable pub connect_by_protocol : Endpoint → Net → Dialled
  unfolding replace_first
  connect_by_protocol e n =
      if is_http2 e.protocol
      then try_http2 e n
      else if is_http1 e.protocol
      then or_else (try_web_socket e n) (try_http e)
      else if is_empty e.protocol
      then or_else (try_http2 e n) (λ n'. or_else (try_web_socket e n') (try_http e))
      else or_else (try_http2 e n) (try_http e)

  abbrev pub connect_alternative : Endpoint → Net → Dialled
  connect_alternative e n =
      if not (is_empty e.alt_svc_url)
      then or_else (dial web_transport e.alt_svc_url e.content_type n) (connect_by_protocol e)
      else connect_by_protocol e n

  -- `Connect`
  unfoldable pub connect : Endpoint → Net → Dialled
  unfolding connect_by_protocol http3_url
  connect e n =
      if str_eq e.protocol (codes "peer")
      then dial_peer e n
      else if str_eq e.protocol (codes "http/3") || e.http3_works
      then or_else (dial web_transport (http3_url e.addr) e.content_type n) (connect_alternative e)
      else connect_alternative e n
