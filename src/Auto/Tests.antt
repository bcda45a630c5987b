-- ===== src/Auto/Tests.antt =====
-- The theorem on the choice of a transport at a concrete endpoint.
use jsonrpc.Base.{some, ◌≡◌, ℕ, ◌+◌, refl, false, Str, codes, Result, err}
use jsonrpc.Mime.{mime_type_json}
use jsonrpc.Auto.{Endpoint, Transport, connect}
use jsonrpc.Auto.Announcing.{parse_alt_svc, alt_svc, parse_alt_svc-alt_svc}
use jsonrpc.Auto.Fallback.{Succeeds, connect-Succeeds}

-- Nothing answers, and the attempts are counted.
abbrev silent : Transport → Str → Str → ℕ → Result Str × ℕ
silent t url content_type n = (err (codes "refused"), n + 1)

abbrev http_only : Endpoint
http_only = record {
  addr = codes "http://h/";
  protocol = codes "HTTP/1.1";
  alt_svc_url = codes "https://h:443/";
  http3_works = false;
  content_type = mime_type_json;
}

connect-Succeeds_example : Succeeds silent (λ url. url) (connect silent (λ url. url) http_only 0)
connect-Succeeds_example = connect-Succeeds silent (λ url. url) http_only 0 refl refl

parse_alt_svc-alt_svc_example :
    parse_alt_svc
      (λ a. some (codes "h", codes "1"))
      (codes "https://h:1/rpc")
      (alt_svc (codes "82"))
    ≡ codes "https://h:82/rpc"
parse_alt_svc-alt_svc_example =
    parse_alt_svc-alt_svc (λ a. some (codes "h", codes "1")) (codes "h:1") (codes "h") (codes "1")
      (codes "82") (codes "rpc") (refl, (refl, tt)) (refl, (refl, tt)) (refl, (refl, (refl, tt)))
      refl
