-- ===== src/Auto/Announcing.antt =====
-- How a server announces HTTP/3 and what a client makes of it: the handler of `ListenAndServe` in
-- go/jsonrpc3/auto_server.go, and `parseAltSvc` of auto_client.go. `net.SplitHostPort` is a parameter.
use jsonrpc.Base.{
  ℕ, false, not, ◌&&◌, ◌==◌, Option, none, some, [], ◌∷◌, ◌++◌, Str, codes, str_eq, starts_with,
  is_empty, All, if◌then◌else◌, ◌≡◌, refl, arith,
}
use jsonrpc.Mime.{trim_space, trim_right, split_at, is_space}
use jsonrpc.Auto.{trim_prefix, without}

-- `Alt-Svc` of the server: the port of HTTP/3 and how long it holds.
abbrev quoted : Str → Str
quoted port = codes "h3=" ++ b'"' ∷ b':' ∷ (port ++ b'"' ∷ [])

unfoldable pub alt_svc : Str → Str
alt_svc port = quoted port ++ b';' ∷ codes " ma=2592000"

-- What becomes of a request, beside the header.
pub data Routed : Type 0 where
  answered_200 to_http2_server to_http_handler : Routed

unfoldable pub route : Str → ℕ → Routed
route method proto_major =
    if str_eq method (codes "HEAD")
    then Routed.answered_200
    else if proto_major == 2
    then Routed.to_http2_server
    else Routed.to_http_handler

-- `strings.Trim` of quotes.
abbrev drop_quotes : Str → Str
drop_quotes [] = []
drop_quotes (c ∷ s) = if c == b'"' then drop_quotes s else c ∷ s

abbrev drop_last_quotes : Str → Str
drop_last_quotes [] = []
drop_last_quotes (c ∷ s) =
    let rest = drop_last_quotes s in if c == b'"' && is_empty rest then [] else c ∷ rest

unfoldable pub trim_quotes : Str → Str
trim_quotes s = drop_last_quotes (drop_quotes s)

abbrev path_of : Option Str → Str
path_of none = codes "/"
path_of (some p) = b'/' ∷ p

module _ (split_host_port : Str → Option (Str × Str)) where
  abbrev host_of : Str → Option (Str × Str) → Str
  host_of authority none = authority
  host_of authority (some (host, port)) = host

  abbrev alternative : Str → Str × Option Str → Str
  alternative port_spec (authority, path) =
      if starts_with port_spec (codes ":")
      then codes "https://"
        ++ (host_of authority (split_host_port authority) ++ (port_spec ++ path_of path))
      else codes "https://" ++ (port_spec ++ path_of path)

  -- `parseAltSvc`; empty without an alternative.
  unfoldable pub parse_alt_svc : Str → Str → Str
  unfolding trim_space split_at trim_quotes
  parse_alt_svc url header =
      let h3 = trim_space (split_at b';' header).0 in
      let rest = trim_prefix (codes "https://") 8 (trim_prefix (codes "http://") 7 url) in
      if not (starts_with h3 (codes "h3="))
      then []
      else alternative (trim_quotes (without 3 h3)) (split_at b'/' rest)

-- A text without a character.
abbrev pub Lacks : ℕ → Str → Type 0
Lacks x s = All (λ c. (c == x) ≡ false) s

split_at-Lacks : (x : ℕ) (t s : Str) → Lacks x t → split_at x (t ++ x ∷ s) ≡ (t, some s)
unfolding split_at
split_at-Lacks x [] s h = ground arith
split_at-Lacks x (c ∷ t) s (h, hs) = rw (split_at-Lacks x t s hs, h) refl

Lacks-append : (x : ℕ) (s t : Str) → Lacks x s → Lacks x t → Lacks x (s ++ t)
Lacks-append x [] t h k = k
Lacks-append x (c ∷ s) t (h, hs) k = (h, Lacks-append x s t hs k)

is_empty_end : (s : Str) (c : ℕ) → is_empty (s ++ c ∷ []) ≡ false
is_empty_end [] c = refl
is_empty_end (d ∷ s) c = refl

trim_right_end : (s : Str) (c : ℕ) → is_space c ≡ false → trim_right (s ++ c ∷ []) ≡ s ++ c ∷ []
trim_right_end [] c h = rw h refl
trim_right_end (d ∷ s) c h = rw (trim_right_end s c h, is_empty_end s c) (ground arith)

drop_last_quotes_end : (s : Str) → Lacks b'"' s → drop_last_quotes (s ++ b'"' ∷ []) ≡ s
drop_last_quotes_end [] h = refl
drop_last_quotes_end (c ∷ s) (h, hs) = rw (drop_last_quotes_end s hs, h) refl

module _ (split_host_port : Str → Option (Str × Str)) where
  -- What a server announces, a client of an `https` address reads back: the host of the address, with
  -- the announced port in place of its own, and the path.
  pub parse_alt_svc-alt_svc :
      (authority host own_port port path : Str)
      → Lacks b'"' port
      → Lacks b';' port
      → Lacks b'/' authority
      → split_host_port authority ≡ some (host, own_port)
      → parse_alt_svc split_host_port
          (codes "https://" ++ (authority ++ b'/' ∷ path))
          (alt_svc port)
        ≡ codes "https://" ++ (host ++ (b':' ∷ (port ++ b'/' ∷ path)))
  unfolding parse_alt_svc alt_svc trim_space trim_quotes
  parse_alt_svc-alt_svc authority host own_port port path no_quote no_semicolon no_slash splits =
      let announced =
        split_at-Lacks b';' (port ++ b'"' ∷ []) (codes " ma=2592000")
          (Lacks-append b';' port (b'"' ∷ []) no_semicolon (refl, tt)) in
      let ended = trim_right_end port b'"' refl in
      rw
        (
          announced,
          ended,
          drop_last_quotes_end port no_quote,
          split_at-Lacks b'/' authority path no_slash,
          splits,
        )
        refl
