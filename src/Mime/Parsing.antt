-- ===== src/Mime/Parsing.antt =====
-- Printing and parsing a MIME type.
use jsonrpc.Base.{◌≡◌, refl, ◌≢◌, arith, some, [], ◌∷◌, ◌++◌, Str, codes, All, ap, ◌∙◌}
use jsonrpc.Mime.{parse_mime_type, split_at, trim_space, trim_left, trim_right, format_parameter}

-- A text with no semicolon.
abbrev pub LacksSemicolon : Str → Type 0
LacksSemicolon = All (λ c. c ≢ b';')

split_at-append : (t s : Str) → LacksSemicolon t → split_at b';' (t ++ b';' ∷ s) ≡ (t, some s)
unfolding split_at
split_at-append [] s h = refl
split_at-append (c ∷ t) s (h, hs) = rw (split_at-append t s hs) (ground arith)

-- A text with no space at its ends.
abbrev pub IsTrimmed : Str → Type 0
IsTrimmed s = (trim_left s ≡ s) × (trim_right s ≡ s)

trim_space-IsTrimmed : (s : Str) → IsTrimmed s → trim_space s ≡ s
unfolding trim_space
trim_space-IsTrimmed s (l, r) = rw (l, r)

format_parameter_lem : (f : Str) → IsTrimmed f → format_parameter (some (codes " format=" ++ f)) ≡ f
unfolding format_parameter trim_space
format_parameter_lem f (l, r) = rw (r, l, r)

-- A type and a format with no space around them are read back from `type; format=…`, if the type
-- has no semicolon.
pub parse_mime_type_lem :
    (t f : Str)
    → LacksSemicolon t
    → IsTrimmed t
    → IsTrimmed f
    → parse_mime_type (t ++ (codes "; format=" ++ f)) ≡ record { base = t; format = f }
unfolding parse_mime_type
parse_mime_type_lem t f h ht hf =
    let parts = split_at-append t (codes " format=" ++ f) h in
    λ i. record {
      base = (ap (λ p. trim_space p.0) parts ∙ trim_space-IsTrimmed t ht) i;
      format = (ap (λ p. format_parameter p.1) parts ∙ format_parameter_lem f hf) i;
    }
