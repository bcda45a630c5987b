-- ===== src/Shell/Tokens.antt =====
-- The tokens of a quoted line: go/jsonrpc3/pkg/shell/parser.go.
use jsonrpc.Base.{
  ℕ, Bool, true, false, ◌&&◌, ◌||◌, ◌==◌, none, some, List, [], ◌∷◌, ◌++◌, append_assoc, append-nil,
  Str, All, is_empty, ◌≡◌, refl, sym, ap, ◌∙◌,
}
use jsonrpc.Shell.{Scan, flushed, scan_char, scan_line, tokenize}

-- Text that can stand between double quotes.
abbrev pub IsQuotable : Str → Type 0
IsQuotable s = All (λ c. (c == b'"') ≡ false) s

-- An argument that quotes can carry: not empty, and without a double quote.
abbrev pub IsArgument : Str → Type 0
IsArgument s = (is_empty s ≡ false) × IsQuotable s

-- The line of quoted arguments, with a space behind each.
abbrev pub quoted_line : List Str → Str
quoted_line [] = []
quoted_line (a ∷ args) = b'"' ∷ (a ++ b'"' ∷ b' ' ∷ quoted_line args)

abbrev inside : List Str → Str → Scan
inside ts cur = record { tokens = ts; current = cur; quote = some b'"' }

abbrev outside : List Str → Str → Scan
outside ts cur = record { tokens = ts; current = cur; quote = none }

and-false : (b : Bool) → (b && false) ≡ false
and-false true = refl
and-false false = refl

scan_char-inside :
    (c : ℕ) (ts : List Str) (cur : Str)
    → (c == b'"') ≡ false
    → scan_char c (inside ts cur) ≡ inside ts (cur ++ c ∷ [])
unfolding scan_char
scan_char-inside c ts cur h =
    rw (and-false (c == b'"' || c == b'\''), h, and-false (c == b' ')) refl

scan_line-inside :
    (body rest : Str) (ts : List Str) (cur : Str)
    → IsQuotable body
    → scan_line (body ++ rest) (inside ts cur) ≡ scan_line rest (inside ts (cur ++ body))
unfolding scan_line
scan_line-inside [] rest ts cur h = ap (λ x. scan_line rest (inside ts x)) (sym (append-nil cur))
scan_line-inside (c ∷ body) rest ts cur (h, hs) =
    ap (scan_line (body ++ rest)) (scan_char-inside c ts cur h)
    ∙ (scan_line-inside body rest ts (cur ++ c ∷ []) hs
        ∙ ap (λ x. scan_line rest (inside ts x)) (append_assoc cur (c ∷ []) body))

flushed-outside :
    (ts : List Str) (cur : Str) → is_empty cur ≡ false → flushed (outside ts cur) ≡ ts ++ cur ∷ []
flushed-outside ts cur h = rw h refl

scan_line-quoted_line :
    (args : List Str) (ts : List Str)
    → All IsArgument args
    → scan_line (quoted_line args) (outside ts []) ≡ outside (ts ++ args) []
unfolding scan_line scan_char
scan_line-quoted_line [] ts h = ap (λ x. outside x []) (sym (append-nil ts))
scan_line-quoted_line (a ∷ args) ts ((some_text, quotable), hs) =
    scan_line-inside a (b'"' ∷ b' ' ∷ quoted_line args) ts [] quotable
    ∙ (ap (λ x. scan_line (quoted_line args) (outside x [])) (flushed-outside ts a some_text)
        ∙ (scan_line-quoted_line args (ts ++ a ∷ []) hs
            ∙ ap (λ x. outside x []) (append_assoc ts (a ∷ []) args)))

-- Arguments that are not empty and hold no double quote are read back from a line in which each
-- stands between double quotes and a space follows it, whatever else they hold.
pub tokenize-quoted_line :
    (args : List Str) → All IsArgument args → tokenize (quoted_line args) ≡ args
unfolding tokenize
tokenize-quoted_line args h = ap flushed (scan_line-quoted_line args [] h)
