-- ===== src/Shell/Tests.antt =====
-- The theorems on the shell at concrete lines.
use jsonrpc.Base.{◌≡◌, refl, true, [], ◌∷◌, Str, List, codes}
use jsonrpc.Any.{
  Any, nil, bool, text, mapping, any_any, slice, any_type, item, no_items, no_entries, entry,
}
use jsonrpc.Shell.{tokenize, to_json_compatible}
use jsonrpc.Shell.Tokens.{tokenize-quoted_line}
use jsonrpc.Shell.Compatible.{is_compatible, is_compatible-to_json_compatible}

abbrev words : List Str
words = codes "a b" ∷ codes "it's" ∷ []

tokenize-quoted_line_example : tokenize (codes "\"a b\" \"it's\" ") ≡ words
tokenize-quoted_line_example =
    tokenize-quoted_line words
      ((refl, (refl, (refl, (refl, tt)))), ((refl, (refl, (refl, (refl, (refl, tt))))), tt))

abbrev printed : Any → Str
printed x = codes "key"

-- A list with a map of another map.
abbrev nested : Any
nested = slice any_type (
    item
      (mapping any_any
        (entry (bool true) (mapping any_any (entry (text (codes "x")) nil no_entries)) no_entries))
      no_items)

is_compatible-to_json_compatible_example : is_compatible (to_json_compatible printed nested) ≡ true
is_compatible-to_json_compatible_example = is_compatible-to_json_compatible printed nested
