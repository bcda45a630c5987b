-- ===== src/Shell.antt =====
-- The command line of the shell: go/jsonrpc3/pkg/shell/parser.go. A line is text of valid UTF-8, of
-- which the parser tells ASCII characters apart. strconv and fmt are parameters.
pub mod Tokens
pub mod Compatible
mod Tests
use jsonrpc.Base.{
  ℕ, Bool, true, false, not, ◌&&◌, ◌||◌, ◌==◌, Option, none, some, List, [], ◌∷◌, ◌++◌, Str, codes,
  str_eq, contains, is_empty, if◌then◌else◌,
}
use jsonrpc.Any.{
  Any, nil, bool, number, int64, float64, text, slice, mapping, any_type, string_any, any_any,
  other_map, object_type, concrete, Items, no_items, item, Entries, no_entries, entry,
}

-- What `tokenize` keeps: the tokens so far, the current one, and the quote that is open.
pub record Scan : Type 0 where
  pub tokens : List Str
  pub current : Str
  pub quote : Option ℕ

abbrev pub start : Scan
start = record { tokens = []; current = []; quote = none }

abbrev is_quote : ℕ → Bool
is_quote c = c == b'"' || c == b'\''

abbrev is_open : Option ℕ → Bool
is_open none = false
is_open (some q) = true

abbrev is_same : Option ℕ → ℕ → Bool
is_same none c = false
is_same (some q) c = c == q

-- The current token, behind the others if it is not empty.
abbrev pub flushed : Scan → List Str
flushed st = if is_empty st.current then st.tokens else st.tokens ++ st.current ∷ []

-- One round of the loop of `tokenize`.
unfoldable pub scan_char : ℕ → Scan → Scan
scan_char c st =
    if is_quote c && not (is_open st.quote)
    then record st { quote = some c }
    else if is_same st.quote c
    then record st { quote = none }
    else if c == b' ' && not (is_open st.quote)
    then record st { tokens = flushed st; current = [] }
    else record st { current = st.current ++ c ∷ [] }

unfoldable pub scan_line : Str → Scan → Scan
scan_line [] st = st
scan_line (c ∷ cs) st = scan_line cs (scan_char c st)

-- `tokenize`
unfoldable pub tokenize : Str → List Str
unfolding scan_line
tokenize line = flushed (scan_line line start)

abbrev is_text : Str → Any → Bool
is_text key (text k) = str_eq k key
is_text key k = false

-- `m[key] = x`, on a map with string keys.
abbrev pub set_entry : Str → Any → Entries → Entries
set_entry key x no_entries = entry (text key) x no_entries
set_entry key x (entry k y xs) =
    let rest = set_entry key x xs in if is_text key k then entry (text key) x xs else entry k y rest

module _ (parse_int : Str → Option ℕ) (parse_float : Str → Option ℕ)
    (parse_bool : Str → Option Bool) where
  abbrev or_text : Str → Option Bool → Any
  or_text s none = text s
  or_text s (some b) = bool b

  abbrev or_bool : Str → Option ℕ → Any
  or_bool s none = or_text s (parse_bool s)
  or_bool s (some n) = number float64 n

  abbrev or_float : Str → Option ℕ → Any
  or_float s none = or_bool s (parse_float s)
  or_float s (some n) = number int64 n

  -- `coerceValue`
  unfoldable pub coerce_value : Str → Any
  coerce_value s = or_float s (parse_int s)

  abbrev has_colon : List Str → Bool
  has_colon [] = false
  has_colon (a ∷ args) = contains a (codes ":") || has_colon args

  abbrev on_head : ℕ → Option (Str × Str) → Option (Str × Str)
  on_head c none = none
  on_head c (some (key, x)) = some (c ∷ key, x)

  -- `strings.SplitN(arg, ":", 2)`, where it gives two parts.
  unfoldable pub split_colon : Str → Option (Str × Str)
  split_colon [] = none
  split_colon (c ∷ cs) =
      let rest = split_colon cs in if c == b':' then some ([], cs) else on_head c rest

  abbrev add_pair : Option (Str × Str) → Entries → Entries
  add_pair none xs = xs
  add_pair (some (key, x)) xs = set_entry key (coerce_value x) xs

  abbrev pairs_from : List Str → Entries → Entries
  pairs_from [] xs = xs
  pairs_from (a ∷ args) xs = pairs_from args (add_pair (split_colon a) xs)

  abbrev items_of : List Str → Items
  items_of [] = no_items
  items_of (a ∷ args) = item (coerce_value a) (items_of args)

  -- `parsePositionalArgs`
  unfoldable pub parse_positional_args : List Str → Any
  unfolding coerce_value split_colon
  parse_positional_args [] = nil
  parse_positional_args (a ∷ args) =
      if has_colon (a ∷ args)
      then mapping string_any (pairs_from (a ∷ args) no_entries)
      else slice any_type (items_of (a ∷ args))

-- `sprint` stands for `fmt.Sprint`.
module _ (sprint : Any → Str) where
  abbrev key_text : Any → Str
  key_text (text k) = k
  key_text k = sprint k

  -- `toJSONCompatible`
  unfoldable mutual
    pub to_json_compatible : Any → Any
    to_json_compatible (mapping any_any xs) = mapping string_any (compatible_entries xs no_entries)
    to_json_compatible (mapping string_any xs) =
        mapping string_any (compatible_entries xs no_entries)
    to_json_compatible (slice any_type xs) = slice any_type (compatible_items xs)
    to_json_compatible v = v

    -- The entries, put into a new map one after the other.
    pub compatible_entries : Entries → Entries → Entries
    compatible_entries no_entries made = made
    compatible_entries (entry k x xs) made =
        compatible_entries xs (set_entry (key_text k) (to_json_compatible x) made)

    pub compatible_items : Items → Items
    compatible_items no_items = no_items
    compatible_items (item x xs) = item (to_json_compatible x) (compatible_items xs)
