-- ===== src/Http/EventStream.antt =====
-- The lines of an event stream: `bufio.Scanner` and the loop of `handleSSEResponse` over them, in
-- go/jsonrpc3/http_client.go.
pub mod RoundTrip
use jsonrpc.Base.{
  ℕ, ◌*◌, ltb, Bool, ◌&&◌, not, ◌==◌, Option, none, some, List, [], ◌∷◌, Str, codes, length,
  starts_with, is_empty, Result, ok, err, if◌then◌else◌,
}
use jsonrpc.Mime.{drop_prefix}

abbrev add_to_line : ℕ → List Str → List Str
add_to_line c [] = (c ∷ []) ∷ []
add_to_line c (l ∷ ls) = (c ∷ l) ∷ ls

-- The lines of a text, without their line feeds.
abbrev pub split_lines : Str → List Str
split_lines [] = []
split_lines (c ∷ s) = let rest = split_lines s in if c == 10 then [] ∷ rest else add_to_line c rest

-- A line without a carriage return at its end.
abbrev pub drop_cr : Str → Str
drop_cr [] = []
drop_cr (c ∷ s) = let rest = drop_cr s in if c == 13 && is_empty s then [] else c ∷ rest

abbrev pub max_line : ℕ
max_line = 64 * 1024

-- The texts of the events that the loop meets, in order: a line that begins with `data: ` sets the
-- text, and an empty line behind it ends the event. `too_long` is the error of a line that does not
-- fit into the scanner's buffer.
pub data Events : Type 0 where
  done : Events
  too_long : Events
  event : Str → Events → Events

-- What a line does behind a pending text.
pub data LineKind : Type 0 where
  sets : Str → LineKind
  ends : LineKind
  passes : LineKind

abbrev line_kind : Str → Str → LineKind
line_kind pending l =
    if starts_with l (codes "data: ")
    then sets (drop_prefix l (codes "data: "))
    else if is_empty l && not (is_empty pending)
    then ends
    else passes

abbrev after_line : LineKind → Str → (Str → Events) → Events
after_line (sets p) pending go = go p
after_line ends pending go = event pending (go [])
after_line passes pending go = go pending

abbrev pub events : Str → List Str → Events
events pending [] = done
events pending (l ∷ ls) =
    let rest = after_line (line_kind pending (drop_cr l)) pending (λ p. events p ls) in
    if ltb (length l) max_line then rest else too_long
