-- ===== src/Http/EventStream/RoundTrip.antt =====
-- What a reader makes of the events of the server: go/jsonrpc3/http_server.go and http_client.go.
use jsonrpc.Base.{
  ℕ, ◌+◌, ◌<◌, ltb, leb, true, false, [], ◌∷◌, ◌++◌, Str, codes, length, is_empty, All, ◌≡◌, ◌≢◌,
  refl, arith,
}
use jsonrpc.Http.Server.Serving.{sse_event}
use jsonrpc.Http.EventStream.{
  split_lines, drop_cr, events, after_line, line_kind, event, done, max_line,
}

-- A text of one line: it has no line feed and no carriage return.
abbrev pub IsLine : Str → Type 0
IsLine = All (λ c. (c ≢ 10) × (c ≢ 13))

split_lines-line : (l s : Str) → IsLine l → split_lines (l ++ 10 ∷ s) ≡ l ∷ split_lines s
split_lines-line [] s h = refl
split_lines-line (c ∷ l) s ((h, _), hs) = rw (split_lines-line l s hs) (ground arith)

drop_cr-line : (l : Str) → IsLine l → drop_cr l ≡ l
drop_cr-line [] h = refl
drop_cr-line (c ∷ l) ((_, h), hs) = rw (drop_cr-line l hs) (ground arith)

data_line : Str → Str
data_line bytes = codes "data: " ++ bytes

data_line-IsLine : (bytes : Str) → IsLine bytes → IsLine (data_line bytes)
unfolding data_line
data_line-IsLine bytes h =
    let other : (c : ℕ) → leb 32 c ≡ true → (c ≢ 10) × (c ≢ 13) =
      λ c big. ((λ e. ground arith), (λ e. ground arith)) in
    (
      other _ refl,
      (other _ refl, (other _ refl, (other _ refl, (other _ refl, (other _ refl, h))))),
    )

sse_event-lines : (bytes : Str) → sse_event bytes ≡ data_line bytes ++ (10 ∷ 10 ∷ [])
unfolding sse_event data_line
sse_event-lines bytes = refl

data_line-length : (bytes : Str) → length bytes + 6 < max_line → length (data_line bytes) < max_line
unfolding data_line
data_line-length bytes small = omega (arith, small)

data_line-event :
    (bytes : Str)
    → is_empty bytes ≡ false
    → after_line (line_kind [] (data_line bytes)) [] (λ p. events p ([] ∷ [])) ≡ event bytes done
unfolding data_line
data_line-event bytes some_data = rw some_data refl

fits : (n : ℕ) → n < max_line → ltb n max_line ≡ true
fits n h = ground arith

-- An event that the server writes, with data of one line that is not empty and fits into the buffer,
-- is read as one event with that data, and the stream is at its end.
pub events-sse_event :
    (bytes : Str)
    → IsLine bytes
    → is_empty bytes ≡ false
    → length bytes + 6 < max_line
    → events [] (split_lines (sse_event bytes)) ≡ event bytes done
events-sse_event bytes line some_data small =
    let whole : IsLine (data_line bytes) = data_line-IsLine bytes line in
    let size : length (data_line bytes) < max_line = data_line-length bytes small in
    rw (sse_event-lines bytes, split_lines-line (data_line bytes) (10 ∷ []) whole)
      (rw (drop_cr-line (data_line bytes) whole, fits (length (data_line bytes)) size)
        (data_line-event bytes some_data))
