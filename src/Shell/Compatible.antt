-- ===== src/Shell/Compatible.antt =====
-- What `toJSONCompatible` leaves of a value: go/jsonrpc3/pkg/shell/parser.go.
use jsonrpc.Base.{Bool, true, false, ◌&&◌, and_true, Str, if_elim, ◌≡◌, refl}
use jsonrpc.Any.{
  Any, nil, bool, number, text, object, reference, marshaler, pointer, slice, mapping, struct,
  any_type, object_type, concrete, string_any, any_any, other_map, Items, no_items, item, Entries,
  no_entries, entry,
}
use jsonrpc.Shell.{
  set_entry, is_text, key_text, to_json_compatible, compatible_entries, compatible_items,
}

-- Whether no map with keys of any type can be reached through slices and maps of `any`.
unfoldable mutual
  pub is_compatible : Any → Bool
  is_compatible (mapping any_any xs) = false
  is_compatible (mapping string_any xs) = are_entries_compatible xs
  is_compatible (slice any_type xs) = are_items_compatible xs
  is_compatible v = true

  pub are_entries_compatible : Entries → Bool
  are_entries_compatible no_entries = true
  are_entries_compatible (entry k x xs) = is_compatible x && are_entries_compatible xs

  pub are_items_compatible : Items → Bool
  are_items_compatible no_items = true
  are_items_compatible (item x xs) = is_compatible x && are_items_compatible xs

both : (a b : Bool) → a ≡ true → b ≡ true → (a && b) ≡ true
both a b h k = rw (h, k) refl

abbrev Fine : Entries → Type 0
Fine xs = are_entries_compatible xs ≡ true

set_entry-Fine :
    (key : Str) (x : Any) (xs : Entries)
    → is_compatible x ≡ true
    → Fine xs
    → Fine (set_entry key x xs)
unfolding are_entries_compatible
set_entry-Fine key x no_entries h k = both (is_compatible x) true h refl
set_entry-Fine key x (entry j y xs) h k =
    let (hy, hxs) = and_true (is_compatible y) (are_entries_compatible xs) k in
    if_elim Fine (is_text key j) (entry (text key) x xs) (entry j y (set_entry key x xs))
      (both (is_compatible x) (are_entries_compatible xs) h hxs)
      (both (is_compatible y) (are_entries_compatible (set_entry key x xs)) hy
        (set_entry-Fine key x xs h hxs))

module _ (sprint : Any → Str) where
  mutual
    unfolding to_json_compatible compatible_entries compatible_items is_compatible
        are_entries_compatible are_items_compatible

    compatible : (v : Any) → is_compatible (to_json_compatible sprint v) ≡ true
    compatible (mapping any_any xs) = compatible_map xs no_entries refl
    compatible (mapping string_any xs) = compatible_map xs no_entries refl
    compatible (mapping (other_map t) xs) = refl
    compatible (slice any_type xs) = compatible_list xs
    compatible (slice object_type xs) = refl
    compatible (slice concrete xs) = refl
    compatible nil = refl
    compatible (bool b) = refl
    compatible (number k n) = refl
    compatible (text s) = refl
    compatible (object o) = refl
    compatible (reference r) = refl
    compatible (marshaler m) = refl
    compatible (pointer x) = refl
    compatible (struct fs) = refl

    compatible_map :
        (xs made : Entries)
        → are_entries_compatible made ≡ true
        → are_entries_compatible (compatible_entries sprint xs made) ≡ true
    compatible_map no_entries made h = h
    compatible_map (entry k x xs) made h =
        compatible_map xs _
          (set_entry-Fine (key_text sprint k) (to_json_compatible sprint x) made (compatible x) h)

    compatible_list : (xs : Items) → are_items_compatible (compatible_items sprint xs) ≡ true
    compatible_list no_items = refl
    compatible_list (item x xs) =
        both (is_compatible (to_json_compatible sprint x)) _ (compatible x) (compatible_list xs)

  -- In a converted value no map with keys of any type is left where slices and maps of `any` lead.
  pub is_compatible-to_json_compatible :
      (v : Any) → is_compatible (to_json_compatible sprint v) ≡ true
  is_compatible-to_json_compatible v = compatible v
