-- ===== src/Http/ClientRefs.antt =====
-- Whether parameters hold a reference to an object of the client: `scanForClientRefs` and
-- `hasClientRefsInValue` of go/jsonrpc3/http_server.go.
use jsonrpc.Base.{
  Bool, false, not, ◌&&◌, ◌||◌, Option, none, some, [], ◌∷◌, codes, str_eq, is_empty,
}
use jsonrpc.Any.{
  Any, text, slice, mapping, any_type, string_any, Items, no_items, item, Entries, no_entries,
  entry,
}
use jsonrpc.Message.{RawMessage}
use jsonrpc.Http.{Wire}

-- `s, ok := v.(string); ok && s != ""`
abbrev is_named : Any → Bool
is_named (text s) = not (is_empty s)
is_named _ = false

abbrev is_ref_key : Any → Bool
is_ref_key (text k) = str_eq k (codes "$ref")
is_ref_key _ = false

-- A map with the one key `$ref`, and a string under it that is not empty.
abbrev pub is_reference_map : Entries → Bool
is_reference_map (entry k x no_entries) = is_ref_key k && is_named x
is_reference_map _ = false

-- `hasClientRefsInValue`, on the values that `json.Unmarshal` makes.
unfoldable mutual
  pub has_client_refs : Any → Bool
  has_client_refs (mapping string_any xs) = is_reference_map xs || has_client_refs_entries xs
  has_client_refs (slice any_type xs) = has_client_refs_items xs
  has_client_refs _ = false

  pub has_client_refs_entries : Entries → Bool
  has_client_refs_entries no_entries = false
  has_client_refs_entries (entry k x xs) = has_client_refs x || has_client_refs_entries xs

  pub has_client_refs_items : Items → Bool
  has_client_refs_items no_items = false
  has_client_refs_items (item x xs) = has_client_refs x || has_client_refs_items xs

abbrev has_refs_decoded : Option Any → Bool
has_refs_decoded none = false
has_refs_decoded (some v) = has_client_refs v

-- `scanForClientRefs`
unfoldable pub scan_for_client_refs : Wire → RawMessage → Bool
scan_for_client_refs wire none = false
scan_for_client_refs wire (some []) = false
scan_for_client_refs wire (some (c ∷ cs)) = has_refs_decoded (wire.unmarshal_json (c ∷ cs))
