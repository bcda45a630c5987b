-- ===== src/Value/Elements.antt =====
-- `Index`, `MapIndex` and `Len` of a `Value`: go/jsonrpc3/jsonrpc3.go.
use jsonrpc.Base.{ℕ, zero, suc, ◌≤◌, ◌<◌, true, none, some, Str, Result, ok, ◌≡◌, refl, arith}
use jsonrpc.Base.Int.{pos, negsuc}
use jsonrpc.Any.{Any, slice, mapping, any_type, string_any, any_any, Items, no_items, item, Entries}
use jsonrpc.Enhanced.{ValueCodecs, is_enhanced_type}
use jsonrpc.Mime.{Codec}
use jsonrpc.Message.{RawMessage}
use jsonrpc.Value.{
  Value, null_kind, zero_value, kind, kind_of, index, map_index, len, get_item, encoded_value,
  is_reference_any, count_items, count_entries, ensure_decoded, element_at, len_any,
}

-- An index within an array finds an element.
get_item_within : (i : ℕ) (xs : Items) → i < count_items xs → (x : Any) × (get_item i xs ≡ some x)
unfolding get_item
get_item_within i no_items h = ground (arith, h)
get_item_within zero (item x xs) h = (x, refl)
get_item_within (suc i) (item x xs) h = get_item_within i xs (omega (arith, h))

get_item_beyond : (i : ℕ) (xs : Items) → count_items xs ≤ i → get_item i xs ≡ none
unfolding get_item
get_item_beyond i no_items h = refl
get_item_beyond zero (item x xs) h = ground (arith, h)
get_item_beyond (suc i) (item x xs) h = get_item_beyond i xs (omega (arith, h))

module _ (codecs : ValueCodecs) (sprint : Any → Str) where
  -- A value that was decoded to a given one.
  abbrev pub decoded : RawMessage → Codec → Any → Value
  decoded bytes codec x = record {
    data_bytes = bytes;
    codec = some codec;
    cached = x;
    is_decoded = true;
  }

  -- Every value of a type can be encoded.
  abbrev pub Encodes : Codec → Type 0
  Encodes codec = (x : Any) → (bytes : Str) × (codecs.marshal codec x ≡ ok bytes)

  kind-indexed :
      (codec : Codec) (x : Any) (r : Result Str)
      → ((bytes : Str) × (r ≡ ok bytes))
      → (kind codecs sprint (encoded_value codecs sprint x (some codec) r)).1 ≡ kind_of x
  unfolding kind ensure_decoded
  kind-indexed codec x r (bytes, e) = rw e refl

  -- If values can be encoded, an index below the length of an array finds an element, and the value
  -- that `Index` gives has the kind of this element.
  pub index-kind :
      (bytes : RawMessage) (codec : Codec) (xs : Items) (i : ℕ)
      → let v = decoded bytes codec (slice any_type xs) in
        Encodes codec
        → i < (len codecs sprint v).1
        → (x : Any) × (element_at (pos i) (slice any_type xs) ≡ some x)
          × ((kind codecs sprint (index codecs sprint (pos i) v).1).1 ≡ kind_of x)
  unfolding len index kind ensure_decoded element_at len_any kind_of
  index-kind bytes codec xs i encodes h =
      let (x, e) = get_item_within i xs h in
      (x, e, rw e (kind-indexed codec x (codecs.marshal codec x) (encodes x)))

  -- Beyond the length of an array, and below 0, the value that `Index` gives is of the kind of nil.
  pub kind-index_beyond :
      (bytes : RawMessage) (codec : Codec) (xs : Items) (i : ℕ)
      → let v = decoded bytes codec (slice any_type xs) in
        (len codecs sprint v).1 ≤ i
        → ((kind codecs sprint (index codecs sprint (pos i) v).1).1 ≡ null_kind)
          × ((kind codecs sprint (index codecs sprint (negsuc i) v).1).1 ≡ null_kind)
  unfolding len index kind ensure_decoded element_at len_any kind_of
  kind-index_beyond bytes codec xs i h = (rw (get_item_beyond i xs h) refl, refl)

  -- A map that the CBOR codec decodes has the kind of the map with string keys and the same entries,
  -- but its length is 0 and no key finds anything in it.
  pub map_index_any_any :
      (bytes : RawMessage) (codec : Codec) (xs : Entries) (key : Str)
      → let v = decoded bytes codec (mapping any_any xs) in
        let u = decoded bytes codec (mapping string_any xs) in
        ((kind codecs sprint v).1 ≡ (kind codecs sprint u).1)
        × ((len codecs sprint u).1 ≡ count_entries xs)
        × ((len codecs sprint v).1 ≡ 0)
        × ((map_index codecs sprint key v).1 ≡ zero_value)
  unfolding kind kind_of len map_index ensure_decoded len_any is_reference_any is_enhanced_type
  map_index_any_any bytes codec xs key = (refl, refl, refl, refl)
