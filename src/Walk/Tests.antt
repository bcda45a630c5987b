-- ===== src/Walk/Tests.antt =====
-- The theorems on the walk at concrete values.
use jsonrpc.Base.{
  ℕ, ◌<◌, ◌+◌, ◌^◌, ◌≡◌, refl, arith, Bool, true, false, Option, none, some, List, [], ◌∷◌, length,
  codes, Str, get_elem?,
}
use jsonrpc.Any.{
  Any, object, text, slice, mapping, any_type, string_any, item, no_items, entry, no_entries,
}
use jsonrpc.Samples.{empty_session}
use jsonrpc.Session.{get_local_ref, ref_id}
use jsonrpc.Walk.{process_result}
use jsonrpc.Walk.Registered.{objects, process_result_named}
use jsonrpc.Walk.Clean.{process_result_clean}

-- `map[string]any{"a": o5, "b": []any{o6, "c"}}`
abbrev nested : Any
nested = mapping string_any (
    entry (text (codes "a")) (object 5) (
      entry (text (codes "b")) (slice any_type (item (object 6) (item (text (codes "c")) no_items)))
        no_entries))

process_result_clean_example : objects (process_result nested empty_session).0 ≡ []
process_result_clean_example =
    process_result_clean nested empty_session (refl, (tt, ((refl, (tt, (tt, tt))), tt)))

process_result_named_example :
    get_local_ref (ref_id 2) (process_result nested empty_session).1 ≡ some 6
unfolding objects get_local_ref jsonrpc.Base.Dict.lookup
process_result_named_example =
    process_result_named nested empty_session 1 6 (λ n later. refl) (omega arith) refl
