-- ===== src/Protocol.antt =====
-- The protocol methods, which are called on the reference `$rpc`: go/jsonrpc3/protocol.go.
-- `decode_ref` stands for `params.Decode` into a struct with the one field `ref`.
pub mod Refs
pub mod Capabilities
mod Tests
use jsonrpc.Base.{
  ℕ, Bool, true, false, Option, none, some, List, [], ◌∷◌, ◌++◌, map, Str, codes, Result, ok, err,
  is_empty, str_eq, ◌==◌, if◌then◌else◌,
}
use jsonrpc.Any.{
  Any, nil, bool, number, int, text, pointer, slice, struct, Items, no_items, item, Fields,
  no_fields, field, any_type, concrete,
}
use jsonrpc.Message.Errors.{
  new_invalid_params_error, new_reference_not_found_error, new_method_not_found_error,
}
use jsonrpc.Mime.{Params, mime_type_cbor, mime_type_cbor_compact}
use jsonrpc.Session.{
  Session, RefInfo, Cleanup, remove_local_ref, remove_remote_ref, list_local_refs, list_remote_refs,
  get_local_ref_info, get_remote_ref_info, dispose_all,
}
use jsonrpc.Env.{CallResult, returned, failed, Env}

-- A list of values as a slice with elements of one type.
abbrev pub items : List Any → Items
items [] = no_items
items (v ∷ vs) = item v (items vs)

exported : Str → Any → Fields → Fields
exported name v = field name true concrete v

-- `convertRefInfo`, with the fields of `RefInfoResult`.
unfoldable pub convert_ref_info : (ℕ → Str) → RefInfo → Any
unfolding exported
convert_ref_info format_time info = struct (
    exported (codes "Ref") (text info.ref) (
      exported (codes "Type") (text info.type_name) (
        exported (codes "Direction") (text info.direction) (
          exported (codes "Created") (text (format_time info.created)) (
            exported (codes "LastAccessed")
              (text (if info.last_accessed == 0 then [] else format_time info.last_accessed))
              (field (codes "Metadata") true any_type info.metadata no_fields))))))

-- The capabilities that a MIME type adds.
encoding_capability : Str → List Str
encoding_capability mimetype =
    if str_eq mimetype mime_type_cbor
    then codes "cbor-encoding" ∷ []
    else if str_eq mimetype mime_type_cbor_compact
    then codes "cbor-compact-encoding" ∷ []
    else []

-- The loop of `handleCapabilities`.
add_capabilities : List Str → List Str → List Str
add_capabilities [] found = found
add_capabilities (m ∷ ms) found = add_capabilities ms (found ++ encoding_capability m)

unfoldable pub capabilities : List Str → List Str
unfolding add_capabilities encoding_capability
capabilities mime_types = add_capabilities mime_types (
    codes "references"
    ∷ codes "batch-local-references"
    ∷ codes "bidirectional-calls"
    ∷ codes "introspection"
    ∷ [])

invalid_params : Str → CallResult
invalid_params e = failed (new_invalid_params_error (text (codes "invalid params: " ++ e)))

ref_required : CallResult
ref_required = failed (new_invalid_params_error (text (codes "ref parameter is required")))

module _ (env : Env) where
  open env use {World, traits, clean_up, decode_ref, format_time}

  -- The calls of `Dispose` and `Close`, one behind the other.
  unfoldable pub clean_up_all : List Cleanup → World → World
  clean_up_all [] w = w
  clean_up_all (c ∷ cs) w = clean_up_all cs (clean_up c w)

  -- Removing a reference: as a local one, or else as a remote one.
  dispose_ref : Str → Session → World → CallResult × Session × World
  dispose_ref ref s w =
      let (s1, was_local, calls) = remove_local_ref traits ref s in
      let (s2, was_remote) = remove_remote_ref ref s1 in
      if was_local
      then (returned (bool true), s1, clean_up_all calls w)
      else if was_remote
      then (returned (bool true), s2, w)
      else (failed (new_reference_not_found_error ref), s2, w)

  -- `handleDispose`
  unfoldable pub handle_dispose : Params → Session → World → CallResult × Session × World
  unfolding dispose_ref invalid_params ref_required
  handle_dispose params s w = elim (decode_ref params) [
    | err e ↦ (invalid_params e, s, w)
    | ok ref ↦ if is_empty ref then (ref_required, s, w) else dispose_ref ref s w
  ]

  -- `handleSessionID`
  unfoldable pub handle_session_id : Session → CallResult
  unfolding exported
  handle_session_id s =
      returned (pointer (struct (exported (codes "SessionID") (text s.id) no_fields)))

  -- The first loop of `handleListRefs`.
  local_infos : List Str → ℕ → Session → List Any
  local_infos [] now s = []
  local_infos (ref ∷ refs) now s =
      let rest = local_infos refs now s in
      elim (get_local_ref_info traits ref now s) [
        | none ↦ rest
        | some info ↦ convert_ref_info format_time info ∷ rest
      ]

  -- `handleListRefs`
  unfoldable pub handle_list_refs : ℕ → Session → CallResult
  unfolding local_infos
  handle_list_refs now s = returned (
      slice concrete (
        items (
          local_infos (list_local_refs s) now s
          ++ map (convert_ref_info format_time) (list_remote_refs s))))

  -- The answer to `ref_info`, by what was found.
  answer_info : Str → Option RefInfo → Session → CallResult × Session
  answer_info ref none s = (failed (new_reference_not_found_error ref), s)
  answer_info ref (some info) s = (returned (convert_ref_info format_time info), s)

  -- What is known of a reference: as a local one, or else as a remote one.
  ref_info : Str → ℕ → Session → CallResult × Session
  unfolding answer_info
  ref_info ref now s = elim (get_local_ref_info traits ref now s) [
    | some info ↦ answer_info ref (some info) s
    | none ↦ let (s', found) = get_remote_ref_info ref now s in answer_info ref found s'
  ]

  -- `handleRefInfo`
  unfoldable pub handle_ref_info : Params → ℕ → Session → CallResult × Session
  unfolding ref_info invalid_params ref_required
  handle_ref_info params now s = elim (decode_ref params) [
    | err e ↦ (invalid_params e, s)
    | ok ref ↦ if is_empty ref then (ref_required, s) else ref_info ref now s
  ]

  -- `handleDisposeAll`
  unfoldable pub handle_dispose_all : Session → World → CallResult × Session × World
  unfolding exported
  handle_dispose_all s w =
      let (s', locals, remotes, calls) = dispose_all traits s in
      (
        returned (
            pointer (
              struct (
                exported (codes "LocalCount") (number int locals)
                  (exported (codes "RemoteCount") (number int remotes) no_fields)))),
        s',
        clean_up_all calls w,
      )

  -- `handleMimeTypes`
  unfoldable pub handle_mime_types : List Str → CallResult
  unfolding exported
  handle_mime_types mime_types = returned (
      pointer (
        struct
          (exported (codes "MimeTypes") (slice concrete (items (map text mime_types))) no_fields)))

  -- `handleCapabilities`
  unfoldable pub handle_capabilities : List Str → CallResult
  handle_capabilities mime_types =
      returned (slice concrete (items (map text (capabilities mime_types))))

  -- `ProtocolHandler.CallMethod`
  unfoldable pub call_protocol :
      List Str → ℕ → Str → Params → Session → World → CallResult × Session × World
  call_protocol mime_types now method params s w =
      if str_eq method (codes "dispose")
      then handle_dispose params s w
      else if str_eq method (codes "session_id")
      then (handle_session_id s, s, w)
      else if str_eq method (codes "list_refs")
      then (handle_list_refs now s, s, w)
      else if str_eq method (codes "ref_info")
      then (let (r, s') = handle_ref_info params now s in (r, s', w))
      else if str_eq method (codes "dispose_all")
      then handle_dispose_all s w
      else if str_eq method (codes "mimetypes")
      then (handle_mime_types mime_types, s, w)
      else if str_eq method (codes "capabilities")
      then (handle_capabilities mime_types, s, w)
      else (failed (new_method_not_found_error method), s, w)
