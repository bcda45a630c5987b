-- ===== src/Protocol/Refs.antt =====
-- The protocol methods on references: disposal and listing.
use jsonrpc.Base.{
  ℕ, true, false, none, some, [], ◌∷◌, ◌++◌, map, Str, ok, is_empty, All, ap, ◌∙◌, str_eq,
  if◌then◌else◌, ◌≡◌, refl, arith,
}
use jsonrpc.Base.Dict.{Dict, Unique, lookup, Unique-lookup}
use jsonrpc.Any.{bool, slice, concrete}
use jsonrpc.Message.Errors.{new_reference_not_found_error}
use jsonrpc.Mime.{Params}
use jsonrpc.Session.{
  Session, RefInfo, remove_local_ref, remove_remote_ref, get_local_ref, has_remote_ref,
  get_local_ref_info, list_local_refs, list_remote_refs, local_info,
}
use jsonrpc.Session.Remote.{remove_remote_ref_lem, peek_remote}
use jsonrpc.Env.{returned, failed, Env}
use jsonrpc.Protocol.{
  handle_dispose, handle_list_refs, dispose_ref, local_infos, convert_ref_info, items,
}

map-map {ℓ} :
    {A : Type ℓ} (f : RefInfo → A) (g : ℕ → RefInfo) (d : Dict ℕ)
    → map f (map (λ e. g e.1) d) ≡ map (λ e. f (g e.1)) d
map-map f g [] = refl
map-map f g (e ∷ d) = ap (λ r. f (g e.1) ∷ r) (map-map f g d)

remove_remote_ref_local :
    (ref j : Str) (s : Session) → get_local_ref j (remove_remote_ref ref s).0 ≡ get_local_ref j s
unfolding remove_remote_ref get_local_ref
remove_remote_ref_local ref j s = ground arith

module _ (env : Env) where
  open env use {World, traits, clean_up, decode_ref, format_time}

  handle_dispose-dispose_ref :
      (params : Params) (ref : Str) (s : Session) (w : World)
      → decode_ref params ≡ ok ref
      → is_empty ref ≡ false
      → handle_dispose env params s w ≡ dispose_ref env ref s w
  unfolding handle_dispose
  handle_dispose-dispose_ref params ref s w decoded named = rw (decoded, handle_dispose, named)

  missing :
      (ref : Str) (s : Session)
      → get_local_ref ref s ≡ none
      → remove_local_ref traits ref s ≡ (s, false, [])
  unfolding remove_local_ref get_local_ref
  missing ref s h = rw (h, remove_local_ref)

  -- `dispose` of a decoded and non-empty reference that is remote and not local answers true and forgets it; no other
  -- reference, no local one and no state of the application changes.
  pub handle_dispose_remote :
      (params : Params) (ref : Str) (s : Session) (w : World)
      → decode_ref params ≡ ok ref
      → is_empty ref ≡ false
      → get_local_ref ref s ≡ none
      → has_remote_ref ref s ≡ true
      → let (r, s', w') = handle_dispose env params s w in
        (r ≡ returned (bool true))
        × ((j : Str) → peek_remote j s' ≡ (if str_eq ref j then none else peek_remote j s))
        × ((j : Str) → get_local_ref j s' ≡ get_local_ref j s)
        × (w' ≡ w)
  unfolding dispose_ref
  handle_dispose_remote params ref s w decoded named absent known =
      let (existed, gone) = remove_remote_ref_lem ref s in
      let was_remote : (remove_remote_ref ref s).1 ≡ true = existed ∙ known in
      rw (handle_dispose-dispose_ref params ref s w decoded named) (
        rw (missing ref s absent, was_remote)
          (refl, gone, λ j. remove_remote_ref_local ref j s, refl))

  -- `dispose` of an unknown reference is the error -32002, and changes nothing.
  pub handle_dispose_unknown :
      (params : Params) (ref : Str) (s : Session) (w : World)
      → decode_ref params ≡ ok ref
      → is_empty ref ≡ false
      → get_local_ref ref s ≡ none
      → has_remote_ref ref s ≡ false
      → handle_dispose env params s w ≡ (failed (new_reference_not_found_error ref), s, w)
  unfolding dispose_ref has_remote_ref remove_remote_ref
  handle_dispose_unknown params ref s w decoded named absent unknown =
      rw (handle_dispose-dispose_ref params ref s w decoded named)
        (rw (missing ref s absent, unknown, remove_remote_ref))

  local_infos-map :
      (refs : Dict ℕ) (now : ℕ) (s : Session)
      → All (λ e. lookup e.0 s.local_refs ≡ some e.1) refs
      → local_infos env (map (λ e. e.0) refs) now s
        ≡ map (λ e. convert_ref_info format_time (local_info traits e.0 now s e.1)) refs
  unfolding local_infos get_local_ref_info
  local_infos-map [] now s h = refl
  local_infos-map ((ref, obj) ∷ refs) now s (h, hs) =
      let found : get_local_ref_info traits ref now s ≡ some (local_info traits ref now s obj) =
        rw (h, get_local_ref_info) in
      rw (found, local_infos, local_infos-map refs now s hs)

  -- For a valid session `list_refs` answers one entry for each local reference and one for each remote one, in the order
  -- of the tables.
  pub handle_list_refs_lem :
      (now : ℕ) (s : Session)
      → Unique s.local_refs
      → handle_list_refs env now s
        ≡ returned (
            slice concrete (
              items (
                map
                  (λ e. convert_ref_info format_time (local_info traits e.0 now s e.1))
                  s.local_refs
                ++ map (λ e. convert_ref_info format_time (s.infos e.1)) s.remote_refs)))
  unfolding handle_list_refs list_local_refs list_remote_refs
  handle_list_refs_lem now s v = rw (
    local_infos-map s.local_refs now s (Unique-lookup s.local_refs v),
    map-map (convert_ref_info format_time) s.infos s.remote_refs,
  )
