-- ===== src/MethodMap/Calls.antt =====
-- What a method map answers after a method is registered: go/jsonrpc3/helpers.go.
use jsonrpc.Base.{
  false, List, [], ◌∷◌, Str, codes, str_eq, ◌≡◌, refl, ap, ◌∙◌, Bool-cases, inl, inr, if◌then◌else◌,
}
use jsonrpc.Base.Dict.{lookup-insert}
use jsonrpc.MethodMap.{
  MethodInfo, MethodMap, handled, RegisterOption, apply_options, register_method, call_map_method,
  call_info, with_description, with_params, with_category,
}

module _ {F : Type 0} {R : Type 0} (run : F → R) where
  apply_options-handler :
      (opts : List RegisterOption) (info : MethodInfo F)
      → (apply_options opts info).handler ≡ info.handler
  apply_options-handler [] info = refl
  apply_options-handler (with_description d ∷ opts) info = apply_options-handler opts _
  apply_options-handler (with_params ps ∷ opts) info = apply_options-handler opts _
  apply_options-handler (with_category c ∷ opts) info = apply_options-handler opts _

  -- After a method is registered under a name that is not `$methods` or `$type`, a call of that name
  -- runs its function, whatever the options and whatever was registered before under that name; a call
  -- of any other such name answers what it answered before.
  pub call_map_method-register_method :
      (name j : Str) (fn : F) (opts : List RegisterOption) (m : MethodMap F)
      → str_eq j (codes "$methods") ≡ false
      → str_eq j (codes "$type") ≡ false
      → call_map_method run j (register_method name fn opts m)
        ≡ (if str_eq name j then handled (run fn) else call_map_method run j m)
  unfolding call_map_method register_method
  call_map_method-register_method name j fn opts m not_methods not_type =
      let found = lookup-insert name j _ m.methods in
      rw (not_methods, not_type)
        (ap (call_info run j) found ∙ (elim (Bool-cases (str_eq name j)) [
          | inl same ↦ rw same (ap (λ f. handled (run f)) (apply_options-handler opts _))
          | inr other ↦ rw other refl
        ]))
