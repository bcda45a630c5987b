-- ===== src/MethodMap/Tests.antt =====
-- The theorems on method maps at concrete ones.
use jsonrpc.Base.{ℕ, ◌+◌, ◌≡◌, refl, [], ◌∷◌, codes}
use jsonrpc.MethodMap.{
  MethodMap, handled, register_method, call_map_method, new_method_map, with_description,
}
use jsonrpc.MethodMap.Calls.{call_map_method-register_method}

-- A function is known by a number, and a call of it returns the next one.
abbrev sample_map : MethodMap ℕ
sample_map = register_method (codes "add") 3 [] new_method_map

call_map_method-register_method_example :
    call_map_method
      (λ f. f + 1)
      (codes "add")
      (register_method (codes "add") 8 (with_description (codes "adds") ∷ []) sample_map)
    ≡ handled 9
call_map_method-register_method_example =
    call_map_method-register_method (λ f. f + 1) (codes "add") (codes "add") 8
      (with_description (codes "adds") ∷ []) sample_map refl refl
