-- ===== src/Settings/SystemPaths/Total.antt =====
-- The mutual recursion of `lookup` and `expand_expr` ends: each call makes the chain longer, and the
-- depth cap bounds the chain.
use kanibako.Prelude.{
  ℕ, zero, suc, ◌+◌, ◌≤◌, ◌<◌, ◌≡◌, List, [], ◌∷◌, ◌++◌, length, length-append, arith, Text, inl,
  inr, Option-cases,
}
use kanibako.Prelude.Dict.{Dict}
use kanibako.Settings.Types.{Ends, Ends-bind, host, ResolveCtx, max_ref_depth}
use kanibako.Settings.Expand.Total.{LookupEnds, expand_expr-Ends}
use kanibako.Settings.Precedence.{resolve_value}
use kanibako.Settings.SystemPaths.{
  system_lookup, system_path, path_loop, system_levels, system_ctx, system_path_defaults,
  resolve_system_paths,
}

module _ (set_values : Dict Text Text) (ctx : ResolveCtx) where
  system_lookup-Ends :
      (fuel : ℕ) (ref : Text) (chain : List Text)
      → length chain ≤ max_ref_depth
      → max_ref_depth < fuel + length chain
      → Ends (system_lookup set_values ctx fuel ref chain)
  unfolding system_lookup
  system_lookup-Ends zero ref chain h k = absurd (omega arith)
  system_lookup-Ends (suc fuel) ref chain h k =
      let inner : LookupEnds ctx (system_lookup set_values ctx fuel) chain = λ name fresh below.
        let e : length (chain ++ name ∷ []) ≡ length chain + 1 =
          omega (arith, length-append chain (name ∷ [])) in
        system_lookup-Ends fuel name (chain ++ name ∷ []) (omega arith) (omega arith) in
      elim (Option-cases (resolve_value ref (system_levels set_values))) [
        | inl e ↦ rw (e, system_lookup) tt
        | inr (rv, e) ↦
            rw (e, system_lookup)
              (expand_expr-Ends ctx (system_lookup set_values ctx fuel) chain inner host rv.value)
      ]

  system_path-Ends : (key : Text) → Ends (system_path set_values ctx 64 key)
  unfolding system_path
  system_path-Ends key = elim (Option-cases (resolve_value key (system_levels set_values))) [
    | inl e ↦ rw (e, system_path) tt
    | inr (rv, e) ↦
        rw (e, system_path)
          (expand_expr-Ends ctx (system_lookup set_values ctx 64) []
            (λ name fresh below. system_lookup-Ends 64 name (name ∷ []) (omega arith) (omega arith))
            host rv.value)
  ]

  path_loop-Ends :
      {P : Type 0} (path_of : Text → P) (keys : Dict Text Text)
      → Ends (path_loop set_values ctx path_of 64 keys)
  unfolding path_loop
  path_loop-Ends path_of [] = tt
  path_loop-Ends path_of ((key, _) ∷ rest) =
      Ends-bind (system_path set_values ctx 64 key) _ (system_path-Ends key) λ expanded _.
        Ends-bind (path_loop set_values ctx path_of 64 rest) _ (path_loop-Ends path_of rest)
          (λ resolved _. tt)

-- Whatever expressions the user set, cyclic ones and long chains included, the resolution of the
-- system paths ends: it returns paths or raises.
pub resolve_system_paths-Ends :
    {P : Type 0} (path_of : Text → P) (set_values : Dict Text Text) (data_home home : Text)
    → Ends (resolve_system_paths path_of set_values data_home home)
unfolding resolve_system_paths
resolve_system_paths-Ends path_of set_values data_home home =
    path_loop-Ends set_values (system_ctx data_home home) path_of system_path_defaults
