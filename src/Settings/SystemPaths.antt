-- ===== src/Settings/SystemPaths.antt =====
-- `resolve_system_paths` of src/kanibako/paths.py. Its `lookup` and `expand_expr` call each other;
-- here `lookup` has fuel for the depth of references, and 64 is enough (SystemPaths/Total.antt). The
-- paths of `pathlib` are a parameter: `path_of` is `Path(s)`.
pub mod Total
use kanibako.Prelude.{ℕ, zero, suc, Option, none, some, List, [], ◌∷◌, ◌++◌, Text, text}
use kanibako.Prelude.Dict.{Dict}
use kanibako.Settings.Types.{
  unknown_ref, unresolvable_path, Outcome, returned, raised, out_of_fuel, ◌>>=◌, host, ResolveCtx,
  LevelView, ResolvedValue, Lookup,
}
use kanibako.Settings.Expand.{expand_expr}
use kanibako.Settings.Precedence.{resolve_value}

abbrev pub system_path_defaults : Dict Text Text
system_path_defaults =
    (text "system.path.data", text "$XDG_DATA_HOME/kanibako")
    ∷ (text "system.path.boxes", text "@system.path.data/boxes")
    ∷ (text "system.path.crabs", text "@system.path.data/crabs")
    ∷ (text "system.path.comms", text "@system.path.data/comms")
    ∷ (text "system.path.share_ro", text "@system.path.data/share_ro")
    ∷ (text "system.path.share_rw", text "@system.path.data/share_rw")
    ∷ (text "system.path.templates", text "@system.path.data/templates")
    ∷ (text "system.path.ws_hints", text "@system.path.data/worksets.yaml")
    ∷ []

abbrev pub system_ctx : Text → Text → ResolveCtx
system_ctx data_home home = record {
  crab_name = none;
  workset_name = none;
  host_home = home;
  xdg = (text "XDG_DATA_HOME", data_home) ∷ [];
}

abbrev pub system_levels : Dict Text Text → List LevelView
system_levels set_values =
    record { name = text "system"; values = set_values; defaults = system_path_defaults } ∷ []

module _ (set_values : Dict Text Text) (ctx : ResolveCtx) where
  -- The inner function `lookup`.
  unfoldable pub system_lookup : ℕ → Lookup
  system_lookup zero ref chain = out_of_fuel
  system_lookup (suc fuel) ref chain =
      let find = system_lookup fuel in
      elim (resolve_value ref (system_levels set_values)) [
        | none ↦ raised (unknown_ref ref)
        | some rv ↦ expand_expr ctx find chain host rv.value
      ]

  -- One round of the loop over the keys.
  unfoldable pub system_path : ℕ → Text → Outcome Text
  unfolding system_lookup
  system_path fuel key = elim (resolve_value key (system_levels set_values)) [
    | none ↦ raised (unresolvable_path key)
    | some rv ↦ expand_expr ctx (system_lookup fuel) [] host rv.value
  ]

  path_loop : {P : Type 0} → (Text → P) → ℕ → Dict Text Text → Outcome (Dict Text P)
  path_loop path_of fuel [] = returned []
  path_loop path_of fuel ((key, _) ∷ rest) = do
    expanded ← system_path fuel key
    resolved ← path_loop path_of fuel rest
    returned ((key, path_of expanded) ∷ resolved)

unfoldable pub resolve_system_paths :
    {P : Type 0} → (Text → P) → Dict Text Text → Text → Text → Outcome (Dict Text P)
unfolding path_loop system_path
resolve_system_paths path_of set_values data_home home =
    path_loop set_values (system_ctx data_home home) path_of 64 system_path_defaults
