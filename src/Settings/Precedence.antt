-- ===== src/Settings/Precedence.antt =====
-- `resolve_value` of src/kanibako/settings_resolve.py.
use kanibako.Prelude.{
  ◌≡◌, ◌↔◌, refl, ◌∙◌, true, false, Option, none, some, List, [], ◌∷◌, ◌++◌, arith, Text, ◌==◌,
  text_eq, if◌then◌else◌, Option-cases, inl, inr,
}
use kanibako.Prelude.Dict.{lookup}
use kanibako.Settings.Types.{LevelView, ResolvedValue}

-- The value that a level set, an explicit "" being terminal.
set_at : LevelView → Text → ResolvedValue
set_at level val =
    if val == []
    then record { value = []; level = level.name; is_default = false; terminal = true }
    else record { value = val; level = level.name; is_default = false; terminal = false }

default_at : LevelView → Text → ResolvedValue
default_at level val = record {
  value = val;
  level = level.name;
  is_default = true;
  terminal = false;
}

-- Pass 1: the first level that set the key.
unfoldable pub first_set : Text → List LevelView → Option ResolvedValue
unfolding set_at
first_set key [] = none
first_set key (level ∷ levels) =
    let rest = first_set key levels in
    elim (lookup key level.values) [ none ↦ rest | some val ↦ some (set_at level val) ]

-- Pass 2: the first level that declares a default.
unfoldable pub first_default : Text → List LevelView → Option ResolvedValue
unfolding default_at
first_default key [] = none
first_default key (level ∷ levels) =
    let rest = first_default key levels in
    elim (lookup key level.defaults) [ none ↦ rest | some val ↦ some (default_at level val) ]

-- `none` is `UNSET`.
unfoldable pub resolve_value : Text → List LevelView → Option ResolvedValue
unfolding first_set first_default
resolve_value key levels = elim (first_set key levels) [
  | none ↦ first_default key levels
  | some rv ↦ some rv
]

abbrev pub NotSetIn : Text → List LevelView → Type 0
NotSetIn key [] = Unit
NotSetIn key (level ∷ levels) = (lookup key level.values ≡ none) × NotSetIn key levels

abbrev pub NoDefaultIn : Text → List LevelView → Type 0
NoDefaultIn key [] = Unit
NoDefaultIn key (level ∷ levels) = (lookup key level.defaults ≡ none) × NoDefaultIn key levels

first_set_skip :
    (key : Text) (before : List LevelView) (level : LevelView) (after : List LevelView) (val : Text)
    → NotSetIn key before
    → lookup key level.values ≡ some val
    → first_set key (before ++ level ∷ after) ≡ some (set_at level val)
unfolding first_set
first_set_skip key [] level after val h found = rw (found, first_set)
first_set_skip key (b ∷ before) level after val (h, hs) found =
    rw (h, first_set) (first_set_skip key before level after val hs found)

first_default_skip :
    (key : Text) (before : List LevelView) (level : LevelView) (after : List LevelView) (val : Text)
    → NoDefaultIn key before
    → lookup key level.defaults ≡ some val
    → first_default key (before ++ level ∷ after) ≡ some (default_at level val)
unfolding first_default
first_default_skip key [] level after val h found = rw (found, first_default)
first_default_skip key (b ∷ before) level after val (h, hs) found =
    rw (h, first_default) (first_default_skip key before level after val hs found)

first_set-none :
    (key : Text) (levels : List LevelView) → NotSetIn key levels → first_set key levels ≡ none
unfolding first_set
first_set-none key [] h = refl
first_set-none key (l ∷ levels) (h, hs) = rw (h, first_set) (first_set-none key levels hs)

first_default-none :
    (key : Text) (levels : List LevelView)
    → NoDefaultIn key levels
    → first_default key levels ≡ none
unfolding first_default
first_default-none key [] h = refl
first_default-none key (l ∷ levels) (h, hs) =
    rw (h, first_default) (first_default-none key levels hs)

resolve_value-some :
    (key : Text) (levels : List LevelView) {rv : ResolvedValue}
    → first_set key levels ≡ some rv
    → resolve_value key levels ≡ some rv
unfolding resolve_value
resolve_value-some key levels h = rw (h, resolve_value)

resolve_value-none :
    (key : Text) (levels : List LevelView)
    → first_set key levels ≡ none
    → resolve_value key levels ≡ first_default key levels
unfolding resolve_value
resolve_value-none key levels h = rw (h, resolve_value)

set_only :
    (key : Text) (levels : List LevelView) → first_set key levels ≡ none → NotSetIn key levels
unfolding first_set
set_only key [] h = tt
set_only key (level ∷ levels) h = ground (arith, set_only key levels)

default_only :
    (key : Text) (levels : List LevelView)
    → first_default key levels ≡ none
    → NoDefaultIn key levels
unfolding first_default
default_only key [] h = tt
default_only key (level ∷ levels) h = ground (arith, default_only key levels)

both_none :
    (key : Text) (levels : List LevelView)
    → resolve_value key levels ≡ none
    → (first_set key levels ≡ none) × (first_default key levels ≡ none)
both_none key levels h = elim (Option-cases (first_set key levels)) [
  | inl e ↦ (e, cc (h, resolve_value-none key levels e))
  | inr (rv, e) ↦ cc (h, resolve_value-some key levels e)
]

unset_only :
    (key : Text) (levels : List LevelView)
    → resolve_value key levels ≡ none
    → NotSetIn key levels × NoDefaultIn key levels
unset_only key levels h =
    let (s, d) = both_none key levels h in (set_only key levels s, default_only key levels d)

-- The first level that set the key decides, whatever the levels behind it set and whatever any
-- level declares as a default; an explicit "" is terminal and no other value is.
pub resolve_value-set :
    (key : Text) (before : List LevelView) (level : LevelView) (after : List LevelView) (val : Text)
    → NotSetIn key before
    → lookup key level.values ≡ some val
    → resolve_value key (before ++ level ∷ after)
      ≡ some (record { value = val; level = level.name; is_default = false; terminal = val == [] })
unfolding set_at
resolve_value-set key before level after val h found =
    resolve_value-some key _ (first_set_skip key before level after val h found) ∙ ground arith

-- If no level set the key, then the first level that declares a default decides, and the value is
-- marked as a default and never as terminal.
resolve_value-default :
    (key : Text) (before : List LevelView) (level : LevelView) (after : List LevelView) (val : Text)
    → NotSetIn key (before ++ level ∷ after)
    → NoDefaultIn key before
    → lookup key level.defaults ≡ some val
    → resolve_value key (before ++ level ∷ after)
      ≡ some (record { value = val; level = level.name; is_default = true; terminal = false })
unfolding default_at
resolve_value-default key before level after val h k found =
    resolve_value-none key _ (first_set-none key _ h)
    ∙ first_default_skip key before level after val k found

-- The result is UNSET exactly when no level set the key and none declares a default for it.
resolve_value-unset :
    (key : Text) (levels : List LevelView)
    → (resolve_value key levels ≡ none) ↔ (NotSetIn key levels × NoDefaultIn key levels)
resolve_value-unset key levels = (
  unset_only key levels,
  λ h.
      resolve_value-none key levels (first_set-none key levels h.0)
      ∙ first_default-none key levels h.1,
)
