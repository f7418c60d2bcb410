-- ===== src/Settings/Keys.antt =====
-- The keys of scoped shares and seeds: `SHARE_KEY_RE` of src/kanibako/settings_shares.py,
-- `SEED_KEY_RE` of settings_seeds.py, and the keys that a list of levels names.
use kanibako.Prelude.{
  ℕ, Bool, true, false, Option, none, some, List, [], ◌∷◌, ◌++◌, Text, text, ◌==◌, contains, nat_eq,
  text_eq, if◌then◌else◌,
}
use kanibako.Prelude.Dict.{keys}
use kanibako.Prelude.Strings.{strip_prefix}
use kanibako.Settings.Types.{LevelView}

pub data Scope : Type 0 where
  system crab workset box : Scope

pub data Mode : Type 0 where
  ro rw : Mode

infixl 5 ◌>>=◌
abbrev ◌>>=◌ : {A B : Type 0} → Option A → (A → Option B) → Option B
none >>= f = none
some a >>= f = f a

abbrev or_else : {A : Type 0} → Option A → Option A → Option A
or_else none o = o
or_else (some a) o = some a

-- `.+$`: all that is left, which is not empty and holds no newline but for one at its end.
unfoldable pub dot_plus : Text → Option Text
dot_plus [] = none
dot_plus (c ∷ []) = if c == 10 then none else some (c ∷ [])
dot_plus (c ∷ d ∷ s) =
    let rest = (do r ← dot_plus (d ∷ s); some (c ∷ r)) in
    if c == 10
    then none
    else if d == 10
    then (elim s [ [] ↦ some (c ∷ []) | _ ∷ _ ↦ none ])
    else rest

abbrev after {ℓ} : {A : Type ℓ} → A → Option Text → Option (A × Text)
after a none = none
after a (some rest) = some (a, rest)

unfoldable pub scope_prefix : Text → Option (Scope × Text)
scope_prefix key = or_else (after system (strip_prefix key (text "system"))) (
    or_else (after crab (strip_prefix key (text "crab"))) (
      or_else (after workset (strip_prefix key (text "workset")))
        (after box (strip_prefix key (text "box")))))

mode_prefix : Text → Option (Mode × Text)
mode_prefix s =
    or_else (after ro (strip_prefix s (text "ro."))) (after rw (strip_prefix s (text "rw.")))

-- The groups of `SHARE_KEY_RE.match(key)`.
unfoldable pub match_share : Text → Option (Scope × Mode × Text)
unfolding scope_prefix mode_prefix dot_plus strip_prefix
match_share key = do
  (scope, s) ← scope_prefix key
  t ← strip_prefix s (text ".path.share_")
  (mode, u) ← mode_prefix t
  name ← dot_plus u
  some (scope, mode, name)

-- The groups of `SEED_KEY_RE.match(key)`.
unfoldable pub match_seed : Text → Option (Scope × Text)
unfolding scope_prefix dot_plus strip_prefix
match_seed key = do
  (scope, s) ← scope_prefix key
  t ← strip_prefix s (text ".path.seeded.")
  name ← dot_plus t
  some (scope, name)

abbrev is_some {ℓ} : {A : Type ℓ} → Option A → Bool
is_some none = false
is_some (some a) = true

unfoldable pub is_share_key : Text → Bool
unfolding match_share
is_share_key key = is_some (match_share key)

unfoldable pub is_seed_key : Text → Bool
unfolding match_seed
is_seed_key key = is_some (match_seed key)

-- `keys.add(key)` for each key that the test lets through.
unfoldable pub add_keys : (Text → Bool) → List Text → List Text → List Text
add_keys test [] found = found
add_keys test (key ∷ rest) found =
    add_keys test rest
      (if test key then (if contains found key then found else found ++ key ∷ []) else found)

-- The keys of every level's values and defaults, in the order of discovery.
unfoldable pub discover : (Text → Bool) → List LevelView → List Text → List Text
unfolding add_keys keys
discover test [] found = found
discover test (level ∷ levels) found =
    discover test levels
      (add_keys test (keys level.defaults) (add_keys test (keys level.values) found))

-- `_SCOPE_APPLY_ORDER`
unfoldable pub apply_order : Scope → ℕ
apply_order system = 0
apply_order crab = 1
apply_order workset = 2
apply_order box = 3

unfoldable pub mode_leb : Mode → Mode → Bool
mode_leb rw ro = false
mode_leb m n = true
