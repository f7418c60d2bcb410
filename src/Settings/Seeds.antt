-- ===== src/Settings/Seeds.antt =====
-- `resolve_seeds` of src/kanibako/settings_seeds.py. The order in which a Python set gives its
-- elements is the parameter `iterate`.
pub mod Laws
use kanibako.Prelude.{
  ℕ, Bool, true, false, Option, none, some, List, [], map, Text, text, ◌==◌, nat_eq, text_eq,
  if◌then◌else◌, ltb,
}
use kanibako.Prelude.Sort.{sort, text_leb}
use kanibako.Settings.Types.{
  seed_without_colon, Outcome, returned, raised, ◌>>=◌, host, guest, ResolveCtx, LevelView,
  ResolvedValue, Lookup,
}
use kanibako.Settings.Escape.{split_bind}
use kanibako.Settings.Expand.{expand_expr}
use kanibako.Settings.Precedence.{resolve_value}
use kanibako.Settings.Keys.{Scope, match_seed, is_seed_key, discover, apply_order}
use kanibako.Settings.Collect.{collect}

-- `_DISABLE_SENTINEL`
abbrev pub disable_sentinel : Text
disable_sentinel = text "empty"

pub record SeedPair : Type 0 where
  pub host_src : Text
  pub guest_dest : Text
  pub scope : Scope
  pub name : Text

-- The order of tuples `(number, name)`.
tuple_leb : ℕ × Text → ℕ × Text → Bool
tuple_leb (s, n) (s', n') = if ltb s s' then true else if s == s' then text_leb n n' else false

-- The order of the sort keys `(_SCOPE_APPLY_ORDER[scope], name)`, which the pairs hold.
unfoldable pub seed_leb : SeedPair → SeedPair → Bool
unfolding tuple_leb apply_order text_leb
seed_leb p q = tuple_leb (apply_order p.scope, p.name) (apply_order q.scope, q.name)

module _ (levels : List LevelView) (ctx : ResolveCtx) (find : Lookup) where
  pair_of : Text → Scope × Text → Text → Text × Option Text → Outcome (Option SeedPair)
  pair_of key (scope, name) value (host_raw, none) = raised (seed_without_colon key value)
  pair_of key (scope, name) value (host_raw, some guest_raw) = do
    host_src ← expand_expr ctx find [] host host_raw
    guest_dest ← expand_expr ctx find [] guest guest_raw
    returned
        (some (record { host_src = host_src; guest_dest = guest_dest; scope = scope; name = name }))

  -- One round for a key with its groups and its resolved value: an explicit "" and the sentinel
  -- copy nothing.
  seed_at : Text → Scope × Text → Option ResolvedValue → Outcome (Option SeedPair)
  seed_at key groups none = returned none
  seed_at key groups (some rv) =
      if rv.terminal
      then returned none
      else if rv.value == disable_sentinel
      then returned none
      else pair_of key groups rv.value (split_bind rv.value)

  -- The keys passed the same test, so the match does not fail.
  unfoldable pub seed_of : Text → Outcome (Option SeedPair)
  unfolding seed_at pair_of
  seed_of key = elim (match_seed key) [
    | none ↦ returned none
    | some groups ↦ seed_at key groups (resolve_value key levels)
  ]

  unfoldable pub resolve_seeds : (List Text → List Text) → Outcome (List SeedPair)
  unfolding collect sort
  resolve_seeds iterate = do
    pairs ← collect seed_of (iterate (discover is_seed_key levels []))
    returned (sort seed_leb pairs)
