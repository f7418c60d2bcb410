-- ===== src/Settings/Shares.antt =====
-- `resolve_shares` of src/kanibako/settings_shares.py. The paths of `pathlib` are a parameter:
-- `path_of` is `Path(s)` and `join` is `Path / s`. So is the order in which a Python set gives its
-- elements, `iterate`.
pub mod Order
pub mod Entries
use kanibako.Prelude.{
  ℕ, ◌≡◌, refl, Bool, true, false, ◌&&◌, ◌||◌, not, Option, none, some, List, [], ◌∷◌, ◌++◌, map,
  arith, Text, text, ◌==◌, contains, nat_eq, text_eq, if◌then◌else◌, ltb,
}
use kanibako.Prelude.Dict.{Dict, lookup}
use kanibako.Prelude.Strings.{starts_with}
use kanibako.Prelude.Sort.{sort, text_leb}
use kanibako.Settings.Types.{
  SettingsError, share_without_colon, Outcome, returned, raised, ◌>>=◌, Space, host, guest,
  ResolveCtx, LevelView, ResolvedValue, Lookup,
}
use kanibako.Settings.Escape.{split_bind}
use kanibako.Settings.Expand.{expand_expr}
use kanibako.Settings.Precedence.{resolve_value}
use kanibako.Settings.Keys.{
  Scope, system, crab, workset, box, Mode, ro, rw, match_share, is_share_key, discover, apply_order,
  mode_leb,
}
use kanibako.Settings.Collect.{collect}

pub record Mount (P : Type 0) : Type 0 where
  pub source : P
  pub destination : Text
  pub options : Text

abbrev pub ShareKey : Type 0
ShareKey = Scope × Mode × Text

abbrev scope_name : Scope → Text
scope_name system = text "system"
scope_name crab = text "crab"
scope_name workset = text "workset"
scope_name box = text "box"

abbrev mode_name : Mode → Text
mode_name ro = text "ro"
mode_name rw = text "rw"

abbrev pub group_of : Scope → Mode → Text
group_of scope mode = scope_name scope ++ (text ".path.share_" ++ mode_name mode)

abbrev pub options_of : Mode → Text
options_of ro = text "ro"
options_of rw = text "Z,U"

-- The order of tuples `(number, mode, name)`.
tuple_leb : ℕ × Mode × Text → ℕ × Mode × Text → Bool
tuple_leb (s, m, n) (s', m', n') =
    if ltb s s'
    then true
    else if s == s'
    then (if mode_leb m m' then (if mode_leb m' m then text_leb n n' else true) else false)
    else false

-- The order of the sort keys `(_SCOPE_APPLY_ORDER[scope], mode, name)`.
unfoldable pub share_leb : ShareKey → ShareKey → Bool
unfolding tuple_leb apply_order mode_leb text_leb
share_leb (s, m, n) (s', m', n') = tuple_leb (apply_order s, m, n) (apply_order s', m', n')

-- `scope_roots.get(group) if scope_roots else None`, where an empty text counts as no root.
abbrev pub root_of : Option (Dict Text Text) → Text → Option Text
root_of none group = none
root_of (some roots) group = elim (lookup group roots) [
  | none ↦ none
  | some root ↦ if root == [] then none else some root
]

module _ {P : Type 0} (path_of : Text → P) (join : P → Text → P) (levels : List LevelView)
    (ctx : ResolveCtx) (find : Lookup) (scope_roots : Option (Dict Text Text)) where
  abbrev pub Entry : Type 0
  Entry = ShareKey × Mount P

  -- The root join: only a relative source under a group that has a root.
  unfoldable pub source_of : Option Text → Text → Outcome P
  source_of none host_src = returned (path_of host_src)
  source_of (some root_expr) host_src =
      if starts_with host_src (text "/")
      then returned (path_of host_src)
      else do root ← expand_expr ctx find [] host root_expr; returned (join (path_of root) host_src)

  mount_of : Text → ShareKey → Text → Text × Option Text → Outcome (Option Entry)
  mount_of key (scope, mode, name) value (host_raw, none) = raised (share_without_colon key value)
  mount_of key (scope, mode, name) value (host_raw, some guest_raw) = do
    host_src ← expand_expr ctx find [] host host_raw
    guest_dest ← expand_expr ctx find [] guest guest_raw
    source ← source_of (root_of scope_roots (group_of scope mode)) host_src
    returned (
        some (
          (scope, mode, name),
          record { source = source; destination = guest_dest; options = options_of mode },
        ))

  -- One round for a key with its groups and its resolved value; an explicit "" mounts nothing.
  share_at : Text → ShareKey → Option ResolvedValue → Outcome (Option Entry)
  share_at key groups none = returned none
  share_at key groups (some rv) =
      if rv.terminal then returned none else mount_of key groups rv.value (split_bind rv.value)

  -- The keys passed the same test, so the match does not fail.
  unfoldable pub share_of : Text → Outcome (Option Entry)
  unfolding share_at mount_of source_of
  share_of key = elim (match_share key) [
    | none ↦ returned none
    | some groups ↦ share_at key groups (resolve_value key levels)
  ]

  pub entry_leb : Entry → Entry → Bool
  entry_leb (k, _) (k', _) = share_leb k k'

  unfoldable pub resolve_shares : (List Text → List Text) → Outcome (List (Mount P))
  unfolding entry_leb
  resolve_shares iterate = do
    mounts ← collect share_of (iterate (discover is_share_key levels []))
    returned (map (λ (_, mount). mount) (sort entry_leb mounts))
