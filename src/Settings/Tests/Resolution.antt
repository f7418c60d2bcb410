-- ===== src/Settings/Tests/Resolution.antt =====
-- Runs of the resolution of values, shares, seeds and system paths, and the theorems at concrete
-- inputs.
use mathlib.Core.List.{Perm}
use kanibako.Prelude.{
  Option, ◌≡◌, ◌↔◌, refl, true, false, none, some, List, [], ◌∷◌, ◌++◌, map, Text, text, ◌==◌,
  text_eq, ℕ_discrete,
}
use kanibako.Prelude.Dict.{Dict, lookup}
use kanibako.Prelude.Sort.{IsSorted, sort}
use kanibako.Prelude.Strings.{starts_with}
use kanibako.Settings.Types.{returned, Ends, LevelView, ResolvedValue}
use kanibako.Settings.Escape.{escape, bind_special, split_bind}
use kanibako.Settings.Expand.{expand_expr, expand_ref, scan, segment}
use kanibako.Settings.Expand.Total.{LookupEnds}
use kanibako.Settings.Expand.Literal.{quote}
use kanibako.Settings.Precedence.{resolve_value, NotSetIn, NoDefaultIn, resolve_value-set}
use kanibako.Settings.Keys.{
  system, crab, box, rw, match_share, match_seed, is_share_key, is_seed_key, discover,
}
use kanibako.Settings.Collect.{Collected, collect}
use kanibako.Settings.Shares.{
  Mount, source_of, share_of, share_leb, resolve_shares, Entry, entry_leb,
}
use kanibako.Settings.Shares.Order.{Pairwise, resolve_shares-IsSorted}
use kanibako.Settings.Shares.Entries.{share_of-none_iff}
use kanibako.Settings.Seeds.{SeedPair, seed_of, seed_leb, resolve_seeds}
use kanibako.Settings.SystemPaths.{resolve_system_paths}
use kanibako.Settings.SystemPaths.Total.{resolve_system_paths-Ends}
use kanibako.Settings.Tests.{ctx, find, find-Ends}

abbrev share_key : Text
share_key = text "system.path.share_rw.foo"

abbrev quoted_bind : Text
quoted_bind =
    escape bind_special (quote (text "a:b")) ++ b':' ∷ escape bind_special (quote (text "/d"))

abbrev box_level : LevelView
box_level = record { name = text "box"; values = []; defaults = [] }

abbrev crab_level : LevelView
crab_level = record {
  name = text "crab";
  values = (share_key, quoted_bind) ∷ (text "crab.path.seeded.s", text "empty") ∷ [];
  defaults = (text "other", text "1") ∷ [];
}

abbrev suppressing : LevelView
suppressing = record { name = text "workset"; values = (share_key, []) ∷ []; defaults = [] }

abbrev system_level : LevelView
system_level = record {
  name = text "system";
  values = [];
  defaults = (share_key, text "x:/y") ∷ [];
}

abbrev levels : List LevelView
levels = box_level ∷ crab_level ∷ system_level ∷ []

unset_in_box : NotSetIn share_key (box_level ∷ [])
unfolding lookup text_eq
unset_in_box = (refl, tt)

set_in_crab : lookup share_key crab_level.values ≡ some quoted_bind
unfolding lookup text_eq
set_in_crab = refl

resolve_value-set_example :
    resolve_value share_key levels
    ≡ some (record {
      value = quoted_bind;
      level = text "crab";
      is_default = false;
      terminal = quoted_bind == [];
    })
resolve_value-set_example =
    resolve_value-set share_key (box_level ∷ []) crab_level (system_level ∷ []) quoted_bind
      unset_in_box set_in_crab

other_unset : NotSetIn (text "other") levels
unfolding lookup text_eq
other_unset = (refl, (refl, (refl, tt)))

other_default : lookup (text "other") crab_level.defaults ≡ some (text "1")
unfolding lookup text_eq
other_default = refl

NoDefaultIn-box : NoDefaultIn (text "other") (box_level ∷ [])
unfolding lookup
NoDefaultIn-box = (refl, tt)

share_matches : match_share share_key ≡ some (system, rw, text "foo")
unfolding match_share ℕ_discrete
share_matches = refl

no_match : match_share (text "system.path.share_rw.") ≡ none
unfolding match_share ℕ_discrete
no_match = refl

abbrev path_of : Text → Text
path_of s = s

abbrev join : Text → Text → Text
join p s = p ++ b'/' ∷ s

abbrev found_value : ResolvedValue
found_value = record {
  value = quoted_bind;
  level = text "crab";
  is_default = false;
  terminal = quoted_bind == [];
}

share_of-none_iff_example :
    (share_of path_of join levels ctx find none share_key ≡ returned none)
    ↔ (found_value.terminal ≡ true)
share_of-none_iff_example =
    share_of-none_iff path_of join levels ctx find none share_key (system, rw, text "foo")
      found_value share_matches resolve_value-set_example

empty_in_workset : lookup share_key suppressing.values ≡ some []
unfolding lookup text_eq
empty_in_workset = refl

abbrev box_two : LevelView
box_two = record {
  name = text "box";
  values =
      (text "crab.path.share_ro.r", text "rel:~/r")
      ∷ (text "box.path.seeded.q", text "~/q:~/q")
      ∷ [];
  defaults = [];
}

abbrev roots : Option (Dict Text Text)
roots = some ((text "crab.path.share_ro", text "@data") ∷ [])

abbrev mounts : List (Mount Text)
mounts =
    record { source = text "a:b"; destination = text "/d"; options = text "Z,U" }
    ∷ record {
      source = text "/srv/$x/rel";
      destination = text "/home/agent/r";
      options = text "ro";
    }
    ∷ []

abbrev pairs : List SeedPair
pairs =
    record {
      host_src = text "/home/u/q";
      guest_dest = text "/home/agent/q";
      scope = box;
      name = text "q";
    }
    ∷ []

root_free : source_of path_of join levels ctx find none none (text "a:b") ≡ returned (text "a:b")
unfolding source_of
root_free = refl

abbrev same_order : List Text → List Text
same_order l = l

two_mounts :
    resolve_shares path_of join (box_two ∷ levels) ctx find roots same_order ≡ returned mounts
unfolding resolve_shares share_of discover is_share_key match_share resolve_value split_bind
    expand_expr scan segment expand_ref lookup text_eq starts_with collect sort share_leb escape
two_mounts = refl

resolve_shares-IsSorted_example :
    (collected sorted : List (Entry path_of join (box_two ∷ levels) ctx find roots)) × Collected
      (share_of path_of join (box_two ∷ levels) ctx find roots)
      (same_order (discover is_share_key (box_two ∷ levels) []))
      collected
    × Perm sorted collected
    × IsSorted (entry_leb path_of join (box_two ∷ levels) ctx find roots) sorted
    × Pairwise (λ (k, _). k) sorted
    × (mounts ≡ map (λ (_, mount). mount) sorted)
resolve_shares-IsSorted_example =
    resolve_shares-IsSorted path_of join (box_two ∷ levels) ctx find roots same_order mounts
      two_mounts

no_cycle : LookupEnds ctx find []
no_cycle name fresh below = find-Ends name (name ∷ [])

abbrev seed_key : Text
seed_key = text "crab.path.seeded.s"

abbrev disabled : ResolvedValue
disabled = record {
  value = text "empty";
  level = text "crab";
  is_default = false;
  terminal = false;
}

seed_matches : match_seed seed_key ≡ some (crab, text "s")
unfolding match_seed ℕ_discrete
seed_matches = refl

seed_value : resolve_value seed_key levels ≡ some disabled
unfolding resolve_value lookup text_eq
seed_value = refl

one_pair : resolve_seeds (box_two ∷ levels) ctx find same_order ≡ returned pairs
unfolding resolve_seeds seed_of discover is_seed_key match_seed resolve_value split_bind expand_expr
    scan segment lookup text_eq seed_leb escape
one_pair = refl

-- Two paths that refer to each other.
abbrev cyclic : Dict Text Text
cyclic =
    (text "system.path.data", text "@system.path.boxes")
    ∷ (text "system.path.boxes", text "@system.path.data")
    ∷ []

resolve_system_paths-Ends_example :
    Ends (resolve_system_paths path_of cyclic (text "/d") (text "/h"))
resolve_system_paths-Ends_example = resolve_system_paths-Ends path_of cyclic (text "/d") (text "/h")
