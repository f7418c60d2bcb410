-- ===== src/Settings/Tests.antt =====
-- Data that the runs of the settings framework share.
mod Expressions
mod Resolution
use mathlib.Core.List.{Perm}
use kanibako.Prelude.{
  if◌then◌else◌, ◌+◌, ◌<◌, ◌≡◌, ◌↔◌, ◌⊎◌, refl, true, false, none, some, List, [], ◌∷◌, ◌++◌, map,
  arith, Text, text, ◌==◌, contains, text_eq, ℕ_discrete, length,
}
use kanibako.Prelude.Dict.{Dict, lookup, keys}
use kanibako.Prelude.Sort.{IsSorted, sort}
use kanibako.Prelude.Strings.{starts_with}
use kanibako.Settings.Types.{
  Outcome, returned, raised, cyclic_ref, Ends, host, guest, ResolveCtx, LevelView, ResolvedValue,
  Lookup, max_ref_depth, unknown_ref,
}
use kanibako.Settings.Escape.{
  escape, bind_special, unescape, split_raw, split_bind, unescape-escape, split_bind-escape,
  SplitsFirst,
}
use kanibako.Settings.Expand.{expand_expr, expand_var, expand_ref, scan, segment, match_ref}
use kanibako.Settings.Expand.Total.{expand_expr-Ends}
use kanibako.Settings.Expand.Guard.{AgreeBeyond, expand_expr_agree}
use kanibako.Settings.Expand.Literal.{quote, expand_expr-quote}
use kanibako.Settings.Precedence.{resolve_value, NotSetIn, NoDefaultIn, resolve_value-set}
use kanibako.Settings.Keys.{
  Scope, system, crab, workset, box, Mode, ro, rw, match_share, match_seed, is_share_key,
  is_seed_key, discover,
}
use kanibako.Settings.Collect.{Collected, collect}
use kanibako.Settings.Shares.{Mount, share_of, share_leb, resolve_shares, Entry, entry_leb}
use kanibako.Settings.Shares.Order.{resolve_shares-IsSorted}
use kanibako.Settings.Shares.Entries.{share_of-none_iff, share_of-suppressed}
use kanibako.Settings.Seeds.{SeedPair, seed_of, seed_leb, disable_sentinel, resolve_seeds}
use kanibako.Settings.Seeds.Laws.{resolve_seeds-Ends}
use kanibako.Settings.SystemPaths.{resolve_system_paths}
use kanibako.Settings.SystemPaths.Total.{resolve_system_paths-Ends}

abbrev pub ctx : ResolveCtx
ctx = record {
  crab_name = some (text "claude");
  workset_name = none;
  host_home = text "/home/u";
  xdg = [];
}

-- A callback that knows one reference.
abbrev pub find : Lookup
find ref chain = if ref == text "data" then returned (text "/srv/$x") else raised (unknown_ref ref)

pub find-Ends : (name : Text) (chain : List Text) → Ends (find name chain)
find-Ends name chain = ground arith
