-- ===== src/Settings/Shares/Entries.antt =====
-- What one share key contributes.
use kanibako.Prelude.{
  ℕ, ◌≡◌, ◌≢◌, ◌↔◌, refl, ap, ◌∙◌, Bool, true, false, Option, none, some, List, [], ◌∷◌, ◌++◌,
  arith, Text, text, ◌==◌, text_eq, if◌then◌else◌, Option-cases, inl, inr,
}
use kanibako.Prelude.Dict.{Dict, lookup}
use kanibako.Prelude.Strings.{starts_with}
use kanibako.Settings.Types.{
  Outcome, returned, Ends, Ends-bind, host, guest, ResolveCtx, LevelView, ResolvedValue, Lookup,
  bind-returned, Ends-if,
}
use kanibako.Settings.Escape.{split_bind, escape, bind_special, split_bind-escape}
use kanibako.Settings.Expand.{expand_expr}
use kanibako.Settings.Expand.Total.{LookupEnds, expand_expr-Ends}
use kanibako.Settings.Expand.Literal.{quote, expand_expr-quote}
use kanibako.Settings.Precedence.{resolve_value, NotSetIn, resolve_value-set}
use kanibako.Settings.Keys.{match_share}
use kanibako.Settings.Collect.{collect, collect-Ends}
use kanibako.Settings.Shares.{
  ShareKey, Entry, source_of, mount_of, share_at, share_of, resolve_shares, root_of, group_of,
  options_of,
}

module _ {P : Type 0} (path_of : Text → P) (join : P → Text → P) (levels : List LevelView)
    (ctx : ResolveCtx) (find : Lookup) (scope_roots : Option (Dict Text Text)) where
  abbrev contributes : Text → Outcome (Option (Entry path_of join levels ctx find scope_roots))
  contributes = share_of path_of join levels ctx find scope_roots

  share_of_match :
      (key : Text) {groups : ShareKey}
      → match_share key ≡ some groups
      → contributes key
        ≡ share_at path_of join levels ctx find scope_roots key groups (resolve_value key levels)
  unfolding share_of
  share_of_match key m = rw (m, share_of)

  share_of_value :
      (key : Text) (groups : ShareKey) (rv : ResolvedValue)
      → match_share key ≡ some groups
      → resolve_value key levels ≡ some rv
      → contributes key ≡ (
          if rv.terminal
          then returned none
          else mount_of path_of join levels ctx find scope_roots key groups rv.value
              (split_bind rv.value))
  unfolding share_at
  share_of_value key groups rv m v =
      share_of_match key m ∙ ap (share_at path_of join levels ctx find scope_roots key groups) v

  mount_of-ne-none :
      (key : Text) (groups : ShareKey) (value : Text) (halves : Text × Option Text)
      → mount_of path_of join levels ctx find scope_roots key groups value halves ≢ returned none
  unfolding mount_of
  mount_of-ne-none key (scope, mode, name) value (h, none) e = cc
  mount_of-ne-none key (scope, mode, name) value (h, some g) e =
      let (a, _, p) = bind-returned (expand_expr ctx find [] host h) _ e in
      let (b, _, q) = bind-returned (expand_expr ctx find [] guest g) _ p in
      let (c, _, r) =
        bind-returned
          (source_of path_of join levels ctx find scope_roots
            (root_of scope_roots (group_of scope mode)) a)
          _ q in
      cc r

  -- A key that matches and has a value contributes no mount exactly when the value is terminal.
  pub share_of-none_iff :
      (key : Text) (groups : ShareKey) (rv : ResolvedValue)
      → match_share key ≡ some groups
      → resolve_value key levels ≡ some rv
      → (contributes key ≡ returned none) ↔ (rv.terminal ≡ true)
  share_of-none_iff key groups rv m v =
      rw (share_of_value key groups rv m v)
        (split rv.terminal (mount_of-ne-none key groups rv.value (split_bind rv.value)))
    where
      split :
          (b : Bool) {o : Outcome (Option (Entry path_of join levels ctx find scope_roots))}
          → o ≢ returned none
          → ((if b then returned none else o) ≡ returned none) ↔ (b ≡ true)
      split true ne = (λ _. refl, λ _. refl)
      split false ne = (λ e. absurd (ne e), λ e. cc)

append_cons-ne-nil : (xs : Text) (c : ℕ) (ys : Text) → xs ++ c ∷ ys ≢ []
append_cons-ne-nil [] c ys e = cc
append_cons-ne-nil (x ∷ xs) c ys e = cc

-- Such a bind holds a colon.
bind_ne_nil : (a b : Text) → ((escape bind_special a ++ b':' ∷ escape bind_special b) == []) ≡ false
bind_ne_nil a b =
    ground (arith, append_cons-ne-nil (escape bind_special a) b':' (escape bind_special b))

module _ {P : Type 0} (path_of : Text → P) (join : P → Text → P) (ctx : ResolveCtx) (find : Lookup)
    (scope_roots : Option (Dict Text Text)) where
  -- An explicit "" suppresses a share of any scope at the first level that sets the key: the levels
  -- behind it may set the key and any level may declare a default.
  pub share_of-suppressed :
      (key : Text) (groups : ShareKey) (before : List LevelView) (level : LevelView)
      (after : List LevelView)
      → match_share key ≡ some groups
      → NotSetIn key before
      → lookup key level.values ≡ some []
      → share_of path_of join (before ++ level ∷ after) ctx find scope_roots key ≡ returned none
  unfolding text_eq
  share_of-suppressed key groups before level after m h found =
      share_of_value path_of join (before ++ level ∷ after) ctx find scope_roots key groups _ m
        (resolve_value-set key before level after [] h found)

  -- A bind of two literal texts, written with the escapes of an expression and then with those of a
  -- bind, mounts the first text at the second: under the scope's root if there is one and the text
  -- is relative, and with the options of the key's mode.
  share_of-literal :
      (key : Text) (groups : ShareKey) (before : List LevelView) (level : LevelView)
      (after : List LevelView) (src dest : Text) (source : P)
      → match_share key ≡ some groups
      → NotSetIn key before
      → lookup key level.values
        ≡ some (escape bind_special (quote src) ++ b':' ∷ escape bind_special (quote dest))
      → source_of path_of join
          (before ++ level ∷ after)
          ctx
          find
          scope_roots
          (root_of scope_roots (group_of groups.0 groups.1))
          src
        ≡ returned source
      → share_of path_of join (before ++ level ∷ after) ctx find scope_roots key
        ≡ returned (
            some (
              groups,
              record { source = source; destination = dest; options = options_of groups.1 },
            ))
  unfolding mount_of
  share_of-literal key (scope, mode, name) before level after src dest source m h found rooted =
      share_of_value path_of join (before ++ level ∷ after) ctx find scope_roots key _ _ m
        (resolve_value-set key before level after _ h found)
      ∙ rw (bind_ne_nil (quote src) (quote dest), (split_bind-escape (quote src) (quote dest)).0)
          (rw (
            expand_expr-quote ctx find [] host src,
            expand_expr-quote ctx find [] guest dest,
            rooted,
          ))

module _ {P : Type 0} (path_of : Text → P) (join : P → Text → P) (levels : List LevelView)
    (ctx : ResolveCtx) (find : Lookup) (scope_roots : Option (Dict Text Text)) where
  module _ (ends : LookupEnds ctx find []) where
    source_of-Ends :
        (root : Option Text) (host_src : Text)
        → Ends (source_of path_of join levels ctx find scope_roots root host_src)
    unfolding source_of
    source_of-Ends none host_src = tt
    source_of-Ends (some root) host_src = Ends-if (starts_with host_src (text "/")) _ _ tt (
        Ends-bind (expand_expr ctx find [] host root) _
          (expand_expr-Ends ctx find [] ends host root) (λ r _. tt))

    mount_of-Ends :
        (key : Text) (groups : ShareKey) (value : Text) (halves : Text × Option Text)
        → Ends (mount_of path_of join levels ctx find scope_roots key groups value halves)
    unfolding mount_of
    mount_of-Ends key groups value (h, none) = tt
    mount_of-Ends key (scope, mode, name) value (h, some g) =
        Ends-bind (expand_expr ctx find [] host h) _ (expand_expr-Ends ctx find [] ends host h)
          λ a _.
            Ends-bind (expand_expr ctx find [] guest g) _
              (expand_expr-Ends ctx find [] ends guest g)
              λ b _.
                Ends-bind
                  (source_of path_of join levels ctx find scope_roots
                    (root_of scope_roots (group_of scope mode)) a)
                  _ (source_of-Ends _ a) (λ c _. tt)

    share_at-Ends :
        (key : Text) (groups : ShareKey) (o : Option ResolvedValue)
        → Ends (share_at path_of join levels ctx find scope_roots key groups o)
    unfolding share_at
    share_at-Ends key groups none = tt
    share_at-Ends key groups (some rv) =
        Ends-if rv.terminal _ _ tt (mount_of-Ends key groups rv.value (split_bind rv.value))

    share_of-Ends : (key : Text) → Ends (share_of path_of join levels ctx find scope_roots key)
    unfolding share_of
    share_of-Ends key = elim (Option-cases (match_share key)) [
      | inl e ↦ rw (e, share_of) tt
      | inr (groups, e) ↦
          rw (share_of_match path_of join levels ctx find scope_roots key e)
            (share_at-Ends key groups (resolve_value key levels))
    ]

  -- If the callback ends on every reference, then the resolution ends: it returns mounts or raises.
  resolve_shares-Ends :
      (iterate : List Text → List Text)
      → LookupEnds ctx find []
      → Ends (resolve_shares path_of join levels ctx find scope_roots iterate)
  unfolding resolve_shares
  resolve_shares-Ends iterate ends =
      Ends-bind (collect _ _) _ (collect-Ends _ (share_of-Ends ends) _) (λ mounts _. tt)
