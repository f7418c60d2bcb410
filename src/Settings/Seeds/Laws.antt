-- ===== src/Settings/Seeds/Laws.antt =====
-- What the resolution of seeds returns.
use mathlib.Core.Path.{subst}
use mathlib.Core.List.{Perm}
use kanibako.Prelude.{
  ℕ, ◌≡◌, ◌≢◌, ◌↔◌, ◌⊎◌, inl, inr, refl, ap, sym, ◌∙◌, Bool, true, false, Option, none, some, List,
  [], arith, Text, ◌==◌, nat_eq, text_eq, if◌then◌else◌, Option-cases,
}
use kanibako.Prelude.Sort.{sort, sort-perm, sort-IsSorted, IsSorted, text_leb_total, text_leb_trans}
use kanibako.Settings.Types.{
  Outcome, returned, ◌>>=◌, bind-returned, Ends, Ends-bind, Ends-if, host, guest, ResolveCtx,
  LevelView, ResolvedValue, Lookup,
}
use kanibako.Settings.Escape.{split_bind}
use kanibako.Settings.Expand.{expand_expr}
use kanibako.Settings.Expand.Total.{LookupEnds, expand_expr-Ends}
use kanibako.Settings.Precedence.{resolve_value}
use kanibako.Settings.Keys.{Scope, match_seed, is_seed_key, discover, apply_order}
use kanibako.Settings.Collect.{collect, Collected, collect-Collected, collect-Ends}
use kanibako.Settings.Seeds.{
  SeedPair, tuple_leb, seed_leb, disable_sentinel, pair_of, seed_at, seed_of, resolve_seeds,
}

tuple_total : (k k' : ℕ × Text) → tuple_leb k k' ≡ false → tuple_leb k' k ≡ true
unfolding tuple_leb
tuple_total (s, n) (s', n') h = ground (arith, text_leb_total n n')

tuple_trans :
    (k k' k'' : ℕ × Text) → tuple_leb k k' ≡ true → tuple_leb k' k'' ≡ true → tuple_leb k k'' ≡ true
unfolding tuple_leb
tuple_trans (a, n) (b, n') (c, n'') h k = ground (arith, text_leb_trans n n' n'')

seed_key : SeedPair → ℕ × Text
seed_key p = (apply_order p.scope, p.name)

seed_leb_lem : (p q : SeedPair) → seed_leb p q ≡ tuple_leb (seed_key p) (seed_key q)
unfolding seed_leb seed_key
seed_leb_lem p q = refl

seed_total : (p q : SeedPair) → seed_leb p q ≡ false → seed_leb q p ≡ true
seed_total p q h = seed_leb_lem q p ∙ tuple_total _ _ (sym (seed_leb_lem p q) ∙ h)

seed_trans : (p q r : SeedPair) → seed_leb p q ≡ true → seed_leb q r ≡ true → seed_leb p r ≡ true
seed_trans p q r h k =
    seed_leb_lem p r
    ∙ tuple_trans _ (seed_key q) _ (sym (seed_leb_lem p q) ∙ h) (sym (seed_leb_lem q r) ∙ k)

module _ (levels : List LevelView) (ctx : ResolveCtx) (find : Lookup) where
  resolve_seeds_lem :
      (iterate : List Text → List Text)
      → resolve_seeds levels ctx find iterate ≡ (do
        pairs ← collect (seed_of levels ctx find) (iterate (discover is_seed_key levels []))
        returned (sort seed_leb pairs))
  unfolding resolve_seeds
  resolve_seeds_lem iterate = refl

  -- When the resolution returns pairs, they are one for each discovered key that adds one, permuted
  -- into ascending order of (scope, name), where the scopes are ordered system, crab, workset, box.
  resolve_seeds-IsSorted :
      (iterate : List Text → List Text) (pairs : List SeedPair)
      → resolve_seeds levels ctx find iterate ≡ returned pairs
      → (collected : List SeedPair) × Collected
          (seed_of levels ctx find)
          (iterate (discover is_seed_key levels []))
          collected
        × Perm pairs collected
        × IsSorted seed_leb pairs
  resolve_seeds-IsSorted iterate pairs h =
      let (collected, p, e) =
        bind-returned (collect (seed_of levels ctx find) (iterate (discover is_seed_key levels [])))
          _ (sym (resolve_seeds_lem iterate) ∙ h) in
      let whole : sort seed_leb collected ≡ pairs = cc e in
      (
        collected,
        collect-Collected _ _ collected p,
        subst (λ l. Perm l collected) whole (sort-perm seed_leb collected),
        subst (IsSorted seed_leb) whole (sort-IsSorted seed_leb seed_total seed_trans collected),
      )

  seed_of_value :
      (key : Text) (groups : Scope × Text) (rv : ResolvedValue)
      → match_seed key ≡ some groups
      → resolve_value key levels ≡ some rv
      → seed_of levels ctx find key ≡ seed_at levels ctx find key groups (some rv)
  unfolding seed_of
  seed_of_value key groups rv m v = rw (m, seed_of) (ap (seed_at levels ctx find key groups) v)

  pair_of-ne-none :
      (key : Text) (groups : Scope × Text) (value : Text) (halves : Text × Option Text)
      → pair_of levels ctx find key groups value halves ≢ returned none
  unfolding pair_of
  pair_of-ne-none key (scope, name) value (h, none) e = cc
  pair_of-ne-none key (scope, name) value (h, some g) e =
      let (a, _, p) = bind-returned (expand_expr ctx find [] host h) _ e in
      let (b, _, q) = bind-returned (expand_expr ctx find [] guest g) _ p in cc q

  -- A key that matches and has a value adds no pair exactly when the value is terminal or is the
  -- sentinel "empty".
  seed_of-none_iff :
      (key : Text) (groups : Scope × Text) (rv : ResolvedValue)
      → match_seed key ≡ some groups
      → resolve_value key levels ≡ some rv
      → (seed_of levels ctx find key ≡ returned none)
        ↔ ((rv.terminal ≡ true) ⊎ (rv.value ≡ disable_sentinel))
  unfolding seed_at
  seed_of-none_iff key groups rv m v =
      rw (seed_of_value key groups rv m v)
        (split rv.terminal (pair_of-ne-none key groups rv.value (split_bind rv.value)))
    where
      split :
          (b : Bool) {o : Outcome (Option SeedPair)}
          → o ≢ returned none
          → ((if b
                then returned none
                else if rv.value == disable_sentinel
                then returned none
                else o)
              ≡ returned none)
            ↔ ((b ≡ true) ⊎ (rv.value ≡ disable_sentinel))
      split true ne = (λ _. inl refl, λ _. refl)
      split false ne = (λ e. ground arith, λ e. ground arith)

  module _ (ends : LookupEnds ctx find []) where
    pair_of-Ends :
        (key : Text) (groups : Scope × Text) (value : Text) (halves : Text × Option Text)
        → Ends (pair_of levels ctx find key groups value halves)
    unfolding pair_of
    pair_of-Ends key groups value (h, none) = tt
    pair_of-Ends key (scope, name) value (h, some g) =
        Ends-bind (expand_expr ctx find [] host h) _ (expand_expr-Ends ctx find [] ends host h)
          λ a _.
            Ends-bind (expand_expr ctx find [] guest g) _
              (expand_expr-Ends ctx find [] ends guest g) (λ b _. tt)

    seed_at-Ends :
        (key : Text) (groups : Scope × Text) (o : Option ResolvedValue)
        → Ends (seed_at levels ctx find key groups o)
    unfolding seed_at
    seed_at-Ends key groups none = tt
    seed_at-Ends key groups (some rv) = Ends-if rv.terminal _ _ tt (
        Ends-if (rv.value == disable_sentinel) _ _ tt
          (pair_of-Ends key groups rv.value (split_bind rv.value)))

    seed_of-Ends : (key : Text) → Ends (seed_of levels ctx find key)
    unfolding seed_of
    seed_of-Ends key = elim (Option-cases (match_seed key)) [
      | inl e ↦ rw (e, seed_of) tt
      | inr (groups, e) ↦ rw (e, seed_of) (seed_at-Ends key groups (resolve_value key levels))
    ]

    -- If the callback ends on every reference, then the resolution ends: it returns pairs or raises.
    pub resolve_seeds-Ends :
        (iterate : List Text → List Text) → Ends (resolve_seeds levels ctx find iterate)
    resolve_seeds-Ends iterate = rw (resolve_seeds_lem iterate) (
        Ends-bind (collect (seed_of levels ctx find) _) _ (collect-Ends _ seed_of-Ends _)
          (λ pairs _. tt))
