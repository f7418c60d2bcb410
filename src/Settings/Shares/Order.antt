-- ===== src/Settings/Shares/Order.antt =====
-- The order of the mounts, and that each comes from one key.
use mathlib.Core.List.{Perm}
use kanibako.Prelude.{
  ℕ, ◌∙◌, ◌≡◌, refl, sym, Bool, true, false, Option, List, [], ◌∷◌, ◌⊎◌, inl, inr, ltb, All, map,
  arith, Text, text_eq,
}
use kanibako.Prelude.Dict.{Dict}
use kanibako.Prelude.Sort.{
  sort, sort-perm, sort-IsSorted, IsSorted, text_leb, text_leb_total, text_leb_trans,
}
use kanibako.Settings.Types.{returned, bind-returned, ResolveCtx, LevelView, Lookup}
use kanibako.Settings.Keys.{
  Scope, system, crab, workset, box, Mode, ro, rw, is_share_key, discover, apply_order, mode_leb,
}
use kanibako.Settings.Collect.{collect, Collected, collect-Collected}
use kanibako.Settings.Shares.{
  Mount, ShareKey, share_leb, tuple_leb, Entry, share_of, entry_leb, resolve_shares,
}

tuple_total : (k k' : ℕ × Mode × Text) → tuple_leb k k' ≡ false → tuple_leb k' k ≡ true
unfolding tuple_leb mode_leb
tuple_total (s, ro, n) (s', ro, n') h = ground (arith, text_leb_total n n')
tuple_total (s, rw, n) (s', rw, n') h = ground (arith, text_leb_total n n')
tuple_total (s, ro, n) (s', rw, n') h = ground arith
tuple_total (s, rw, n) (s', ro, n') h = ground arith

tuple_trans :
    (k k' k'' : ℕ × Mode × Text)
    → tuple_leb k k' ≡ true
    → tuple_leb k' k'' ≡ true
    → tuple_leb k k'' ≡ true
unfolding tuple_leb mode_leb
tuple_trans (a, ro, n) (b, ro, n') (c, ro, n'') h k = ground (arith, text_leb_trans n n' n'')
tuple_trans (a, ro, n) (b, ro, n') (c, rw, n'') h k = ground arith
tuple_trans (a, ro, n) (b, rw, n') (c, ro, n'') h k = ground arith
tuple_trans (a, ro, n) (b, rw, n') (c, rw, n'') h k = ground arith
tuple_trans (a, rw, n) (b, ro, n') (c, ro, n'') h k = ground arith
tuple_trans (a, rw, n) (b, ro, n') (c, rw, n'') h k = ground arith
tuple_trans (a, rw, n) (b, rw, n') (c, ro, n'') h k = ground arith
tuple_trans (a, rw, n) (b, rw, n') (c, rw, n'') h k = ground (arith, text_leb_trans n n' n'')

key_tuple : ShareKey → ℕ × Mode × Text
key_tuple (s, m, n) = (apply_order s, m, n)

share_leb_lem : (k k' : ShareKey) → share_leb k k' ≡ tuple_leb (key_tuple k) (key_tuple k')
unfolding share_leb key_tuple
share_leb_lem (s, m, n) (s', m', n') = refl

-- The scopes from the outermost to the innermost: system, crab, workset, box.
abbrev pub IsBefore : Scope → Scope → Type 0
IsBefore system system = ⊥
IsBefore system crab = Unit
IsBefore system workset = Unit
IsBefore system box = Unit
IsBefore crab system = ⊥
IsBefore crab crab = ⊥
IsBefore crab workset = Unit
IsBefore crab box = Unit
IsBefore workset system = ⊥
IsBefore workset crab = ⊥
IsBefore workset workset = ⊥
IsBefore workset box = Unit
IsBefore box scope = ⊥

-- An outer scope comes first; within a scope read-only shares; and then the names decide.
abbrev pub InOrder : ShareKey → ShareKey → Type 0
InOrder (s, m, n) (s', m', n') =
    IsBefore s s' ⊎ ((s ≡ s') × (((m ≡ ro) × (m' ≡ rw)) ⊎ ((m ≡ m') × (text_leb n n' ≡ true))))

-- Every two keys of a list, in the order of the list.
abbrev pub Pairwise : {A : Type 0} → (A → ShareKey) → List A → Type 0
Pairwise key [] = Unit
Pairwise key (x ∷ xs) = All (λ y. InOrder (key x) (key y)) xs × Pairwise key xs

mode_order :
    (a : ℕ) (m m' : Mode) (n n' : Text)
    → tuple_leb (a, m, n) (a, m', n') ≡ true
    → ((m ≡ ro) × (m' ≡ rw)) ⊎ ((m ≡ m') × (text_leb n n' ≡ true))
unfolding tuple_leb mode_leb
mode_order a ro ro n n' h = inr (refl, ground arith)
mode_order a ro rw n n' h = inl (refl, refl)
mode_order a rw ro n n' h = ground arith
mode_order a rw rw n n' h = inr (refl, ground arith)

out_of_order :
    (a b : ℕ) (m m' : Mode) (n n' : Text)
    → ltb b a ≡ true
    → tuple_leb (a, m, n) (b, m', n') ≡ true
    → ⊥
unfolding tuple_leb
out_of_order a b m m' n n' h k = ground arith

share_leb-InOrder : (k k' : ShareKey) → share_leb k k' ≡ true → InOrder k k'
unfolding share_leb apply_order
share_leb-InOrder (system, m, n) (system, m', n') h = inr (refl, mode_order 0 m m' n n' h)
share_leb-InOrder (system, m, n) (crab, m', n') h = inl tt
share_leb-InOrder (system, m, n) (workset, m', n') h = inl tt
share_leb-InOrder (system, m, n) (box, m', n') h = inl tt
share_leb-InOrder (crab, m, n) (system, m', n') h = absurd (out_of_order 1 0 m m' n n' refl h)
share_leb-InOrder (crab, m, n) (crab, m', n') h = inr (refl, mode_order 1 m m' n n' h)
share_leb-InOrder (crab, m, n) (workset, m', n') h = inl tt
share_leb-InOrder (crab, m, n) (box, m', n') h = inl tt
share_leb-InOrder (workset, m, n) (system, m', n') h = absurd (out_of_order 2 0 m m' n n' refl h)
share_leb-InOrder (workset, m, n) (crab, m', n') h = absurd (out_of_order 2 1 m m' n n' refl h)
share_leb-InOrder (workset, m, n) (workset, m', n') h = inr (refl, mode_order 2 m m' n n' h)
share_leb-InOrder (workset, m, n) (box, m', n') h = inl tt
share_leb-InOrder (box, m, n) (system, m', n') h = absurd (out_of_order 3 0 m m' n n' refl h)
share_leb-InOrder (box, m, n) (crab, m', n') h = absurd (out_of_order 3 1 m m' n n' refl h)
share_leb-InOrder (box, m, n) (workset, m', n') h = absurd (out_of_order 3 2 m m' n n' refl h)
share_leb-InOrder (box, m, n) (box, m', n') h = inr (refl, mode_order 3 m m' n n' h)

module _ {P : Type 0} (path_of : Text → P) (join : P → Text → P) (levels : List LevelView)
    (ctx : ResolveCtx) (find : Lookup) (scope_roots : Option (Dict Text Text)) where
  abbrev le :
      Entry path_of join levels ctx find scope_roots
      → Entry path_of join levels ctx find scope_roots
      → Bool
  le = entry_leb path_of join levels ctx find scope_roots

  entry_total :
      (x y : Entry path_of join levels ctx find scope_roots) → le x y ≡ false → le y x ≡ true
  unfolding entry_leb
  entry_total (k, _) (k', _) h = share_leb_lem k' k ∙ tuple_total _ _ (sym (share_leb_lem k k') ∙ h)

  entry_trans :
      (x y z : Entry path_of join levels ctx find scope_roots)
      → le x y ≡ true
      → le y z ≡ true
      → le x z ≡ true
  unfolding entry_leb
  entry_trans (k, _) (k', _) (k'', _) h h' =
      share_leb_lem k k''
      ∙ tuple_trans _ (key_tuple k') _ (sym (share_leb_lem k k') ∙ h)
          (sym (share_leb_lem k' k'') ∙ h')

  All-InOrder :
      (x : Entry path_of join levels ctx find scope_roots)
      (ys : List (Entry path_of join levels ctx find scope_roots))
      → All (λ y. le x y ≡ true) ys
      → All (λ y. InOrder (x.0) (y.0)) ys
  unfolding entry_leb
  All-InOrder x [] h = tt
  All-InOrder (k, v) ((k', v') ∷ ys) (h, hs) = (share_leb-InOrder k k' h, All-InOrder (k, v) ys hs)

  IsSorted-Pairwise :
      (xs : List (Entry path_of join levels ctx find scope_roots))
      → IsSorted le xs
      → Pairwise (λ (k, _). k) xs
  IsSorted-Pairwise [] h = tt
  IsSorted-Pairwise ((k, v) ∷ xs) (h, hs) = (All-InOrder (k, v) xs h, IsSorted-Pairwise xs hs)

  -- When the resolution returns mounts, they are the mounts of a list of entries, one for each
  -- discovered key that adds one, permuted so that of every two keys the first one belongs to an
  -- outer scope (system, crab, workset, box, from the outermost), or to the same scope and is
  -- read-only where the other is not, or agrees in both and has the smaller name or the same. The
  -- comparison by which the code sorts says the same.
  pub resolve_shares-IsSorted :
      (iterate : List Text → List Text) (mounts : List (Mount P))
      → resolve_shares path_of join levels ctx find scope_roots iterate ≡ returned mounts
      → (collected sorted : List (Entry path_of join levels ctx find scope_roots)) × Collected
          (share_of path_of join levels ctx find scope_roots)
          (iterate (discover is_share_key levels []))
          collected
        × Perm sorted collected
        × IsSorted le sorted
        × Pairwise (λ (k, _). k) sorted
        × (mounts ≡ map (λ (_, mount). mount) sorted)
  unfolding resolve_shares
  resolve_shares-IsSorted iterate mounts h =
      let (collected, p, e) =
        bind-returned
          (collect (share_of path_of join levels ctx find scope_roots)
            (iterate (discover is_share_key levels [])))
          _ h in
      (
        collected,
        sort le collected,
        collect-Collected _ _ collected p,
        sort-perm le collected,
        sort-IsSorted le entry_total entry_trans collected,
        IsSorted-Pairwise (sort le collected) (sort-IsSorted le entry_total entry_trans collected),
        cc e,
      )
