-- ===== src/Settings/Expand/Guard.antt =====
-- The cycle guard and the depth cap of `_expand_ref`: which calls of the callback can matter.
use mathlib.Core.Path.{fun_ext}
use kanibako.Prelude.{
  ℕ, zero, suc, ◌<◌, ◌≡◌, refl, ap, false, Option, none, some, List, [], ◌∷◌, ◌++◌, length, arith,
  Text, inl, inr, contains, text_eq, Bool-cases, leb,
}
use kanibako.Settings.Types.{Outcome, returned, ◌>>=◌, Space, ResolveCtx, Lookup, max_ref_depth}
use kanibako.Settings.Expand.{
  match_ref, checked_lookup, ref_found, expand_ref, segment, scan, expand_expr,
}

-- Two callbacks that agree on the calls that extend `chain` by a name which is not in it, while the
-- chain is below the cap.
abbrev pub AgreeBeyond : Lookup → Lookup → List Text → Type 0
AgreeBeyond find find' chain =
    (name : Text)
    → contains chain name ≡ false
    → length chain < max_ref_depth
    → find name (chain ++ name ∷ []) ≡ find' name (chain ++ name ∷ [])

module _ (ctx : ResolveCtx) (find find' : Lookup) (chain : List Text)
    (agree : AgreeBeyond find find' chain) where
  checked_lookup_agree :
      (name : Text) → checked_lookup find chain name ≡ checked_lookup find' chain name
  unfolding checked_lookup
  checked_lookup_agree name = elim (Bool-cases (contains chain name)) [
    | inl e ↦ rw e
    | inr e ↦ elim (Bool-cases (leb max_ref_depth (length chain))) [
      | inl f ↦ rw (e, f)
      | inr f ↦ rw (e, f) (agree name e (ground arith))
    ]
  ]

  ref_found_agree :
      (s : Text) (o : Option (Text × Text)) → ref_found s find chain o ≡ ref_found s find' chain o
  unfolding ref_found
  ref_found_agree s none = refl
  ref_found_agree s (some (name, rest)) = rw (checked_lookup_agree name)

  segment_agree : (c : ℕ) (s : Text) → segment ctx find chain c s ≡ segment ctx find' chain c s
  unfolding segment expand_ref
  segment_agree c s = rw (ref_found_agree s (match_ref s))

  scan_agree : (fuel : ℕ) (s : Text) → scan ctx find chain fuel s ≡ scan ctx find' chain fuel s
  unfolding scan
  scan_agree fuel [] = refl
  scan_agree zero (c ∷ s) = refl
  scan_agree (suc fuel) (c ∷ s) = rw (segment_agree c s) (
      ap
        (λ (g : Text → Outcome Text). do
          (seg, rest) ← segment ctx find' chain c s
          tail ← g rest
          returned (seg ++ tail))
        (fun_ext (scan_agree fuel)))

  -- An expansion calls its callback only with a chain extended by a name that is not in it, and
  -- only while the chain is shorter than the depth cap: two callbacks that agree on those calls
  -- give one result, whatever they do on others.
  pub expand_expr_agree :
      (space : Space) (expr : Text)
      → expand_expr ctx find chain space expr ≡ expand_expr ctx find' chain space expr
  unfolding expand_expr
  expand_expr_agree space [] = refl
  expand_expr_agree space (c ∷ s) =
      rw (scan_agree (length s) s, scan_agree (length (c ∷ s)) (c ∷ s))
