-- ===== src/Settings/Expand/Literal.antt =====
-- What an expression of escaped text and one reference expands to.
use kanibako.Prelude.{
  ℕ, zero, suc, ◌+◌, ◌-◌, ◌≤◌, ◌<◌, ◌≡◌, ◌≢◌, refl, sym, ap, ◌∙◌, Bool, false, ◌||◌, some, List, [],
  ◌∷◌, ◌++◌, length, length-append, arith, Text, ◌==◌, contains, nat_eq, text_eq, ℕ_discrete,
  append-nil, Bool-cases, inl, inr,
}
use kanibako.Settings.Types.{Outcome, returned, ◌>>=◌, Space, ResolveCtx, Lookup, max_ref_depth}
use kanibako.Settings.Escape.{backslash, escape}
use kanibako.Settings.Expand.{match_ref, expand_ref, segment, scan, expand_expr}

-- The characters that mean something in an expression.
abbrev pub expr_special : ℕ → Bool
expr_special c = c == backslash || c == b'$' || c == b'@' || c == b'~'

abbrev pub quote : Text → Text
quote = escape expr_special

abbrev prepend : Text → Outcome Text → Outcome Text
prepend t m = do tail ← m; returned (t ++ tail)

prepend-prepend :
    (c : ℕ) (t : Text) (m : Outcome Text) → prepend (c ∷ []) (prepend t m) ≡ prepend (c ∷ t) m
prepend-prepend c t m = ground arith

prepend_nil : (m : Outcome Text) → m ≡ prepend [] m
prepend_nil m = ground arith

length-quote : (t : Text) → length t ≤ length (quote t)
unfolding escape
length-quote [] = omega arith
length-quote (c ∷ t) = ground (arith, length-quote t)

module _ (ctx : ResolveCtx) (find : Lookup) (chain : List Text) where
  segment-backslash :
      (c : ℕ) (s : Text) → segment ctx find chain backslash (c ∷ s) ≡ returned (c ∷ [], s)
  unfolding segment ℕ_discrete
  segment-backslash c s = refl

  segment_plain :
      (c : ℕ) (s : Text)
      → expr_special c ≡ false
      → segment ctx find chain c s ≡ returned (c ∷ [], s)
  unfolding segment
  segment_plain c s h = ground arith

  segment_ref : (s : Text) → segment ctx find chain b'@' s ≡ expand_ref s find chain
  unfolding segment ℕ_discrete
  segment_ref s = refl

  scan_step :
      (fuel c : ℕ) (s seg rest : Text)
      → segment ctx find chain c s ≡ returned (seg, rest)
      → scan ctx find chain (suc fuel) (c ∷ s) ≡ prepend seg (scan ctx find chain fuel rest)
  unfolding scan
  scan_step fuel c s seg rest h = rw h

  -- Each character of a quoted text takes one round.
  scan-quote :
      (t r : Text) (fuel k : ℕ)
      → length t + k ≡ fuel
      → scan ctx find chain fuel (quote t ++ r) ≡ prepend t (scan ctx find chain k r)
  unfolding escape
  scan-quote [] r fuel k h = let e : fuel ≡ k = omega arith in rw e (prepend_nil _)
  scan-quote (c ∷ t) r zero k h = absurd (omega arith)
  scan-quote (c ∷ t) r (suc fuel) k h =
      let ih : scan ctx find chain fuel (quote t ++ r) ≡ prepend t (scan ctx find chain k r) =
        scan-quote t r fuel k (omega arith) in
      elim (Bool-cases (expr_special c)) [
        | inl e ↦ rw e (
            scan_step fuel backslash _ _ _ (segment-backslash c (quote t ++ r))
            ∙ ap (prepend (c ∷ [])) ih
            ∙ prepend-prepend c t _)
        | inr e ↦ rw e (
            scan_step fuel c _ _ _ (segment_plain c (quote t ++ r) e)
            ∙ ap (prepend (c ∷ [])) ih
            ∙ prepend-prepend c t _)
      ]

  scan-nil : (fuel : ℕ) → scan ctx find chain fuel [] ≡ returned []
  unfolding scan
  scan-nil fuel = refl

  scan-quote_end :
      (t : Text) (fuel : ℕ) → length t ≤ fuel → scan ctx find chain fuel (quote t) ≡ returned t
  scan-quote_end t fuel h =
      ap (scan ctx find chain fuel) (sym (append-nil (quote t)))
      ∙ scan-quote t [] fuel (fuel - length t) (omega arith)
      ∙ rw scan-nil (ap returned (append-nil t))

  expand_expr_plain :
      (space : Space) (c : ℕ) (s : Text)
      → c ≢ b'~'
      → expand_expr ctx find chain space (c ∷ s) ≡ scan ctx find chain (length (c ∷ s)) (c ∷ s)
  unfolding expand_expr
  expand_expr_plain space c s h = ground arith

  -- A quoted text does not begin with `~`.
  expand_expr-scan :
      (space : Space) (t r : Text)
      → expand_expr ctx find chain space (quote t ++ b'@' ∷ r)
        ≡ scan ctx find chain (length (quote t ++ b'@' ∷ r)) (quote t ++ b'@' ∷ r)
  unfolding escape
  expand_expr-scan space [] r = expand_expr_plain space b'@' r (omega arith)
  expand_expr-scan space (c ∷ t) r = elim (Bool-cases (expr_special c)) [
    | inl e ↦ rw e (expand_expr_plain space backslash _ (omega arith))
    | inr e ↦ rw e (expand_expr_plain space c _ (ground arith))
  ]

  expand_expr-scan_all :
      (space : Space) (t : Text)
      → expand_expr ctx find chain space (quote t)
        ≡ scan ctx find chain (length (quote t)) (quote t)
  unfolding escape expand_expr scan
  expand_expr-scan_all space [] = refl
  expand_expr-scan_all space (c ∷ t) = elim (Bool-cases (expr_special c)) [
    | inl e ↦ rw e (expand_expr_plain space backslash _ (omega arith))
    | inr e ↦ rw e (expand_expr_plain space c _ (ground arith))
  ]

  -- A text written with a backslash before each special character expands to itself, in both
  -- spaces, whatever the context and the callback.
  pub expand_expr-quote :
      (space : Space) (t : Text) → expand_expr ctx find chain space (quote t) ≡ returned t
  expand_expr-quote space t =
      expand_expr-scan_all space t ∙ scan-quote_end t (length (quote t)) (length-quote t)

  ref_step :
      (name rest value : Text)
      → match_ref (name ++ rest) ≡ some (name, rest)
      → contains chain name ≡ false
      → length chain < max_ref_depth
      → find name (chain ++ name ∷ []) ≡ returned value
      → expand_ref (name ++ rest) find chain ≡ returned (value, rest)
  unfolding expand_ref
  ref_step name rest value m fresh below found = rw (m, fresh) (ground (arith, found))

  -- A quoted text, a reference and another quoted text expand to the first text, the value that
  -- the callback returns for the reference, and the second text: the value is not scanned again,
  -- whatever it holds. The conditions are that the name ends where the second text begins, is not in
  -- the chain, and that the chain is below the depth cap.
  expand_expr-quote_ref :
      (space : Space) (t name u value : Text)
      → match_ref (name ++ quote u) ≡ some (name, quote u)
      → contains chain name ≡ false
      → length chain < max_ref_depth
      → find name (chain ++ name ∷ []) ≡ returned value
      → expand_expr ctx find chain space (quote t ++ b'@' ∷ (name ++ quote u))
        ≡ returned (t ++ (value ++ u))
  expand_expr-quote_ref space t name u value m fresh below found =
      expand_expr-scan space t _
      ∙ scan-quote t _ _ (suc k) enough
      ∙ ap (prepend t) (
          scan_step k b'@' _ value (quote u)
            (segment_ref _ ∙ ref_step name (quote u) value m fresh below found)
          ∙ ap (prepend value) (scan-quote_end u k room))
    where
      k : ℕ
      k = length (quote t) - length t + length name + length (quote u)

      enough : length t + suc k ≡ length (quote t ++ b'@' ∷ (name ++ quote u))
      enough = omega (
        arith,
        length-quote t,
        length-append (quote t) (b'@' ∷ (name ++ quote u)),
        length-append name (quote u),
      )

      room : length u ≤ k
      room = omega (arith, length-quote u)
