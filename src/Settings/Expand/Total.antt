-- ===== src/Settings/Expand/Total.antt =====
-- The scan of `expand_expr` ends within its fuel.
use mathlib.Core.Path.{subst}
use kanibako.Prelude.{
  ℕ, zero, suc, ◌≤◌, ◌<◌, ◌≡◌, refl, Bool, true, false, Option, none, some, List, [], ◌∷◌, ◌++◌,
  length, arith, Text, text, ◌==◌, contains, nat_eq, text_eq, inl, inr, if◌then◌else◌, Bool-cases,
  leb,
}
use kanibako.Prelude.Dict.{lookup}
use kanibako.Prelude.Strings.{starts_with}
use kanibako.Settings.Types.{
  Outcome, returned, raised, out_of_fuel, ◌>>=◌, Ends, Ends-bind, Ends-if, Space, ResolveCtx,
  Lookup, max_ref_depth,
}
use kanibako.Settings.Escape.{backslash}
use kanibako.Settings.Expand.{
  word_run, match_var, ref_run, match_ref, set_or_raise, resolve_var, close_brace, plain_name,
  var_name, expand_var, checked_lookup, ref_found, expand_ref, escaped, segment, scan, expand_expr,
}

-- The call ends, and what it leaves is no longer than `s`.
abbrev pub Advances : Text → Outcome (Text × Text) → Type 0
Advances s (returned (seg, rest)) = length rest ≤ length s
Advances s (raised e) = Unit
Advances s out_of_fuel = ⊥

length-word_run : (s : Text) → length (word_run s).1 ≤ length s
unfolding word_run
length-word_run [] = omega arith
length-word_run (c ∷ s) = ground (arith, length-word_run s)

length-ref_run : (s : Text) → length (ref_run s).1 ≤ length s
unfolding ref_run
length-ref_run [] = omega arith
length-ref_run (c ∷ []) = ground arith
length-ref_run (c ∷ d ∷ s) = ground (arith, length-ref_run (d ∷ s))

length-match_var : (s name rest : Text) → match_var s ≡ some (name, rest) → length rest ≤ length s
unfolding match_var
length-match_var [] name rest h = cc
length-match_var (c ∷ s) name rest h = ground (arith, length-word_run s)

length-match_ref : (s name rest : Text) → match_ref s ≡ some (name, rest) → length rest ≤ length s
unfolding match_ref
length-match_ref [] name rest h = cc
length-match_ref (c ∷ s) name rest h = ground (arith, length-ref_run (c ∷ s))

plain_name-Advances :
    (expr s : Text) (o : Option (Text × Text))
    → ((name rest : Text) → o ≡ some (name, rest) → length rest ≤ length s)
    → Advances s (plain_name expr o)
unfolding plain_name
plain_name-Advances expr s none h = tt
plain_name-Advances expr s (some (name, rest)) h = h name rest refl

close_brace-Advances :
    (expr s : Text) (m : Outcome (Text × Text)) → Advances s m → Advances s (m >>= close_brace expr)
unfolding close_brace
close_brace-Advances expr s (returned (name, [])) h = tt
close_brace-Advances expr s (returned (name, c ∷ rest)) h = elim (Bool-cases (c == b'}')) [
  | inl e ↦ rw e (omega arith)
  | inr e ↦ rw e tt
]
close_brace-Advances expr s (raised e) h = tt
close_brace-Advances expr s out_of_fuel h = elim h [ ]

Advances-cons : (c : ℕ) (s : Text) (m : Outcome (Text × Text)) → Advances s m → Advances (c ∷ s) m
Advances-cons c s (returned (seg, rest)) h = omega arith
Advances-cons c s (raised e) h = tt
Advances-cons c s out_of_fuel h = elim h [ ]

Advances-if :
    (b : Bool) (s : Text) (m n : Outcome (Text × Text))
    → Advances s m
    → Advances s n
    → Advances s (if b then m else n)
Advances-if true s m n h k = h
Advances-if false s m n h k = k

var_name-Advances : (expr s : Text) → Advances s (var_name expr s)
unfolding var_name
var_name-Advances expr [] = tt
var_name-Advances expr (c ∷ s) =
    Advances-if (c == b'{') (c ∷ s) _ _
      (Advances-cons c s _ (
        close_brace-Advances expr s (plain_name expr (match_var s))
          (plain_name-Advances expr s (match_var s) (length-match_var s))))
      (plain_name-Advances expr (c ∷ s) (match_var (c ∷ s)) (length-match_var (c ∷ s)))

Advances-Ends : (s : Text) (m : Outcome (Text × Text)) → Advances s m → Ends m
Advances-Ends s (returned m) h = tt
Advances-Ends s (raised e) h = tt
Advances-Ends s out_of_fuel h = h

-- The value is put in the place of the name.
Advances-bind :
    (s : Text) (m : Outcome (Text × Text)) (f : Text → Outcome Text)
    → Advances s m
    → ((name : Text) → Ends (f name))
    → Advances s (do (name, rest) ← m; value ← f name; returned (value, rest))
Advances-bind s (returned (name, rest)) f h k = put (f name) (k name)
  where
    put : (v : Outcome Text) → Ends v → Advances s (do value ← v; returned (value, rest))
    put (returned value) e = h
    put (raised x) e = tt
    put out_of_fuel e = elim e [ ]
Advances-bind s (raised e) f h k = tt
Advances-bind s out_of_fuel f h k = elim h [ ]

set_or_raise-Ends : (name : Text) (o : Option Text) → Ends (set_or_raise name o)
unfolding set_or_raise
set_or_raise-Ends name none = tt
set_or_raise-Ends name (some v) = tt

resolve_var-Ends : (name : Text) (ctx : ResolveCtx) → Ends (resolve_var name ctx)
unfolding resolve_var
resolve_var-Ends name ctx =
    Ends-if (name == text "CRAB") _ _ (set_or_raise-Ends name ctx.crab_name) (
      Ends-if (name == text "WORKSET") _ _ (set_or_raise-Ends name ctx.workset_name) (
        Ends-if (starts_with name (text "XDG_")) _ _ (set_or_raise-Ends name (lookup name ctx.xdg))
          tt))

expand_var-Advances : (s : Text) (ctx : ResolveCtx) → Advances s (expand_var s ctx)
unfolding expand_var
expand_var-Advances s ctx =
    Advances-bind s (var_name (b'$' ∷ s) s) (λ name. resolve_var name ctx)
      (var_name-Advances (b'$' ∷ s) s) (λ name. resolve_var-Ends name ctx)

module _ (ctx : ResolveCtx) (find : Lookup) (chain : List Text) where
  -- The callback ends where the guard lets it be called.
  abbrev pub LookupEnds : Type 0
  LookupEnds =
      (name : Text)
      → contains chain name ≡ false
      → length chain < max_ref_depth
      → Ends (find name (chain ++ name ∷ []))

  module _ (ends : LookupEnds) where
    checked_lookup-Ends : (name : Text) → Ends (checked_lookup find chain name)
    unfolding checked_lookup
    checked_lookup-Ends name = elim (Bool-cases (contains chain name)) [
      | inl e ↦ rw e tt
      | inr e ↦ elim (Bool-cases (leb max_ref_depth (length chain))) [
        | inl f ↦ rw (e, f) tt
        | inr f ↦ rw (e, f) (ends name e (ground arith))
      ]
    ]

    ref_found-Advances :
        (s : Text) (o : Option (Text × Text))
        → ((name rest : Text) → o ≡ some (name, rest) → length rest ≤ length s)
        → Advances s (ref_found s find chain o)
    unfolding ref_found
    ref_found-Advances s none h = tt
    ref_found-Advances s (some (name, rest)) h =
        Advances-bind s (returned (name, rest)) (checked_lookup find chain) (h name rest refl)
          checked_lookup-Ends

    expand_ref-Advances : (s : Text) → Advances s (expand_ref s find chain)
    unfolding expand_ref
    expand_ref-Advances s = ref_found-Advances s (match_ref s) (length-match_ref s)

    escaped-Advances : (s : Text) → Advances s (returned (escaped s))
    unfolding escaped
    escaped-Advances [] = omega arith
    escaped-Advances (d ∷ s) = omega arith

    segment-Advances : (c : ℕ) (s : Text) → Advances s (segment ctx find chain c s)
    unfolding segment
    segment-Advances c s = Advances-if (c == backslash) s _ _ (escaped-Advances s) (
        Advances-if (c == b'$') s _ _ (expand_var-Advances s ctx)
          (Advances-if (c == b'@') s _ _ (expand_ref-Advances s) (omega arith)))

    fits :
        (s : Text) (m : Text × Text) (fuel : ℕ)
        → length s < suc fuel
        → Advances s (returned m)
        → length m.1 ≤ fuel
    fits s m fuel h k = omega arith

    scan-Ends : (fuel : ℕ) (s : Text) → length s ≤ fuel → Ends (scan ctx find chain fuel s)
    unfolding scan
    scan-Ends fuel [] h = tt
    scan-Ends zero (c ∷ s) h = absurd (omega arith)
    scan-Ends (suc fuel) (c ∷ s) h =
        Ends-bind (segment ctx find chain c s) _ (Advances-Ends s _ (segment-Advances c s)) λ m e.
          Ends-bind (scan ctx find chain fuel m.1) _
            (scan-Ends fuel m.1 (fits s m fuel h (subst (Advances s) e (segment-Advances c s))))
            (λ tail _. tt)

    -- If the callback ends wherever the cycle guard and the depth cap let it be called, then the
    -- scan ends within its fuel, for every expression and in both spaces.
    pub expand_expr-Ends :
        (space : Space) (expr : Text) → Ends (expand_expr ctx find chain space expr)
    unfolding expand_expr
    expand_expr-Ends space [] = tt
    expand_expr-Ends space (c ∷ s) =
        Ends-if (c == b'~') _ _
          (Ends-bind (scan ctx find chain (length s) s) _ (scan-Ends (length s) s (omega arith))
            (λ tail _. tt))
          (scan-Ends (length (c ∷ s)) (c ∷ s) (omega arith))
