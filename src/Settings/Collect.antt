-- ===== src/Settings/Collect.antt =====
-- The loop that `resolve_shares` and `resolve_seeds` have in common: each key adds at most one entry,
-- and the first error ends the loop.
use mathlib.Core.Path.{subst}
use kanibako.Prelude.{◌≡◌, Option, none, some, List, [], ◌∷◌}
use kanibako.Settings.Types.{Outcome, returned, ◌>>=◌, Ends, Ends-bind, bind-returned}

module _ {K E : Type 0} (entry : K → Outcome (Option E)) where
  abbrev add : Option E → List E → List E
  add none es = es
  add (some e) es = e ∷ es

  unfoldable pub collect : List K → Outcome (List E)
  collect [] = returned []
  collect (k ∷ ks) = do found ← entry k; rest ← collect ks; returned (add found rest)

  -- The entries are those of the keys, in the keys' order, where a key without an entry is passed
  -- over.
  pub data Collected : List K → List E → Type 0 where
    done : Collected [] []
    skip :
        {ks : List K} {es : List E} (k : K)
        → entry k ≡ returned none
        → Collected ks es
        → Collected (k ∷ ks) es
    keep :
        {ks : List K} {es : List E} (k : K) (e : E)
        → entry k ≡ returned (some e)
        → Collected ks es
        → Collected (k ∷ ks) (e ∷ es)

  extend :
      (k : K) (found : Option E) {ks : List K} {rest : List E}
      → entry k ≡ returned found
      → Collected ks rest
      → Collected (k ∷ ks) (add found rest)
  extend k none p c = skip k p c
  extend k (some e) p c = keep k e p c

  pub collect-Collected : (ks : List K) (es : List E) → collect ks ≡ returned es → Collected ks es
  unfolding collect
  collect-Collected [] [] h = done
  collect-Collected [] (e ∷ es) h = cc
  collect-Collected (k ∷ ks) es h =
      let (found, p, q) = bind-returned (entry k) _ h in
      let (rest, r, e) = bind-returned (collect ks) _ q in
      let whole : add found rest ≡ es = cc e in
      subst (Collected (k ∷ ks)) whole (extend k found p (collect-Collected ks rest r))

  pub collect-Ends : ((k : K) → Ends (entry k)) → (ks : List K) → Ends (collect ks)
  unfolding collect
  collect-Ends h [] = tt
  collect-Ends h (k ∷ ks) =
      Ends-bind (entry k) _ (h k)
        (λ found _. Ends-bind (collect ks) _ (collect-Ends h ks) (λ rest _. tt))
