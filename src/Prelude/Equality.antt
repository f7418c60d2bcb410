-- ===== src/Prelude/Equality.antt =====
-- Python's `==` and `in`, for every type whose equality can be decided. A text is the list of its
-- code points.
use Prim.Native.Nat.{ℕ}
use Prim.Native.Char.{code}
use Prim.Native.String.{String}
use mathlib.Core.Path.{refl, ap₂}
use mathlib.Core.Logic.{ite, dite}
use mathlib.Core.Bool.{Bool, true, false, ◌||◌}
use mathlib.Core.List.{List, [], ◌∷◌, head-eq_of_cons-eq, tail-eq_of_cons-eq}
use native.Mathlib.Decide.{ℕ_discrete}

abbrev pub Text : Type 0
Text = List ℕ

abbrev pub text : String → Text
text String.[] = []
text (String.◌∷◌ c s) = code c ∷ text s

pub record Eq {ℓ} (A : Type ℓ) : Type ℓ where
  pub dec : Discrete A

module _ {ℓ} {A : Type ℓ} ⦃e : Eq A⦄ where
  infix 50 ◌==◌
  abbrev pub ◌==◌ : A → A → Bool
  a == b = ite (e.dec a b) true false

  abbrev pub contains : List A → A → Bool
  contains [] a = false
  contains (x ∷ xs) a = a == x || contains xs a

list_dec : Discrete Text
list_dec [] [] = yes refl
list_dec [] (y ∷ ys) = no (λ p. cc)
list_dec (x ∷ xs) [] = no (λ p. cc)
list_dec (x ∷ xs) (y ∷ ys) =
    let rest = list_dec xs ys in
    dite (ℕ_discrete x y)
      (λ p.
        dite rest (λ q. yes (ap₂ {C = Text} (λ a l. a ∷ l) p q))
          (λ n. no (λ r. n (tail-eq_of_cons-eq r))))
      (λ n. no (λ r. n (head-eq_of_cons-eq r)))

instance abbrev pub nat_eq : Eq ℕ
nat_eq = record { dec = ℕ_discrete }

-- Shut in proofs, where a split on `s == t` yields the equation or its negation.
instance unfoldable pub text_eq : Eq Text
unfolding list_dec ℕ_discrete
text_eq = record { dec = list_dec }
