-- ===== src/Prelude/Decimal.antt =====
-- `str(n)` of a number, and the decimal that `int(s)` reads back.
use Prim.Native.Nat.{ℕ, zero, suc, ◌+◌, ◌-◌, ◌*◌, ◌/◌, ◌%◌, ◌<◌}
use mathlib.Core.Path.{◌≡◌, refl, sym, ap, ◌∙◌}
use mathlib.Core.List.{[], ◌∷◌, ◌++◌}
use native.Mathlib.Omega.{arith}
use kanibako.Prelude.Tests.{ltb, if◌then◌else◌}
use kanibako.Prelude.Equality.{Text}

-- The fuel bounds the number of digits; a number has fewer digits than its value plus one.
unfoldable pub digits : ℕ → ℕ → Text
digits zero n = []
digits (suc fuel) n =
    let high = digits fuel (n / 10) in
    if ltb n 10 then (b'0' + n) ∷ [] else high ++ (b'0' + n % 10) ∷ []

unfoldable pub decimal : ℕ → Text
unfolding digits
decimal n = digits (n + 1) n

-- The number that digits written after those of `n` make.
value_from : ℕ → Text → ℕ
value_from n [] = n
value_from n (c ∷ s) = value_from (n * 10 + (c - b'0')) s

value_from-append :
    (n : ℕ) (s : Text) (c : ℕ) → value_from n (s ++ c ∷ []) ≡ value_from n s * 10 + (c - b'0')
unfolding value_from
value_from-append n [] c = refl
value_from-append n (d ∷ s) c = value_from-append (n * 10 + (d - b'0')) s c

value_from-digits : (fuel n : ℕ) → n < fuel → value_from 0 (digits fuel n) ≡ n
unfolding digits value_from
value_from-digits zero n h = absurd (omega arith)
value_from-digits (suc fuel) n h = ground (
  arith,
  value_from-append 0 (digits fuel (n / 10)) (b'0' + n % 10),
  value_from-digits fuel (n / 10),
)

-- Different numbers have different decimals.
pub decimal_injective : (m n : ℕ) → decimal m ≡ decimal n → m ≡ n
unfolding decimal
decimal_injective m n e =
    sym (value_from-digits (m + 1) m (omega arith))
    ∙ ap (value_from 0) e
    ∙ value_from-digits (n + 1) n (omega arith)

-- Only the text of 0 is without a digit that counts, and no text is empty.
pub decimal-nil : (n : ℕ) → decimal n ≡ [] → n ≡ 0
unfolding decimal value_from
decimal-nil n e = sym (value_from-digits (n + 1) n (omega arith)) ∙ ap (value_from 0) e
