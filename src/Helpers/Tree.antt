-- ===== src/Helpers/Tree.antt =====
-- The numbering functions of src/kanibako/helpers.py, and that they number a tree.
use kanibako.Prelude.{
  ℕ, zero, suc, ◌+◌, ◌-◌, ◌*◌, ◌/◌, ◌%◌, ◌≤◌, ◌<◌, ◌≡◌, ◌↔◌, Option, none, some, Result, ok, err,
  ◌>>=◌, arith, ◌==◌, nat_eq, if◌then◌else◌, ◌||◌, ap, ◌∙◌,
}
use native.Mathlib.Nat.{
  add_comm, mul-add-div_right, div-eq_of_lt, add-mul-mod_self_right, mod-eq_of_lt, mod-lt,
  div-add-mod', div-mul-le_self, lt-div-mul-add, div-eq_of_lt-le,
}
use kanibako.Prelude.Int.{ℤ, pos, negsuc, pos_part, ltb_ℤ, leb_ℤ}

-- The exceptions: `ValueError` of a breadth and of a child index, and the `TypeError` of arithmetic
-- on `None`.
pub data HelperError : Type 0 where
  bad_breadth : ℤ → HelperError
  bad_index : ℤ → ℕ → HelperError
  none_arithmetic : HelperError

abbrev pub unlimited_breadth : ℕ
unlimited_breadth = 65536

unfoldable pub effective_breadth : ℤ → Result HelperError ℕ
effective_breadth (negsuc zero) = ok unlimited_breadth
effective_breadth (negsuc (suc n)) = err (bad_breadth (negsuc (suc n)))
effective_breadth (pos zero) = err (bad_breadth (pos zero))
effective_breadth (pos (suc b)) = ok (suc b)

unfoldable pub children_of : ℕ → ℤ → Result HelperError (ℕ × ℕ)
children_of agent breadth = do b ← effective_breadth breadth; ok (agent * b + 1, agent * b + b)

unfoldable pub parent_of : ℕ → ℤ → Result HelperError (Option ℕ)
parent_of agent breadth =
    if agent == 0 then ok none else do b ← effective_breadth breadth; ok (some ((agent - 1) / b))

unfoldable pub nth_child : ℕ → ℤ → ℤ → Result HelperError ℕ
nth_child agent n breadth = do
  b ← effective_breadth breadth
  if ltb_ℤ n (pos 0) || leb_ℤ (pos b) n
      then err (bad_index n b)
      else ok (agent * b + 1 + pos_part n)

unfoldable pub sibling_index : ℕ → ℤ → Result HelperError ℕ
sibling_index agent breadth =
    if agent == 0 then ok 0 else do b ← effective_breadth breadth; ok ((agent - 1) % b)

-- A breadth that is accepted numbers at least one child.
pub effective_breadth_pos : (breadth : ℤ) (b : ℕ) → effective_breadth breadth ≡ ok b → 0 < b
unfolding effective_breadth
effective_breadth_pos (negsuc zero) b h = ground arith
effective_breadth_pos (negsuc (suc n)) b h = cc
effective_breadth_pos (pos zero) b h = cc
effective_breadth_pos (pos (suc n)) b h = ground arith

pub div_of_parts : (a n b : ℕ) → n < b → (a * b + n) / b ≡ a
div_of_parts a n b h =
    let p : 0 < b = omega arith in rw (mul-add-div_right p, div-eq_of_lt h) (omega arith)

mod_of_parts : (a n b : ℕ) → n < b → (a * b + n) % b ≡ n
mod_of_parts a n b h = rw (add_comm, add-mul-mod_self_right) (mod-eq_of_lt h)

-- The code subtracts 1 again.
sub_one_of_parts : (a n b : ℕ) → a * b + 1 + n - 1 ≡ a * b + n
sub_one_of_parts a n b = omega arith

module _ (breadth : ℤ) (b : ℕ) (valid : effective_breadth breadth ≡ ok b) where
  pub parent_of_pos :
      (agent : ℕ) → 0 < agent → parent_of agent breadth ≡ ok (some ((agent - 1) / b))
  unfolding parent_of
  parent_of_pos agent h = rw valid (ground arith)

  sibling_index_pos : (agent : ℕ) → 0 < agent → sibling_index agent breadth ≡ ok ((agent - 1) % b)
  unfolding sibling_index
  sibling_index_pos agent h = rw valid (ground arith)

  pub nth_child_below :
      (agent n : ℕ) → n < b → nth_child agent (pos n) breadth ≡ ok (agent * b + 1 + n)
  unfolding nth_child
  nth_child_below agent n h = rw valid (ground arith)

  -- For a breadth that is accepted as `b` and an index `n` below `b`, `nth_child` gives the number
  -- `agent * b + 1 + n`, and `parent_of` and `sibling_index` take that number apart into `agent`
  -- and `n`.
  pub parent_of-nth_child :
      (agent n : ℕ)
      → n < b
      → (nth_child agent (pos n) breadth ≡ ok (agent * b + 1 + n))
        × (parent_of (agent * b + 1 + n) breadth ≡ ok (some agent))
        × (sibling_index (agent * b + 1 + n) breadth ≡ ok n)
  parent_of-nth_child agent n h = (
    nth_child_below agent n h,
    parent_of_pos _ (omega arith)
        ∙ ap (λ k. ok (some (k / b))) (sub_one_of_parts agent n b)
        ∙ ap (λ k. ok (some k)) (div_of_parts agent n b h),
    sibling_index_pos _ (omega arith)
        ∙ ap (λ k. ok (k % b)) (sub_one_of_parts agent n b)
        ∙ ap ok (mod_of_parts agent n b h),
  )

  -- Under a breadth that is accepted, every agent but the director is the child, at its sibling
  -- index, of its parent, and that index is below the breadth.
  nth_child-parent_of :
      (agent : ℕ)
      → 0 < agent
      → (p n : ℕ) × (parent_of agent breadth ≡ ok (some p))
        × (sibling_index agent breadth ≡ ok n)
        × (n < b)
        × (nth_child p (pos n) breadth ≡ ok agent)
  nth_child-parent_of agent h =
      let below : (agent - 1) % b < b = mod-lt _ (effective_breadth_pos breadth b valid) in
      (
        (agent - 1) / b,
        (agent - 1) % b,
        parent_of_pos agent h,
        sibling_index_pos agent h,
        below,
        nth_child_below _ _ below ∙ ap ok (omega (arith, div-add-mod' (agent - 1) b)),
      )

  children_of_bounds :
      (agent first last : ℕ)
      → children_of agent breadth ≡ ok (first, last)
      → (first ≡ agent * b + 1) × (last ≡ agent * b + b)
  unfolding children_of
  children_of_bounds agent first last h = ground arith

  quotient_bounds : (agent k : ℕ) → k / b ≡ agent → (agent * b ≤ k) × (k < agent * b + b)
  quotient_bounds agent k e =
      let positive : 0 < b = effective_breadth_pos breadth b valid in
      rw (← e) (omega (arith, div-mul-le_self k b, lt-div-mul-add {a = k} positive))

  quotient_of_bounds : (agent k : ℕ) → agent * b ≤ k → k < agent * b + b → k / b ≡ agent
  quotient_of_bounds agent k l u = div-eq_of_lt-le b l (omega arith)

  -- Under a breadth that is accepted, an agent's parent is `agent` exactly when its number lies
  -- between the two bounds that `children_of` returns, both included.
  children_of_iff :
      (agent child first last : ℕ)
      → children_of agent breadth ≡ ok (first, last)
      → (parent_of child breadth ≡ ok (some agent)) ↔ ((first ≤ child) × (child ≤ last))
  unfolding parent_of
  children_of_iff agent zero first last h =
      let (f, l) = children_of_bounds agent first last h in
      (λ p. ground arith, λ q. absurd (omega arith))
  children_of_iff agent (suc c) first last h =
      let (f, l) = children_of_bounds agent first last h in
      let p : parent_of (suc c) breadth ≡ ok (some ((suc c - 1) / b)) =
        parent_of_pos (suc c) (omega arith) in
      (
        λ q. omega (arith, quotient_bounds agent (suc c - 1) (cc (p, q))),
        λ q.
            p
            ∙ ap (λ k. ok (some k))
                (quotient_of_bounds agent (suc c - 1) (omega arith) (omega arith)),
      )
