-- ===== src/Helpers/Depth.antt =====
-- The loop of `agent_depth` in src/kanibako/helpers.py. The loop takes fuel; the agent's number plus
-- one is enough, because a parent has a smaller number than its child.
use native.Mathlib.Nat.{div-le_self}
use kanibako.Prelude.{
  ℕ, zero, suc, ◌+◌, ◌-◌, ◌*◌, ◌/◌, ◌≤◌, ◌<◌, ◌≡◌, ap, ◌∙◌, Option, none, some, Result, ok, err,
  arith, ◌==◌, nat_eq, if◌then◌else◌,
}
use kanibako.Prelude.Int.{ℤ, pos}
use kanibako.Helpers.Tree.{
  HelperError, none_arithmetic, effective_breadth, parent_of, nth_child, parent_of_pos,
  nth_child_below, div_of_parts,
}

-- `none` means that the fuel ran out. A parent that is `None` is not 0, so the next round would do
-- arithmetic on it.
depth_loop : ℕ → ℕ → ℤ → ℕ → Option (Result HelperError ℕ)
depth_loop zero current breadth depth = none
depth_loop (suc fuel) current breadth depth =
    let next : Option (Result HelperError ℕ) = elim (parent_of current breadth) [
      | err e ↦ some (err e)
      | ok none ↦ some (err none_arithmetic)
      | ok (some p) ↦ depth_loop fuel p breadth (depth + 1)
    ] in
    if current == 0 then some (ok depth) else next

unfoldable pub agent_depth : ℕ → ℤ → Option (Result HelperError ℕ)
unfolding depth_loop
agent_depth agent breadth = depth_loop (agent + 1) agent breadth 0

sub_suc : (k : ℕ) → suc k - 1 ≡ k
sub_suc k = omega arith

module _ (breadth : ℤ) (b : ℕ) (valid : effective_breadth breadth ≡ ok b) where
  -- The depth by its defining equations, on fuel.
  depth_on : ℕ → ℕ → ℕ
  depth_on zero agent = 0
  depth_on (suc fuel) agent =
      let rest = depth_on fuel ((agent - 1) / b) in if agent == 0 then 0 else rest + 1

  parent-lt : (agent : ℕ) → 0 < agent → (agent - 1) / b < agent
  parent-lt agent h = omega (arith, div-le_self (agent - 1) b)

  depth_loop-depth_on :
      (fuel agent depth : ℕ)
      → agent < fuel
      → depth_loop fuel agent breadth depth ≡ some (ok (depth + depth_on fuel agent))
  unfolding depth_loop depth_on
  depth_loop-depth_on zero agent depth h = absurd (omega arith)
  depth_loop-depth_on (suc fuel) zero depth h = ground arith
  depth_loop-depth_on (suc fuel) (suc a) depth h =
      rw (parent_of_pos breadth b valid (suc a) (omega arith))
        (ground (arith, depth_loop-depth_on fuel ((suc a - 1) / b) (depth + 1), parent-lt (suc a)))

  depth_on_fuel : (f g agent : ℕ) → agent < f → agent < g → depth_on f agent ≡ depth_on g agent
  unfolding depth_on
  depth_on_fuel zero g agent h k = absurd (omega arith)
  depth_on_fuel (suc f) zero agent h k = absurd (omega arith)
  depth_on_fuel (suc f) (suc g) zero h k = ground arith
  depth_on_fuel (suc f) (suc g) (suc a) h k =
      ground (arith, depth_on_fuel f g ((suc a - 1) / b), parent-lt (suc a))

  depth_on-le : (fuel agent : ℕ) → depth_on fuel agent ≤ agent
  unfolding depth_on
  depth_on-le zero agent = omega arith
  depth_on-le (suc fuel) zero = ground arith
  depth_on-le (suc fuel) (suc a) =
      ground (arith, depth_on-le fuel ((suc a - 1) / b), parent-lt (suc a))

  -- Under a breadth that is accepted the loop ends for every agent, with a depth that is at most
  -- the agent's number.
  agent_depth-le : (agent : ℕ) → (d : ℕ) × (agent_depth agent breadth ≡ some (ok d)) × (d ≤ agent)
  unfolding agent_depth
  agent_depth-le agent = (
    depth_on (agent + 1) agent,
    depth_loop-depth_on (agent + 1) agent 0 (omega arith) ∙ ground arith,
    depth_on-le (agent + 1) agent,
  )

  depth_on-child :
      (agent n fuel : ℕ)
      → n < b
      → agent < fuel
      → depth_on (suc fuel) (suc (agent * b + n)) ≡ depth_on (agent + 1) agent + 1
  unfolding depth_on
  depth_on-child agent n fuel h k =
      let e : (suc (agent * b + n) - 1) / b ≡ agent = rw sub_suc (div_of_parts agent n b h) in
      rw e (ground (arith, depth_on_fuel fuel (agent + 1) agent))

  agent_depth_below :
      (agent n d child : ℕ)
      → n < b
      → nth_child agent (pos n) breadth ≡ ok child
      → agent_depth agent breadth ≡ some (ok d)
      → agent_depth child breadth ≡ some (ok (d + 1))
  unfolding agent_depth
  agent_depth_below agent n d child below c h =
      let e : child ≡ suc (agent * b + n) =
        ground (arith, nth_child_below breadth b valid agent n below) in
      let k : agent < child =
        ground (arith, parent-lt child, div_of_parts agent n b below, sub_suc (agent * b + n)) in
      let f : depth_on (child + 1) child ≡ depth_on (agent + 1) agent + 1 =
        depth_on_fuel (child + 1) (suc child) child (omega arith) (omega arith)
        ∙ ap (λ k. depth_on (suc child) k) e
        ∙ depth_on-child agent n child below k in
      ground (
        arith,
        depth_loop-depth_on (agent + 1) agent 0 (omega arith),
        depth_loop-depth_on (child + 1) child 0 (omega arith),
        h,
        f,
      )

  -- Under a breadth that is accepted as `b` and for an index `n` below `b`: the agent and the child
  -- that `nth_child` numbers both have a depth, and that of the child is one more.
  pub agent_depth-nth_child :
      (agent n : ℕ)
      → n < b
      → (d child : ℕ) × (nth_child agent (pos n) breadth ≡ ok child)
        × (agent_depth agent breadth ≡ some (ok d))
        × (agent_depth child breadth ≡ some (ok (d + 1)))
  agent_depth-nth_child agent n below =
      let (d, h, _) = agent_depth-le agent in
      let c = nth_child_below breadth b valid agent n below in
      (d, agent * b + 1 + n, c, h, agent_depth_below agent n d (agent * b + 1 + n) below c h)
