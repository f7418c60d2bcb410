-- ===== src/Helpers/Budget.antt =====
-- The spawn budget of src/kanibako/helpers.py, and what a chain of permitted spawns can reach.
use kanibako.Prelude.{
  ℕ, suc, ◌-◌, ◌≤◌, ◌<◌, ◌≡◌, ◌≢◌, ◌↔◌, ◌⊎◌, refl, false, ◌&&◌, not, Option, none, some, All, List,
  [], ◌∷◌, length, arith, if◌then◌else◌,
}
use kanibako.Prelude.Int.{ℤ, pos, negsuc, ◌-ℤ◌, leb_ℤ, eqb_ℤ}

abbrev pub default_depth : ℤ
default_depth = pos 4

abbrev pub default_breadth : ℤ
default_breadth = pos 4

pub record SpawnBudget : Type 0 where
  pub depth : ℤ
  pub breadth : ℤ

-- The two messages.
pub data Refusal : Type 0 where
  depth_exhausted : Refusal
  breadth_reached : ℕ → ℤ → Refusal

unfoldable pub check_spawn_allowed : SpawnBudget → ℕ → Option Refusal
check_spawn_allowed budget current_children =
    if eqb_ℤ budget.depth (pos 0)
    then some depth_exhausted
    else if not (eqb_ℤ budget.breadth (negsuc 0)) && leb_ℤ budget.breadth (pos current_children)
    then some (breadth_reached current_children budget.breadth)
    else none

unfoldable pub child_budget : SpawnBudget → SpawnBudget
child_budget parent = record {
  depth = if eqb_ℤ parent.depth (negsuc 0) then parent.depth else parent.depth -ℤ pos 1;
  breadth = parent.breadth;
}

abbrev default_to : Option ℤ → ℤ → ℤ
default_to none d = d
default_to (some v) d = v

unfoldable pub resolve_spawn_budget :
    Option SpawnBudget → Option SpawnBudget → Option ℤ → Option ℤ → SpawnBudget
resolve_spawn_budget (some ro) host_config cli_depth cli_breadth = ro
resolve_spawn_budget none (some host) cli_depth cli_breadth = host
resolve_spawn_budget none none cli_depth cli_breadth = record {
  depth = default_to cli_depth default_depth;
  breadth = default_to cli_breadth default_breadth;
}

-- A chain of helpers, each spawned by the one before it while that had so many children.
pub data Spawned (root : SpawnBudget) : List ℕ → SpawnBudget → Type 0 where
  here : Spawned root [] root
  spawn :
      {counts : List ℕ} {b : SpawnBudget} (children : ℕ)
      → Spawned root counts b
      → check_spawn_allowed b children ≡ none
      → Spawned root (children ∷ counts) (child_budget b)

-- A spawn is permitted exactly when the depth is not 0 and the breadth is unlimited or above the
-- number of children that there are.
check_spawn_allowed_iff :
    (budget : SpawnBudget) (children : ℕ)
    → (check_spawn_allowed budget children ≡ none) ↔ (
        (budget.depth ≢ pos 0)
        × ((budget.breadth ≡ negsuc 0) ⊎ (leb_ℤ budget.breadth (pos children) ≡ false)))
unfolding check_spawn_allowed
check_spawn_allowed_iff budget children = (λ h. (ground arith, ground arith), λ h. ground arith)

step_depth :
    (b : SpawnBudget) (d k c : ℕ)
    → check_spawn_allowed b c ≡ none
    → (k ≤ d) × (b.depth ≡ pos (d - k))
    → (suc k ≤ d) × ((child_budget b).depth ≡ pos (d - suc k))
unfolding check_spawn_allowed child_budget
step_depth b d k c h e = ground arith

step_breadth :
    (b : SpawnBudget) (w c : ℕ) → check_spawn_allowed b c ≡ none → b.breadth ≡ pos w → c < w
unfolding check_spawn_allowed
step_breadth b w c h e = ground arith

-- Below an agent with a limited depth `d`, a chain of permitted spawns has at most `d` members, and
-- the budget at its end has what is left of the depth and the breadth of the root: no helper in it
-- becomes unlimited.
pub Spawned-bounded :
    (root : SpawnBudget) (d : ℕ) {counts : List ℕ} {b : SpawnBudget}
    → root.depth ≡ pos d
    → Spawned root counts b
    → (length counts ≤ d) × (b.depth ≡ pos (d - length counts)) × (b.breadth ≡ root.breadth)
unfolding child_budget
Spawned-bounded root d e here = (omega arith, ground arith, refl)
Spawned-bounded root d e (spawn {counts = cs} {b = c} n chain allowed) =
    let (l, k, w) = Spawned-bounded root d e chain in
    let (l', k') = step_depth c d (length cs) n allowed (l, k) in (l', k', w)

-- Below an agent with a limited breadth `w`, each helper of a chain of permitted spawns was spawned
-- while its parent had fewer than `w` children.
Spawned-below_breadth :
    (root : SpawnBudget) (w : ℕ) {counts : List ℕ} {b : SpawnBudget}
    → root.breadth ≡ pos w
    → Spawned root counts b
    → All (λ n. n < w) counts × (b.breadth ≡ pos w)
unfolding child_budget
Spawned-below_breadth root w e here = (tt, e)
Spawned-below_breadth root w e (spawn {b = c} n chain allowed) =
    let (below, k) = Spawned-below_breadth root w e chain in
    ((step_breadth c w n allowed k, below), k)
