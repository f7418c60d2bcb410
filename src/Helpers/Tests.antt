-- ===== src/Helpers/Tests.antt =====
-- Runs of the functions of src/kanibako/helpers.py, and the theorems at concrete inputs.
use kanibako.Prelude.{
  Option, text_eq, Text, text, ℕ, ◌+◌, ◌-◌, ◌*◌, ◌≤◌, ◌≡◌, ◌≢◌, refl, false, none, some, [], ◌∷◌,
  ok, err, arith, length, ℕ_discrete,
}
use kanibako.Documents.Table.{Value, other, table, Table, end, entry, get}
use kanibako.Documents.Files.{Yaml, Faithful, load_doc}
use kanibako.Helpers.SpawnConfig.{
  Integers, read_spawn_config, write_spawn_config, read_spawn_config-write_spawn_config,
}
use kanibako.Prelude.Int.{ℤ, pos, negsuc}
use kanibako.Helpers.Tree.{
  effective_breadth, children_of, parent_of, nth_child, sibling_index, bad_index, bad_breadth,
  parent_of-nth_child,
}
use kanibako.Helpers.Depth.{agent_depth, agent_depth-nth_child}
use kanibako.Helpers.Budget.{
  SpawnBudget, check_spawn_allowed, child_budget, Spawned, here, spawn, Spawned-bounded,
  depth_exhausted,
}

abbrev four : ℤ
four = pos 4

four_valid : effective_breadth four ≡ ok 4
unfolding effective_breadth
four_valid = refl

depth_of_nine : agent_depth 9 four ≡ some (ok 2)
unfolding agent_depth parent_of effective_breadth ℕ_discrete
depth_of_nine = refl

index_error : nth_child 2 (pos 4) four ≡ err (bad_index (pos 4) 4)
unfolding nth_child effective_breadth
index_error = refl

breadth_error : children_of 0 (negsuc 1) ≡ err (bad_breadth (negsuc 1))
unfolding children_of effective_breadth
breadth_error = refl

parent_of-nth_child_example :
    (nth_child 2 (pos 1) four ≡ ok (2 * 4 + 1 + 1))
    × (parent_of (2 * 4 + 1 + 1) four ≡ ok (some 2))
    × (sibling_index (2 * 4 + 1 + 1) four ≡ ok 1)
parent_of-nth_child_example = parent_of-nth_child four 4 four_valid 2 1 (omega arith)

agent_depth-nth_child_example :
    (d child : ℕ) × (nth_child 2 (pos 1) four ≡ ok child)
    × (agent_depth 2 four ≡ some (ok d))
    × (agent_depth child four ≡ some (ok (d + 1)))
agent_depth-nth_child_example = agent_depth-nth_child four 4 four_valid 2 1 (omega arith)

children_of_two : children_of 2 four ≡ ok (9, 12)
unfolding children_of effective_breadth
children_of_two = refl

second_child : nth_child 9 (pos 1) four ≡ ok 38
unfolding nth_child effective_breadth
second_child = refl

abbrev root : SpawnBudget
root = record { depth = pos 2; breadth = pos 3 }

spawn_allowed : check_spawn_allowed root 1 ≡ none
unfolding check_spawn_allowed ℕ_discrete
spawn_allowed = refl

child_allowed : check_spawn_allowed (child_budget root) 0 ≡ none
unfolding check_spawn_allowed child_budget ℕ_discrete
child_allowed = refl

grandchild_refused : check_spawn_allowed (child_budget (child_budget root)) 0 ≡ some depth_exhausted
unfolding check_spawn_allowed child_budget ℕ_discrete
grandchild_refused = refl

chain : Spawned root (0 ∷ 1 ∷ []) (child_budget (child_budget root))
chain = spawn 0 (spawn 1 here spawn_allowed) child_allowed

Spawned-bounded_example :
    (length {A = ℕ} (0 ∷ 1 ∷ []) ≤ 2)
    × ((child_budget (child_budget root)).depth ≡ pos (2 - length {A = ℕ} (0 ∷ 1 ∷ [])))
    × ((child_budget (child_budget root)).breadth ≡ root.breadth)
Spawned-bounded_example = Spawned-bounded root 2 refl chain

-- A library whose files hold the mappings themselves, with integers as the other values.
abbrev plain_yaml : Yaml (Table ℤ) ℤ
plain_yaml = record { safe_load = λ d. some d; safe_dump = λ d. d }

plain_yaml-Faithful : Faithful plain_yaml
plain_yaml-Faithful = record { load-dump = λ d. refl }

abbrev int_of : Value ℤ → Option ℤ
int_of (other n) = some n
int_of v = none

abbrev ints : Integers ℤ
ints = record { is_null = λ n. false; int_of = int_of; of_int = λ n. n; int_of-of_int = λ n. refl }

abbrev config_file : Option (Table ℤ)
config_file = some (
    entry (text "box") (table end)
      (entry (text "spawn") (table (entry (text "depth") (other (pos 9)) end)) end))

abbrev two_by_three : SpawnBudget
two_by_three = record { depth = pos 2; breadth = pos 3 }

read_spawn_config-write_spawn_config_example :
    (read_spawn_config plain_yaml ints (write_spawn_config plain_yaml ints config_file two_by_three)
      ≡ ok (some two_by_three))
    × ((key : Text)
        → key ≢ text "spawn"
        → get key
            (load_doc plain_yaml (write_spawn_config plain_yaml ints config_file two_by_three))
          ≡ get key (load_doc plain_yaml config_file))
read_spawn_config-write_spawn_config_example =
    read_spawn_config-write_spawn_config plain_yaml ints plain_yaml-Faithful config_file
      two_by_three
