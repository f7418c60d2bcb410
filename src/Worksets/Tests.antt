-- ===== src/Worksets/Tests.antt =====
-- Worksets, and the theorems at them.
use kanibako.Prelude.{
  ◌≡◌, refl, ap, Bool, true, false, none, some, List, [], ◌∷◌, ◌++◌, Text, text, text_eq,
  ℕ_discrete, Result, ok, err,
}
use kanibako.Prelude.Dict.{lookup, insert, has}
use kanibako.Documents.Table.{Value, flag, word, other, table, Table, end, entry}
use kanibako.Documents.Files.{Yaml, Faithful}
use kanibako.Names.Document.{projects, load}
use kanibako.Names.Registry.{already_registered}
use kanibako.Worksets.Root.{
  Trees, WorksetError, name_error, Workset, Sequences, Disk, file_at, load_workset_toml,
  write_workset_toml, truth,
}
use kanibako.Worksets.Registry.{World, create_workset, load_registry}
use kanibako.Worksets.Projects.{add_project, remove_project}
use kanibako.Worksets.RoundTrip.{
  SequencesFaithful, Loadable, load_workset_toml-write_workset_toml, remove_project-add_project,
}
use kanibako.Worksets.Reloaded.{PathLaws}
use kanibako.Worksets.InStep.{InStep, Reachable, fresh, then_step, created, Reachable-InStep}
use kanibako.Worksets.OutOfStep.{Alone, create_workset-InStep}

-- YAML values with lists.
mutual
  data Node : Type 0 where
    a_flag : Bool → Node
    a_word : Text → Node
    a_list : Nodes → Node
    a_table : Pairs → Node

  data Nodes : Type 0 where
    none_left : Nodes
    one_more : Node → Nodes → Nodes

  data Pairs : Type 0 where
    no_pairs : Pairs
    pair : Text → Node → Pairs → Pairs

mutual
  to_node : Value Nodes → Node
  to_node (flag b) = a_flag b
  to_node (word t) = a_word t
  to_node (other vs) = a_list vs
  to_node (table d) = a_table (to_pairs d)

  to_pairs : Table Nodes → Pairs
  to_pairs end = no_pairs
  to_pairs (entry k v d) = pair k (to_node v) (to_pairs d)

mutual
  of_node : Node → Value Nodes
  of_node (a_flag b) = flag b
  of_node (a_word t) = word t
  of_node (a_list vs) = other vs
  of_node (a_table d) = table (of_pairs d)

  of_pairs : Pairs → Table Nodes
  of_pairs no_pairs = end
  of_pairs (pair k v d) = entry k (of_node v) (of_pairs d)

mutual
  unfolding to_node of_node

  of_node-to_node : (v : Value Nodes) → of_node (to_node v) ≡ v
  of_node-to_node (flag b) = refl
  of_node-to_node (word t) = refl
  of_node-to_node (other vs) = refl
  of_node-to_node (table d) = ap table (of_pairs-to_pairs d)

  of_pairs-to_pairs : (d : Table Nodes) → of_pairs (to_pairs d) ≡ d
  of_pairs-to_pairs end = refl
  of_pairs-to_pairs (entry k v d) = λ i. entry k (of_node-to_node v i) (of_pairs-to_pairs d i)

abbrev to_nodes : List (Value Nodes) → Nodes
to_nodes [] = none_left
to_nodes (v ∷ vs) = one_more (to_node v) (to_nodes vs)

abbrev of_nodes : Nodes → List (Value Nodes)
of_nodes none_left = []
of_nodes (one_more n ns) = of_node n ∷ of_nodes ns

of_nodes-to_nodes : (vs : List (Value Nodes)) → of_nodes (to_nodes vs) ≡ vs
of_nodes-to_nodes [] = refl
of_nodes-to_nodes (v ∷ vs) = λ i. of_node-to_node v i ∷ of_nodes-to_nodes vs i

abbrev plain : Yaml (Table Nodes) Nodes
plain = record { safe_load = λ d. some d; safe_dump = λ d. d }

plain-Faithful : Faithful plain
plain-Faithful = record { load-dump = λ d. refl }

abbrev sequences : Sequences Nodes
sequences = record { list_of = λ v. some (of_nodes v); of_list = to_nodes; is_truthy = λ v. true }

sequences-Faithful : SequencesFaithful sequences
sequences-Faithful = record { list-of = λ vs. ap some (of_nodes-to_nodes vs) }

abbrev same : Text → Text
same t = t

inverse : (t : Text) → same (same t) ≡ t
inverse t = refl

same-PathLaws : PathLaws same same
same-PathLaws = record { path_of-resolve = λ s. refl }

abbrev home : Text
home = text "/home/me"

abbrev team : Workset Nodes
team = record {
  workset_name = word (text "team");
  root = text "/w/team";
  created = word (text "2026");
  members = record { project_name = word (text "app"); source_path = text "/src/app" } ∷ [];
  shares_auth = true;
  is_default = false;
}

team-Loadable : Loadable plain plain-Faithful sequences sequences-Faithful same team
unfolding truth text_eq ℕ_discrete
team-Loadable = (refl, (refl, tt), refl)

load_workset_toml-write_workset_toml_example :
    load_workset_toml sequences same plain
      (text "/w/team")
      (file_at (text "/w/team") (write_workset_toml sequences plain team []))
    ≡ ok team
load_workset_toml-write_workset_toml_example =
    load_workset_toml-write_workset_toml plain plain-Faithful sequences sequences-Faithful same team
      [] team-Loadable

-- A file system that makes no directories and removes none.
abbrev trees : Trees (Table Nodes)
trees = record {
  join = λ p s. p ++ (text "/" ++ s);
  has_dir = λ p disk. true;
  mkdir = λ p disk. (disk, none);
  rmtree = λ p disk. (disk, none);
}

abbrev grown_team : Workset Nodes
grown_team = record team {
  members =
      record { project_name = word (text "app"); source_path = text "/src/app" }
      ∷ record { project_name = word (text "lib"); source_path = text "/src/lib" }
      ∷ [];
}

abbrev grown_disk : Disk (Table Nodes)
grown_disk = (add_project plain sequences same same trees team (text "lib") (text "/src/lib") []).0

is_grown :
    add_project plain sequences same same trees team (text "lib") (text "/src/lib") []
    ≡ (grown_disk, grown_team, none)
unfolding add_project text_eq ℕ_discrete
is_grown = refl

remove_project-add_project_example :
    (disk'' : Disk (Table Nodes)) × (remove_project plain sequences same same trees grown_team
        (text "lib")
        true
        grown_disk
      ≡ (disk'', team, none))
    × (load_workset_toml sequences same plain (text "/w/team") (file_at (text "/w/team") disk'')
        ≡ ok team)
remove_project-add_project_example =
    remove_project-add_project plain plain-Faithful sequences sequences-Faithful same same trees
      team grown_team (text "lib") (text "/src/lib") true [] grown_disk team-Loadable
      (λ e p h disk. (refl, refl)) is_grown

abbrev State : Type 0
State = World (Table Nodes) same same

abbrev first : State
first = record { hints = none; names = none; disk = [] }

abbrev create : State → Text → State × Result WorksetError (Workset Nodes)
create world name =
    create_workset plain sequences same same same same home world name (text "/w/team")
      (text "2026")

abbrev second : State
second = (create first (text "team")).0

abbrev new_team : Workset Nodes
new_team = record team { members = [] }

is_created : create first (text "team") ≡ (second, ok new_team)
unfolding create_workset has lookup insert text_eq ℕ_discrete load
is_created = refl

second-Reachable :
    Reachable plain plain-Faithful sequences same same inverse same same same-PathLaws home second
second-Reachable =
    then_step (fresh []) (created (text "team") (text "/w/team") (text "2026") new_team is_created)

Reachable-InStep_example :
    InStep plain plain-Faithful sequences same same inverse same same same-PathLaws home second
Reachable-InStep_example =
    Reachable-InStep plain plain-Faithful sequences same same inverse same same same-PathLaws home
      second-Reachable

-- A project has the name of the new workset.
abbrev with_project : State
with_project = record first {
  names = some ((text "projects", (text "team", text "/p") ∷ []) ∷ (text "worksets", []) ∷ []);
}

with_project-InStep :
    InStep plain plain-Faithful sequences same same inverse same same same-PathLaws home
      with_project
unfolding load_registry load lookup text_eq ℕ_discrete
with_project-InStep = ([], refl, λ n. refl, λ n. refl)

is_refused : create with_project (text "team") ≡ (
  (create with_project (text "team")).0,
  err (name_error (already_registered (text "team") projects (text "/p"))),
)
unfolding create_workset has lookup insert text_eq ℕ_discrete load
is_refused = refl

create_workset-InStep_example :
    Alone plain plain-Faithful sequences same same inverse same same same-PathLaws home with_project
      (text "team")
      (text "/w/team")
      (create with_project (text "team")).0
    × (¬ InStep plain plain-Faithful sequences same same inverse same same same-PathLaws home
        (create with_project (text "team")).0)
create_workset-InStep_example =
    create_workset-InStep plain plain-Faithful sequences same same inverse same same same-PathLaws
      home with_project (create with_project (text "team")).0 (text "team") (text "/w/team")
      (text "2026") (already_registered (text "team") projects (text "/p")) with_project-InStep
      is_refused
