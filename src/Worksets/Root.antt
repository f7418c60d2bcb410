-- ===== src/Worksets/Root.antt =====
-- `Workset` of src/kanibako/workset.py and its file, workset.yaml at the root. `path_of` is `str(Path(s))`,
-- and `sequences` are the YAML lists.
use kanibako.Prelude.{
  Bool, true, false, not, Option, none, some, List, [], ◌∷◌, Text, text, ◌==◌, text_eq,
  if◌then◌else◌, Result, ok, err, ◌>>=◌, map,
}
use kanibako.Prelude.Dict.{Dict, lookup, insert}
use kanibako.Documents.Table.{Value, flag, word, other, table, Table, end, entry, get, is_empty}
use kanibako.Documents.Files.{Yaml, load_doc, dump_doc}
use kanibako.Names.Registry.{ProjectError}

-- `os_error` is one of the file system, and `malformed` are the `TypeError`, `KeyError` and `AttributeError` of a document of another shape.
pub data WorksetError : Type 0 where
  empty_name : WorksetError
  reserved_name : WorksetError
  workset_registered : Text → Text → WorksetError
  root_exists : Text → WorksetError
  no_workset_file : Text → WorksetError
  nameless : Text → WorksetError
  no_root : Text → WorksetError
  not_registered : Text → WorksetError
  project_exists : Text → WorksetError
  project_not_found : Text → WorksetError
  malformed : WorksetError
  os_error : Text → WorksetError
  name_error : ProjectError → WorksetError

-- Names that were loaded may be any value.
pub record WorksetProject (L : Type 0) : Type 0 where
  pub project_name : Value L
  pub source_path : Text

pub record Workset (L : Type 0) : Type 0 where
  pub workset_name : Value L
  pub root : Text
  pub created : Value L
  pub members : List (WorksetProject L)
  pub shares_auth : Bool
  pub is_default : Bool

-- YAML lists, and Python's truth of the other values.
pub record Sequences (L : Type 0) : Type 0 where
  pub list_of : L → Option (List (Value L))
  pub of_list : List (Value L) → L
  pub is_truthy : L → Bool

-- What is at a path: a directory with its workset.yaml and the directories below it, or `none` for
-- anything else.
pub record Dir (F : Type 0) : Type 0 where
  pub workset_yaml : Option F
  pub folders : List Text

abbrev pub Disk : Type 0 → Type 0
Disk F = Dict Text (Option (Dir F))

-- The file system: `parent / name`, whether a path is a directory, `mkdir` with its parents, and
-- `shutil.rmtree`, which may raise and leave what they did. A name may be any text: `join` says where
-- it leads.
pub record Trees (F : Type 0) : Type 0 where
  pub join : Text → Text → Text
  pub has_dir : Text → Disk F → Bool
  pub mkdir : Text → Disk F → Disk F × Option WorksetError
  pub rmtree : Text → Disk F → Disk F × Option WorksetError

unfoldable pub is_dir : {F : Type 0} → Text → Disk F → Bool
unfolding lookup
is_dir root disk = elim (lookup root disk) [
  | none ↦ false
  | some at ↦ elim at [ none ↦ false | some dir ↦ true ]
]

-- The parts of a root that is a directory.
unfoldable pub file_at : {F : Type 0} → Text → Disk F → Option F
unfolding lookup
file_at root disk = elim (lookup root disk) [
  | none ↦ none
  | some at ↦ elim at [ none ↦ none | some dir ↦ dir.workset_yaml ]
]

unfoldable pub folders_at : {F : Type 0} → Text → Disk F → List Text
unfolding lookup
folders_at root disk = elim (lookup root disk) [
  | none ↦ []
  | some at ↦ elim at [ none ↦ [] | some dir ↦ dir.folders ]
]

module _ {L : Type 0} (sequences : Sequences L) where
  -- `bool(v)`
  unfoldable pub truth : Value L → Bool
  unfolding is_empty
  truth (flag b) = b
  truth (word t) = not (t == [])
  truth (other v) = sequences.is_truthy v
  truth (table t) = not (is_empty t)

  abbrev pub project_entry : WorksetProject L → Value L
  project_entry p =
      table
        (entry (text "name") p.project_name (entry (text "source_path") (word p.source_path) end))

  unfoldable pub workset_document : Workset L → Table L
  workset_document ws = entry (text "name") ws.workset_name (
      entry (text "created") ws.created (
        entry (text "group_auth") (flag ws.shares_auth)
          (entry (text "projects") (other (sequences.of_list (map project_entry ws.members))) end)))

  module _ (path_of : Text → Text) where
    -- `Path(entry["source_path"])`
    abbrev project_at : Option (Value L) → Option (Value L) → Result WorksetError (WorksetProject L)
    project_at (some name) (some (word path)) =
        ok (record { project_name = name; source_path = path_of path })
    project_at (some name) (some (flag b)) = err malformed
    project_at (some name) (some (other v)) = err malformed
    project_at (some name) (some (table t)) = err malformed
    project_at (some name) none = err malformed
    project_at none path = err malformed

    unfoldable pub project_of : Value L → Result WorksetError (WorksetProject L)
    unfolding get
    project_of (table t) = project_at (get (text "name") t) (get (text "source_path") t)
    project_of (flag b) = err malformed
    project_of (word t) = err malformed
    project_of (other v) = err malformed

    unfoldable pub projects_in : List (Value L) → Result WorksetError (List (WorksetProject L))
    unfolding project_of
    projects_in [] = ok []
    projects_in (v ∷ vs) = do p ← project_of v; ps ← projects_in vs; ok (p ∷ ps)

    -- What `for entry in …` runs over; an empty text or mapping has no entries.
    unfoldable pub projects_of : Option (Value L) → Result WorksetError (List (WorksetProject L))
    unfolding projects_in is_empty
    projects_of none = ok []
    projects_of (some (flag b)) = err malformed
    projects_of (some (word t)) = if t == [] then ok [] else err malformed
    projects_of (some (table t)) = if is_empty t then ok [] else err malformed
    projects_of (some (other v)) = elim (sequences.list_of v) [
      | none ↦ err malformed
      | some vs ↦ projects_in vs
    ]

    abbrev or_value : Value L → Option (Value L) → Value L
    or_value v none = v
    or_value v (some w) = w

    unfoldable pub workset_named :
        Text → Table L → Option (Value L) → Result WorksetError (Workset L)
    unfolding truth get projects_of
    workset_named root doc none = err (nameless root)
    workset_named root doc (some name) =
        if truth name
        then (do
          members ← projects_of (get (text "projects") doc)
          ok (record {
            workset_name = name;
            root = root;
            created = or_value (word []) (get (text "created") doc);
            members = members;
            shares_auth = truth (or_value (flag true) (get (text "group_auth") doc));
            is_default = false;
          }))
        else err (nameless root)

    module _ {F : Type 0} (yaml : Yaml F L) where
      unfoldable pub load_workset_toml : Text → Option F → Result WorksetError (Workset L)
      unfolding workset_named load_doc get
      load_workset_toml root none = err (no_workset_file root)
      load_workset_toml root (some content) =
          let doc = load_doc yaml (some content) in workset_named root doc (get (text "name") doc)

  module _ {F : Type 0} (yaml : Yaml F L) where
    -- `_write_workset_toml`: the file at the root.
    unfoldable pub write_workset_toml : Workset L → Disk F → Disk F
    unfolding workset_document folders_at dump_doc insert
    write_workset_toml ws disk =
        insert ws.root
          (some (record {
            workset_yaml = dump_doc yaml (workset_document ws);
            folders = folders_at ws.root disk;
          }))
          disk
