-- ===== src/Worksets/Projects.antt =====
-- Loading a workset and changing its projects: `load_workset`, `default_workset`,
-- `resolve_workset_name`, `add_project` and `remove_project` of src/kanibako/workset.py.
use kanibako.Prelude.{
  Bool, true, false, ◌&&◌, ◌||◌, not, Option, none, some, List, [], ◌∷◌, ◌++◌, Text, text, ◌==◌,
  text_eq, if◌then◌else◌, Result, ok, err, ◌>>=◌, contains,
}
use kanibako.Prelude.Dict.{Dict, lookup, insert}
use kanibako.Prelude.Strings.{strip_prefix}
use kanibako.Documents.Table.{Value, flag, word, other, table, Table, get}
use kanibako.Documents.Files.{Yaml, load_doc}
use kanibako.Config.Sections.{has_infix}
use kanibako.Names.Document.{Document, load}
use kanibako.Worksets.Root.{
  Trees, WorksetError, no_root, not_registered, project_exists, project_not_found, malformed,
  WorksetProject, Workset, Sequences, Disk, is_dir, file_at, folders_at, truth, load_workset_toml,
  write_workset_toml,
}
use kanibako.Worksets.Registry.{World, default_workset_id, is_reserved, load_registry}

module _ {L : Type 0} where
  -- `p.name == name`
  unfoldable pub is_named : Text → Value L → Bool
  is_named name (word t) = t == name
  is_named name (flag b) = false
  is_named name (other v) = false
  is_named name (table t) = false

  unfoldable pub find_project : Text → List (WorksetProject L) → Option (WorksetProject L)
  unfolding is_named
  find_project name [] = none
  find_project name (p ∷ ps) =
      let rest = find_project name ps in if is_named name p.project_name then some p else rest

  -- The first project of the name is taken out.
  unfoldable pub remove_named : Text → List (WorksetProject L) → List (WorksetProject L)
  unfolding is_named
  remove_named name [] = []
  remove_named name (p ∷ ps) =
      let rest = remove_named name ps in if is_named name p.project_name then ps else p ∷ rest

  abbrev pub with_members : Workset L → List (WorksetProject L) → Workset L
  with_members ws members = record ws { members = members }

-- The directories that an addition makes, in order, and those that a removal takes away.
abbrev pub project_dirs : {F : Type 0} → Trees F → Text → Text → List Text
project_dirs trees root name =
    trees.join (trees.join root (text "boxes")) name
    ∷ trees.join (trees.join root (text "workspaces")) name
    ∷ trees.join (trees.join (trees.join root (text "vault")) name) (text "ro")
    ∷ trees.join (trees.join (trees.join root (text "vault")) name) (text "rw")
    ∷ []

abbrev pub project_trees : {F : Type 0} → Trees F → Text → Text → List Text
project_trees trees root name =
    trees.join (trees.join root (text "boxes")) name
    ∷ trees.join (trees.join root (text "workspaces")) name
    ∷ trees.join (trees.join root (text "vault")) name
    ∷ []

-- One after the other, up to the first that raises.
unfoldable pub make_dirs :
    {F : Type 0} → Trees F → List Text → Disk F → Disk F × Option WorksetError
make_dirs trees [] disk = (disk, none)
make_dirs trees (p ∷ ps) disk =
    let (after, error) = trees.mkdir p disk in
    elim error [ some e ↦ (after, some e) | none ↦ make_dirs trees ps after ]

abbrev pub remove_dir : {F : Type 0} → Trees F → Text → Disk F → Disk F × Option WorksetError
remove_dir trees p disk = if trees.has_dir p disk then trees.rmtree p disk else (disk, none)

unfoldable pub remove_dirs :
    {F : Type 0} → Trees F → List Text → Disk F → Disk F × Option WorksetError
remove_dirs trees [] disk = (disk, none)
remove_dirs trees (p ∷ ps) disk =
    let (after, error) = remove_dir trees p disk in
    elim error [ some e ↦ (after, some e) | none ↦ remove_dirs trees ps after ]

-- A rename of a directory moves what is below it.
unfoldable pub rename_folders : List Text → List Text
unfolding strip_prefix
rename_folders [] = []
rename_folders (f ∷ fs) =
    let rest = rename_folders fs in
    if f == text "kanibako" then text "boxes" ∷ rest else elim (strip_prefix f (text "kanibako/")) [
      | none ↦ f ∷ rest
      | some below ↦ (text "boxes/" ++ below) ∷ rest
    ]

unfoldable pub migrate_root : {F : Type 0} → Text → Disk F → Disk F
unfolding folders_at file_at rename_folders insert
migrate_root root disk =
    let folders = folders_at root disk in
    if contains folders (text "kanibako") && not (contains folders (text "boxes"))
    then insert root
        (some (record { workset_yaml = file_at root disk; folders = rename_folders folders })) disk
    else disk

module _ {F L : Type 0} (yaml : Yaml F L) (sequences : Sequences L)
    (path_of resolve : Text → Text) where
  unfoldable pub load_workset : Text → Disk F → Disk F × Result WorksetError (Workset L)
  unfolding is_dir migrate_root load_workset_toml file_at
  load_workset root disk =
      let at = resolve root in
      let after = migrate_root at disk in
      if is_dir at disk
      then (after, load_workset_toml sequences path_of yaml at (file_at at after))
      else (disk, err (no_root at))

  -- The disk, the workset that the caller holds, and the exception, if one was raised.
  abbrev pub Changed : Type 0
  Changed = Disk F × Workset L × Option WorksetError

  -- The workset grows only when the directories are made.
  unfoldable pub grow : Workset L → Text → Text → Disk F × Option WorksetError → Changed
  unfolding write_workset_toml
  grow ws name source (disk, some e) = (disk, ws, some e)
  grow ws name source (disk, none) =
      let project : WorksetProject L = record {
        project_name = word name;
        source_path = resolve source;
      } in
      let after = with_members ws (ws.members ++ project ∷ []) in
      (write_workset_toml sequences yaml after disk, after, none)

  unfoldable pub add_project : Trees F → Workset L → Text → Text → Disk F → Changed
  unfolding find_project make_dirs grow
  add_project trees ws name source disk = elim (find_project name ws.members) [
    | some p ↦ (disk, ws, some (project_exists name))
    | none ↦ grow ws name source (make_dirs trees (project_dirs trees ws.root name) disk)
  ]

  -- The files go last, where that is asked for.
  unfoldable pub drop_dirs : Trees F → Bool → Text → Text → Disk F → Disk F × Option WorksetError
  unfolding remove_dirs
  drop_dirs trees false root name disk = (disk, none)
  drop_dirs trees true root name disk = remove_dirs trees (project_trees trees root name) disk

  unfoldable pub remove_project : Trees F → Workset L → Text → Bool → Disk F → Changed
  unfolding find_project remove_named write_workset_toml drop_dirs
  remove_project trees ws name remove_files disk = elim (find_project name ws.members) [
    | none ↦ (disk, ws, some (project_not_found name))
    | some p ↦
        let after = with_members ws (remove_named name ws.members) in
        let (left, error) =
          drop_dirs trees remove_files ws.root name
            (write_workset_toml sequences yaml after disk) in
        (left, after, error)
  ]

  -- `"group_auth" in v`, and the value there.
  unfoldable pub own_auth : Table L → Result WorksetError Bool
  unfolding get truth
  own_auth doc = elim (get (text "group_auth") doc) [
    | none ↦ ok true
    | some v ↦ ok (truth sequences v)
  ]

  abbrev has_word : List (Value L) → Bool
  has_word [] = false
  has_word (v ∷ vs) = is_named (text "group_auth") v || has_word vs

  unfoldable pub auth_in : Table L → Option (Value L) → Result WorksetError Bool
  unfolding own_auth get truth has_infix is_named
  auth_in doc none = own_auth doc
  auth_in doc (some (flag b)) = err malformed
  auth_in doc (some (word t)) =
      if has_infix t (text "group_auth") then err malformed else own_auth doc
  auth_in doc (some (other v)) = elim (sequences.list_of v) [
    | none ↦ err malformed
    | some vs ↦ if has_word vs then err malformed else own_auth doc
  ]
  auth_in doc (some (table t)) = elim (get (text "group_auth") t) [
    | none ↦ own_auth doc
    | some v ↦ ok (truth sequences v)
  ]

  abbrev auth_of : Option F → Result WorksetError Bool
  auth_of none = ok true
  auth_of (some content) =
      let doc = load_doc yaml (some content) in auth_in doc (get (text "project") doc)

  abbrev as_projects : Dict Text Text → List (WorksetProject L)
  as_projects [] = []
  as_projects ((name, path) ∷ d) =
      record { project_name = word name; source_path = path_of path } ∷ as_projects d

  module _ {V : Type 0} (show : V → Text) (quote : Text → V) (data_path : Text) where
    -- The workset of the projects that are in none; `config` is config.yaml of the data directory.
    unfoldable pub default_workset :
        Document show quote → Option F → Result WorksetError (Workset L)
    unfolding load auth_in load_doc get
    default_workset names config = do
      shares_auth ← auth_of config
      ok (record {
        workset_name = word default_workset_id;
        root = data_path;
        created = word [];
        members = as_projects ((load show quote names).projects);
        shares_auth = shares_auth;
        is_default = true;
      })

    unfoldable pub registered_workset :
        World F show quote
        → Text
        → Result WorksetError (Dict Text Text)
        → Disk F × Result WorksetError (Workset L)
    unfolding lookup load_workset
    registered_workset world name (err e) = (world.disk, err e)
    registered_workset world name (ok roots) = elim (lookup name roots) [
      | none ↦ (world.disk, err (not_registered name))
      | some root ↦ load_workset root world.disk
    ]

    unfoldable pub resolve_workset_name :
        World F show quote → Option F → Text → Disk F × Result WorksetError (Workset L)
    unfolding default_workset load_registry registered_workset
    resolve_workset_name world config name =
        if is_reserved name
        then (world.disk, default_workset world.names config)
        else registered_workset world name (load_registry yaml path_of world.hints)
