-- ===== src/Worksets/Registry.antt =====
-- The operations of src/kanibako/workset.py on the registry of worksets, the registry of names and the
-- directories. An operation that raises gives what it had changed by then. `resolve` is
-- `Path.resolve`, `show` and `quote` are those of Names, and parents of a root are not followed.
use kanibako.Prelude.{
  Bool, true, false, ◌&&◌, ◌||◌, Option, none, some, [], ◌∷◌, Text, text, ◌==◌, text_eq,
  if◌then◌else◌, Result, ok, err, ◌>>=◌,
}
use kanibako.Prelude.Dict.{Dict, lookup, insert, erase, has}
use kanibako.Documents.Table.{Value, flag, word, other, table, Table, end, entry, get}
use kanibako.Documents.Files.{Yaml, load_doc, dump_doc}
use kanibako.Config.Flatten.{of_entries}
use kanibako.Names.Document.{Document, worksets, in_order}
use kanibako.Names.Registry.{register_name, unregister_name}
use kanibako.Worksets.Root.{
  WorksetError, empty_name, reserved_name, workset_registered, root_exists, not_registered,
  malformed, name_error, Workset, Sequences, Dir, Disk, is_dir, write_workset_toml,
}

abbrev pub default_workset_id : Text
default_workset_id = text "__default__"

abbrev pub default_workset_alias : Text
default_workset_alias = text "default"

abbrev pub is_reserved : Text → Bool
is_reserved name = name == default_workset_id || name == default_workset_alias

-- worksets.yaml, names.yaml, the directories and what is at them.
pub record World (F : Type 0) {V : Type 0} (show : V → Text) (quote : Text → V) : Type 0 where
  pub hints : Option F
  pub names : Document show quote
  pub disk : Disk F

module _ {F L : Type 0} (yaml : Yaml F L) (path_of : Text → Text) where
  -- `Path(root)` of each value
  unfoldable pub roots_of : Table L → Result WorksetError (Dict Text Text)
  roots_of end = ok []
  roots_of (entry k (word t) d) = roots_of d >>= λ roots. ok ((k, path_of t) ∷ roots)
  roots_of (entry k (flag b) d) = err malformed
  roots_of (entry k (other v) d) = err malformed
  roots_of (entry k (table t) d) = err malformed

  unfoldable pub roots_in : Option (Value L) → Result WorksetError (Dict Text Text)
  unfolding roots_of
  roots_in none = ok []
  roots_in (some (table t)) = roots_of t
  roots_in (some (flag b)) = err malformed
  roots_in (some (word t)) = err malformed
  roots_in (some (other v)) = err malformed

  -- `_load_registry`, and `list_worksets`
  unfoldable pub load_registry : Option F → Result WorksetError (Dict Text Text)
  unfolding roots_in load_doc get
  load_registry none = ok []
  load_registry (some content) = roots_in (get (text "worksets") (load_doc yaml (some content)))

  abbrev pub list_worksets : Option F → Result WorksetError (Dict Text Text)
  list_worksets hints = load_registry hints

-- `_write_registry`
unfoldable pub write_registry : {F L : Type 0} → Yaml F L → Dict Text Text → Option F
unfolding dump_doc in_order
write_registry yaml roots =
    dump_doc yaml (entry (text "worksets") (table (of_entries (in_order roots))) end)

module _ {F L V : Type 0} (yaml : Yaml F L) (sequences : Sequences L) (show : V → Text)
    (quote : Text → V) (path_of resolve : Text → Text) (home : Text) where
  abbrev State : Type 0
  State = World F show quote

  -- The directories of a new root.
  abbrev new_dir : Dir F
  new_dir = record {
    workset_yaml = none;
    folders = text "boxes" ∷ text "workspaces" ∷ text "vault" ∷ [];
  }

  abbrev new_workset : Text → Text → Text → Workset L
  new_workset name root created = record {
    workset_name = word name;
    root = root;
    created = word created;
    members = [];
    shares_auth = true;
    is_default = false;
  }

  -- The registration in names.yaml comes last.
  unfoldable pub register_workset :
      State → Text → Text → Workset L → State × Result WorksetError (Workset L)
  unfolding register_name
  register_workset world name root ws =
      elim (register_name show quote resolve home world.names name root worksets) [
        | err e ↦ (world, err (name_error e))
        | ok names ↦ (record world { names = names }, ok ws)
      ]

  unfoldable pub create_at :
      State → Dict Text Text → Text → Text → Text → State × Result WorksetError (Workset L)
  unfolding has register_workset write_workset_toml write_registry insert
  create_at world roots name root now =
      if has root world.disk
      then (world, err (root_exists root))
      else (let ws = new_workset name root now in
          register_workset
            (record {
              hints = write_registry yaml (insert name root roots);
              names = world.names;
              disk = write_workset_toml sequences yaml ws (insert root (some new_dir) world.disk);
            })
            name root ws)

  unfoldable pub create_new :
      State
      → Result WorksetError (Dict Text Text)
      → Text
      → Text
      → Text
      → State × Result WorksetError (Workset L)
  unfolding lookup create_at
  create_new world (err e) name root now = (world, err e)
  create_new world (ok roots) name root now = elim (lookup name roots) [
    | some at ↦ (world, err (workset_registered name at))
    | none ↦ create_at world roots name (resolve root) now
  ]

  unfoldable pub create_workset :
      State → Text → Text → Text → State × Result WorksetError (Workset L)
  unfolding create_new load_registry
  create_workset world name root now =
      if name == []
      then (world, err empty_name)
      else if is_reserved name
      then (world, err reserved_name)
      else create_new world (load_registry yaml path_of world.hints) name root now

  -- `rmtree` of the root, where it is asked for and there is a directory.
  abbrev without_root : Bool → Text → Disk F → Disk F
  without_root remove_files root disk =
      if remove_files && is_dir root disk then erase root disk else disk

  unfoldable pub delete_known :
      State → Result WorksetError (Dict Text Text) → Text → Bool → State × Result WorksetError Text
  unfolding lookup erase write_registry unregister_name is_dir
  delete_known world (err e) name remove_files = (world, err e)
  delete_known world (ok roots) name remove_files = elim (lookup name roots) [
    | none ↦ (world, err (not_registered name))
    | some root ↦ (
      record {
        hints = write_registry yaml (erase name roots);
        names = (unregister_name show quote resolve home world.names name worksets).1;
        disk = without_root remove_files root world.disk;
      },
      ok root,
    )
  ]

  unfoldable pub delete_workset : State → Text → Bool → State × Result WorksetError Text
  unfolding delete_known load_registry
  delete_workset world name remove_files =
      delete_known world (load_registry yaml path_of world.hints) name remove_files
