-- ===== src/Hub/Fork.antt =====
-- `_handle_fork` of src/kanibako/helper_listener.py. Paths, of a type `P`, and the file system are
-- parameters; a copy is `none` or the message of an exception, and `exists` is `none` where
-- `Path.exists` raises, as it does for a name that is too long. The registry of names is that of
-- Names, with its parameters, where a file has the sections that it should have.
use kanibako.Prelude.{
  Bool, true, false, ◌||◌, Option, none, some, List, [], ◌∷◌, ◌++◌, Text, text, ◌==◌, text_eq,
  nat_eq, if◌then◌else◌, Result, ok, err,
}
use kanibako.Prelude.Dict.{Dict}
use kanibako.Prelude.Strings.{has_char, strip}
use kanibako.Names.Document.{projects, Document, load}
use kanibako.Names.Registry.{ProjectError}
use kanibako.Names.Assign.{assign_name}
use kanibako.Hub.State.{Reply, status_forked, status_error}

pub record ForkContext (P : Type 0) : Type 0 where
  pub project_path : Option P
  pub data_path : Option P
  pub boxes : Option P
  pub shell_path : P

-- `beside p name` is `p.parent / f"{p.name}.{name}"`, `base` is `p.name`, and `copy_metadata` is the
-- copy that leaves out the lock and the helpers.
pub record ForkDisk (P : Type 0) : Type 0 where
  pub join : P → Text → P
  pub beside : P → Text → P
  pub parent : P → P
  pub base : P → Text
  pub shown : P → Text
  pub exists : P → Option Bool
  pub is_dir : P → Bool
  pub copytree : P → P → Option Text
  pub copy_metadata : P → P → Option Text

-- The `name` of a request: none or one that counts as false, a text, or another value.
pub data ForkName : Type 0 where
  no_name : ForkName
  text_name : Text → ForkName
  no_text : ForkName

-- The exceptions that `_handle_fork` lets out: `strip` of a name that is no text, and `exists`.
pub data ForkRaised : Type 0 where
  strip_raised exists_raised : ForkRaised

-- "/", "\" and "."
unfoldable pub bad_fork_name : Text → Bool
unfolding has_char
bad_fork_name name = name == [] || has_char b'/' name || has_char 92 name || has_char b'.' name

module _ {P V : Type 0} (J : Type 0) (show : V → Text) (quote : Text → V) (resolve : Text → Text)
    (home : Text) (name_of : Text → Text) (describe : ProjectError → Text) (disk : ForkDisk P) where
  -- What a fork leaves: the answer, the registry, the copies that were made, in order, and whether
  -- it is logged.
  pub record Forked : Type 0 where
    pub reply : Reply J
    pub names : Document show quote
    pub copied : List (P × P)
    pub logged : Bool

  -- The first project with the path; if its directory is missing, no later one is looked at.
  unfoldable pub registered_dir : P → Text → Dict Text Text → Option P
  registered_dir boxes path [] = none
  registered_dir boxes path ((name, p) ∷ rest) =
      let later = registered_dir boxes path rest in
      if p == path
      then (if disk.is_dir (disk.join boxes name) then some (disk.join boxes name) else none)
      else later

  abbrev or_shell : ForkContext P → Option P → Option P
  or_shell ctx (some dir) = some dir
  or_shell ctx none =
      if disk.is_dir (disk.parent ctx.shell_path)
      then (if disk.base (disk.parent (disk.parent ctx.shell_path)) == text "boxes"
          then some (disk.parent ctx.shell_path)
          else none)
      else none

  abbrev boxes_base : ForkContext P → P → P
  boxes_base ctx data_path = elim ctx.boxes [
    | none ↦ disk.join data_path (text "boxes")
    | some b ↦ b
  ]

  abbrev copied_once : Option Text → P → P → List (P × P)
  copied_once none source target = (source, target) ∷ []
  copied_once (some e) source target = []

  -- A failed copy of the metadata is only a warning, and so is an exception before it.
  abbrev metadata_copy : Option P → P → List (P × P)
  metadata_copy none target = []
  metadata_copy (some source) target = elim (disk.exists target) [
    | none ↦ []
    | some there ↦
        if there then [] else copied_once (disk.copy_metadata source target) source target
  ]

  -- What a fork comes to: an exception, before anything was changed, or an answer.
  abbrev pub Forking : Type 0
  Forking = Result ForkRaised Forked

  abbrev refused : Document show quote → List (P × P) → Text → Forked
  refused file copied reason = record {
    reply = status_error reason;
    names = file;
    copied = copied;
    logged = false;
  }

  -- After the copy of the workspace; `none` would mean that the fuel of the naming ran out.
  unfoldable pub name_fork :
      ForkContext P
      → P
      → P
      → P
      → Document show quote
      → Option (Result ProjectError (Text × Document show quote))
      → Option Forking
  unfolding registered_dir
  name_fork ctx project data_path new_path file none = none
  name_fork ctx project data_path new_path file (some (err e)) =
      some (
        ok
          (refused file ((project, new_path) ∷ []) (text "name assignment failed: " ++ describe e)))
  name_fork ctx project data_path new_path file (some (ok (new_name, after))) =
      let base = boxes_base ctx data_path in
      let source =
        or_shell ctx (registered_dir base (disk.shown project) (load show quote file).projects) in
      some (
        ok (record {
          reply = status_forked (disk.shown new_path) new_name;
          names = after;
          copied = (project, new_path) ∷ metadata_copy source (disk.join base new_name);
          logged = true;
        }))

  -- `there` is what `exists` says of the destination.
  unfoldable pub fork_at :
      ForkContext P → P → P → P → Option Bool → Document show quote → Option Forking
  unfolding name_fork
  fork_at ctx project data_path new_path none file = some (err exists_raised)
  fork_at ctx project data_path new_path (some true) file =
      some (ok (refused file [] (text "destination already exists: " ++ disk.shown new_path)))
  fork_at ctx project data_path new_path (some false) file = elim (disk.copytree project new_path) [
    | some e ↦ some (ok (refused file [] (text "workspace copy failed: " ++ e)))
    | none ↦
        name_fork ctx project data_path new_path file
          (assign_name show quote resolve home name_of file (disk.shown new_path) projects)
  ]

  unfoldable pub fork_to : ForkContext P → P → P → Text → Document show quote → Option Forking
  unfolding fork_at
  fork_to ctx project data_path name file =
      let new_path = disk.beside project name in
      fork_at ctx project data_path new_path (disk.exists new_path) file

  -- `name` is the request's. A text that is not empty is stripped and tested.
  unfoldable pub fork_named :
      ForkContext P → P → P → ForkName → Document show quote → Option Forking
  unfolding fork_to bad_fork_name strip
  fork_named ctx project data_path no_name file =
      some (ok (refused file [] (text "missing fork name")))
  fork_named ctx project data_path no_text file = some (err strip_raised)
  fork_named ctx project data_path (text_name name) file =
      if name == []
      then some (ok (refused file [] (text "missing fork name")))
      else if bad_fork_name (strip name)
      then some (ok (refused file [] (text "invalid fork name (no slashes or dots)")))
      else fork_to ctx project data_path (strip name) file

  -- Both paths have to be known.
  unfoldable pub fork_between :
      ForkContext P → Option P → Option P → ForkName → Document show quote → Option Forking
  unfolding fork_named
  fork_between ctx none data_path name file =
      some (ok (refused file [] (text "fork requires project_path and data_path")))
  fork_between ctx (some project) none name file =
      some (ok (refused file [] (text "fork requires project_path and data_path")))
  fork_between ctx (some project) (some data_path) name file =
      fork_named ctx project data_path name file

  unfoldable pub handle_fork : ForkContext P → ForkName → Document show quote → Option Forking
  unfolding fork_between
  handle_fork ctx name file = fork_between ctx ctx.project_path ctx.data_path name file
