-- ===== src/Config/Reset.antt =====
-- `reset_all` of src/kanibako/config_interface.py. A step that raises leaves the file as the steps
-- before it have written it.
use kanibako.Prelude.{
  ℕ, ◌+◌, Bool, true, false, Option, none, some, List, [], ◌∷◌, Text, text, if◌then◌else◌, Result,
  ok, err, length,
}
use kanibako.Prelude.Dict.{keys}
use kanibako.Documents.Table.{Value, flag, word, other, table, Table, end, entry, get}
use kanibako.Documents.Files.{Yaml, load_doc}
use kanibako.Documents.Sections.{remove_toml_key}
use kanibako.Env.File.{read_env_file, write_env_file}
use kanibako.Config.Flatten.{Show}
use kanibako.Config.Load.{ConfigFault, not_a_mapping}
use kanibako.Config.Merge.{load_project_overrides}
use kanibako.Config.Sections.{unset_project_config_key}
use kanibako.Config.Meta.{Scalars}

pub data ResetAnswer : Type 0 where
  aborted : ResetAnswer
  raised : ConfigFault → ResetAnswer
  reset_count : ℕ → ResetAnswer

unfoldable pub table_keys : {L : Type 0} → Table L → List Text
table_keys end = []
table_keys (entry k v d) = k ∷ table_keys d

-- What `list` gives: keys to remove, or elements that only count.
pub data Elements : Type 0 where
  no_elements : Elements
  no_iterable : Elements
  counted : ℕ → Elements
  keyed : List Text → Elements

unfoldable pub elements_of : {L : Type 0} → Scalars L → Option (Value L) → Elements
unfolding table_keys
elements_of scalars none = no_elements
elements_of scalars (some (flag b)) = if b then no_iterable else no_elements
elements_of scalars (some (word t)) = counted (length t)
elements_of scalars (some (other v)) =
    if scalars.is_truthy v
    then elim (scalars.length_of v) [ none ↦ no_iterable | some n ↦ counted n ]
    else no_elements
elements_of scalars (some (table t)) = keyed (table_keys t)

-- A file so far, and how the steps went on it.
abbrev pub Progress : Type 0 → Type 0
Progress F = Option F × Result ConfigFault ℕ

abbrev is_nil : {A : Type 0} → List A → Bool
is_nil [] = true
is_nil (a ∷ rest) = false

module _ {F L : Type 0} (yaml : Yaml F L) where
  unfoldable pub unset_each : List Text → Option F → ℕ → Progress F
  unfolding unset_project_config_key
  unset_each [] file count = (file, ok count)
  unset_each (key ∷ keys) file count = elim (unset_project_config_key yaml file key) [
    | err e ↦ (file, err e)
    | ok removed ↦ unset_each keys removed.1 (count + 1)
  ]

  unfoldable pub remove_each : Text → List Text → Option F → Option F
  unfolding remove_toml_key
  remove_each section [] file = file
  remove_each section (key ∷ keys) file =
      remove_each section keys (remove_toml_key yaml file section key).1

  -- One section, listed from the document as it was.
  unfoldable pub clear_section : Text → Elements → Progress F → Progress F
  unfolding remove_each
  clear_section section listed (file, err e) = (file, err e)
  clear_section section no_elements (file, ok count) = (file, ok count)
  clear_section section no_iterable (file, ok count) = (file, err not_a_mapping)
  clear_section section (counted n) (file, ok count) = (file, ok (count + n))
  clear_section section (keyed keys) (file, ok count) =
      (remove_each section keys file, ok (count + length keys))

  unfoldable pub clear_sections : Scalars L → Option F → ℕ → Progress F
  unfolding clear_section elements_of get load_doc
  clear_sections scalars none count = (none, ok count)
  clear_sections scalars (some content) count =
      let doc = load_doc yaml (some content) in
      clear_section (text "resource_overrides")
        (elements_of scalars (get (text "resource_overrides") doc))
        (clear_section (text "crab") (elements_of scalars (get (text "crab") doc))
          (some content, ok count))

  -- The file of variables is emptied last, and only if nothing raised.
  unfoldable pub clear_env :
      Progress F → Option (Option Text) → ResetAnswer × Option F × Option (Option Text)
  unfolding read_env_file write_env_file
  clear_env (file, err e) env = (raised e, file, env)
  clear_env (file, ok count) none = (reset_count count, file, none)
  clear_env (file, ok count) (some none) = (reset_count count, file, some none)
  clear_env (file, ok count) (some (some content)) =
      let env = read_env_file (some content) in
      if is_nil env
      then (reset_count count, file, some (some content))
      else (reset_count (count + length env), file, some (write_env_file []))

  abbrev after_overrides : Scalars L → Progress F → Progress F
  after_overrides scalars (file, err e) = (file, err e)
  after_overrides scalars (file, ok count) = clear_sections scalars file count

  -- The first argument says whether the removal is forced or confirmed.
  unfoldable pub reset_all :
      Bool
      → Show L
      → Scalars L
      → Option F
      → Option (Option Text)
      → ResetAnswer × Option F × Option (Option Text)
  unfolding load_project_overrides unset_each clear_sections clear_env keys
  reset_all false show scalars file env = (aborted, file, env)
  reset_all true show scalars file env = elim (load_project_overrides yaml show file) [
    | err e ↦ (raised e, file, env)
    | ok overrides ↦ clear_env (after_overrides scalars (unset_each (keys overrides) file 0)) env
  ]
