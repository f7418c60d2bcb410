-- ===== src/Config/Sections.antt =====
-- The sections of a configuration file that src/kanibako/config.py writes itself.
use kanibako.Prelude.{
  Bool, true, false, ◌||◌, Option, none, some, [], ◌∷◌, Text, text, text_eq, if◌then◌else◌, Result,
  ok, err, ◌>>=◌,
}
use kanibako.Prelude.Dict.{Dict}
use kanibako.Prelude.Strings.{starts_with, strip_prefix}
use kanibako.Documents.Table.{Value, flag, word, other, table, get, mem, put}
use kanibako.Documents.Files.{Yaml, load_doc, dump_doc}
use kanibako.Documents.Sections.{remove, write_toml_key, remove_toml_key}
use kanibako.Config.Flatten.{Show, str_values}
use kanibako.Config.Load.{ConfigFault, not_a_mapping, no_section, mapping}

-- `key in s`, for a text.
unfoldable pub has_infix : Text → Text → Bool
unfolding starts_with
has_infix [] key = starts_with [] key
has_infix (c ∷ s) key = starts_with (c ∷ s) key || has_infix s key

-- `_split_config_key`
unfoldable pub split_config_key : Text → Result ConfigFault (Text × Text)
unfolding strip_prefix
split_config_key flat_key = elim (strip_prefix flat_key (text "paths_")) [
  | some key ↦ ok (text "paths", key)
  | none ↦ elim (strip_prefix flat_key (text "box_")) [
    | some key ↦ ok (text "box", key)
    | none ↦ err (no_section flat_key)
  ]
]

module _ {F L : Type 0} (yaml : Yaml F L) where
  unfoldable pub write_project_config_key : Option F → Text → Text → Result ConfigFault (Option F)
  unfolding split_config_key write_toml_key
  write_project_config_key file flat_key value = do
    (section, key) ← split_config_key flat_key
    ok (write_toml_key yaml file section key (word value))

  unfoldable pub write_project_config : Option F → Text → Result ConfigFault (Option F)
  unfolding write_project_config_key
  write_project_config file image = write_project_config_key file (text "box_image") image

  unfoldable pub unset_project_config_key : Option F → Text → Result ConfigFault (Bool × Option F)
  unfolding split_config_key remove_toml_key
  unset_project_config_key none flat_key = ok (false, none)
  unset_project_config_key (some content) flat_key = do
    (section, key) ← split_config_key flat_key
    ok (remove_toml_key yaml (some content) section key)

  -- The sections of crab settings and of resource overrides are treated alike, except that they
  -- raise where the section is no mapping.
  unfoldable pub write_setting : Option F → Text → Text → Text → Result ConfigFault (Option F)
  unfolding mapping put load_doc dump_doc
  write_setting file section key value = do
    let doc = load_doc yaml file
    settings ← mapping (get section doc)
    ok (dump_doc yaml (put section (table (put key (word value) settings)) doc))

  -- `key in v` raises where the value is no container, and its deletion where it is no mapping.
  unfoldable pub remove_from :
      (Text → L → Option Bool)
      → F
      → Text
      → Text
      → Option (Value L)
      → Result ConfigFault (Bool × Option F)
  unfolding has_infix mem remove load_doc dump_doc
  remove_from in_other content section key none = ok (false, some content)
  remove_from in_other content section key (some (flag b)) = err not_a_mapping
  remove_from in_other content section key (some (word t)) =
      if has_infix t key then err not_a_mapping else ok (false, some content)
  remove_from in_other content section key (some (other v)) = elim (in_other key v) [
    | none ↦ err not_a_mapping
    | some found ↦ if found then err not_a_mapping else ok (false, some content)
  ]
  remove_from in_other content section key (some (table settings)) =
      if mem key settings
      then ok (true, dump_doc yaml (remove section key (load_doc yaml (some content))))
      else ok (false, some content)

  unfoldable pub remove_setting :
      (Text → L → Option Bool) → Option F → Text → Text → Result ConfigFault (Bool × Option F)
  unfolding remove_from load_doc
  remove_setting in_other none section key = ok (false, none)
  remove_setting in_other (some content) section key =
      remove_from in_other content section key (get section (load_doc yaml (some content)))

  unfoldable pub write_crab_setting : Option F → Text → Text → Result ConfigFault (Option F)
  unfolding write_setting
  write_crab_setting file key value = write_setting file (text "crab") key value

  unfoldable pub remove_crab_setting :
      (Text → L → Option Bool) → Option F → Text → Result ConfigFault (Bool × Option F)
  unfolding remove_setting
  remove_crab_setting in_other file key = remove_setting in_other file (text "crab") key

  unfoldable pub write_resource_override : Option F → Text → Text → Result ConfigFault (Option F)
  unfolding write_setting
  write_resource_override file resource_path scope =
      write_setting file (text "resource_overrides") resource_path scope

  unfoldable pub remove_resource_override :
      (Text → L → Option Bool) → Option F → Text → Result ConfigFault (Bool × Option F)
  unfolding remove_setting
  remove_resource_override in_other file resource_path =
      remove_setting in_other file (text "resource_overrides") resource_path

  module _ (show : Show L) where
    unfoldable pub read_settings : Option F → Text → Result ConfigFault (Dict Text Text)
    unfolding mapping load_doc str_values
    read_settings none section = ok []
    read_settings (some content) section = do
      settings ← mapping (get section (load_doc yaml (some content)))
      ok (str_values show settings)

    unfoldable pub read_crab_settings : Option F → Result ConfigFault (Dict Text Text)
    unfolding read_settings
    read_crab_settings file = read_settings file (text "crab")

    unfoldable pub read_resource_overrides : Option F → Result ConfigFault (Dict Text Text)
    unfolding read_settings
    read_resource_overrides file = read_settings file (text "resource_overrides")
