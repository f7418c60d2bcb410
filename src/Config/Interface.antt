-- ===== src/Config/Interface.antt =====
-- `get_config_value`, `set_config_value`, `reset_config_value` and `reset_all` of
-- src/kanibako/config_interface.py. Messages are constructors that keep what they quote.
pub mod Settings
pub mod Laws
pub mod Known
use kanibako.Prelude.{
  ℕ, ◌+◌, Bool, true, false, ◌&&◌, ◌||◌, Option, none, some, List, [], ◌∷◌, ◌++◌, Text, text, ◌==◌,
  text_eq, if◌then◌else◌, Result, ok, err, ◌>>=◌, contains, length,
}
use kanibako.Prelude.Dict.{Dict, lookup, insert, has, keys}
use kanibako.Prelude.Strings.{strip_prefix}
use kanibako.Documents.Table.{
  Value, flag, word, other, table, Table, end, entry, get, mem, is_empty,
}
use kanibako.Documents.Files.{Yaml, load_doc, dump_doc}
use kanibako.Documents.Sections.{
  write, remove, write_in, remove_in, write_toml_key, remove_toml_key, write_nested_toml_key,
  remove_nested_toml_key,
}
use kanibako.Env.File.{
  EnvError, set_env_var, unset_env_var, merge_env, read_env_file, write_env_file,
}
use kanibako.Config.Flatten.{Show, str_value, of_entries}
use kanibako.Config.Load.{
  Field, words, switch, entries, KanibakoConfig, ConfigFault, not_a_mapping, mapping, config_keys,
  defaults,
}
use kanibako.Config.Merge.{load_merged_config, load_project_overrides}
use kanibako.Config.Keys.{
  Place, in_env, in_resources, in_shared, in_crab, in_system_paths, in_config, place_of,
  resolve_key,
}
use kanibako.Config.Sections.{
  write_project_config_key, unset_project_config_key, read_crab_settings,
}
use kanibako.Config.Meta.{Scalars}

-- The text, unless it is empty.
abbrev pub or_none : Text → Option Text
or_none [] = none
or_none (c ∷ s) = some (c ∷ s)

-- `d.get(key)` of a field that holds a dict
unfoldable pub entry_of : Text → Option Field → Result ConfigFault (Option Text)
unfolding lookup
entry_of key none = err not_a_mapping
entry_of key (some (words t)) = err not_a_mapping
entry_of key (some (switch b)) = err not_a_mapping
entry_of key (some (entries d)) = ok (lookup key d)

module _ {L : Type 0} (show : Show L) where
  unfoldable pub str_field : Option Field → Option Text
  str_field none = none
  str_field (some (words t)) = or_none t
  str_field (some (switch b)) = some (if b then text "true" else text "false")
  str_field (some (entries [])) = none
  str_field (some (entries (e ∷ d))) = some (show.show_table (of_entries (e ∷ d)))

  -- `str(d.get(key, "")) or None`
  unfoldable pub resource_of : Text → Table L → Option Text
  unfolding get str_value
  resource_of name overrides = elim (get name overrides) [
    | none ↦ none
    | some v ↦ or_none (str_value show v)
  ]

-- The confirmations.
pub data Message : Type 0 where
  no_env_path : Text → Message
  env_error : EnvError → Message
  has_set : Text → Text → Message
  has_reset : Text → Message
  reverts : Text → Option Text → Message
  no_override : Text → Message

-- A file of variables with what is said of it.
unfoldable pub env_set : Text → Text → Option (Option Text) → Message × Option (Option Text)
unfolding set_env_var
env_set name value none = (no_env_path (text "env." ++ name), none)
env_set name value (some file) = elim (set_env_var file name value) [
  | ok after ↦ (has_set name value, some after)
  | err e ↦ (env_error e, some file)
]

unfoldable pub env_reset : Text → Option (Option Text) → Message × Option (Option Text)
unfolding unset_env_var
env_reset name none = (no_override (text "env." ++ name), none)
env_reset name (some file) =
    let (found, after) = unset_env_var file name in
    (
      (if found then has_reset (text "env." ++ name) else no_override (text "env." ++ name)),
      some after,
    )

-- What a removal says.
abbrev reset_message : Text → Bool → Message
reset_message key found = if found then has_reset key else no_override key

module _ {F L : Type 0} (yaml : Yaml F L) where
  -- The outer `none`s are paths that were not given.
  unfoldable pub get_at :
      Show L
      → Place
      → Option F
      → Option (Option F)
      → Option (Option Text)
      → Option (Option Text)
      → Result ConfigFault (Option Text)
  unfolding load_doc mapping get resource_of load_merged_config entry_of read_crab_settings
      str_field merge_env lookup
  get_at show (in_env name) global project env_global env_project =
      ok (lookup name (merge_env env_global env_project))
  get_at show (in_resources name) global none env_global env_project = ok none
  get_at show (in_resources name) global (some none) env_global env_project = ok none
  get_at show (in_resources name) global (some (some content)) env_global env_project = do
    overrides ← mapping (get (text "resource_overrides") (load_doc yaml (some content)))
    ok (resource_of show name overrides)
  get_at show (in_shared name) global project env_global env_project = do
    cfg ← load_merged_config yaml show global project none []
    entry_of name (lookup (text "shared_caches") cfg)
  get_at show (in_crab key) global none env_global env_project = ok none
  get_at show (in_crab key) global (some file) env_global env_project = do
    settings ← read_crab_settings yaml show file
    ok (lookup key settings)
  get_at show (in_system_paths leaf) global project env_global env_project = do
    cfg ← load_merged_config yaml show global project none []
    entry_of (text "system.path." ++ leaf) (lookup (text "system_paths") cfg)
  get_at show (in_config flat) global project env_global env_project = do
    cfg ← load_merged_config yaml show global project none []
    ok (if contains config_keys flat then str_field show (lookup flat cfg) else none)

  unfoldable pub get_config_value :
      Show L
      → Text
      → Option F
      → Option (Option F)
      → Option (Option Text)
      → Option (Option Text)
      → Result ConfigFault (Option Text)
  unfolding resolve_key place_of get_at
  get_config_value show key global project env_global env_project =
      get_at show (place_of (resolve_key key)) global project env_global env_project

  -- The message, the configuration file and the file of variables, where one is given.
  abbrev pub Done : Type 0
  Done = Message × Option F × Option (Option Text)

  unfoldable pub set_at : Place → Text → Option F → Option (Option Text) → Result ConfigFault Done
  unfolding write_toml_key write_nested_toml_key write_project_config_key
  set_at (in_env name) value file env =
      let (message, env') = env_set name value env in ok (message, file, env')
  set_at (in_resources name) value file env = ok (
    has_set (text "resource." ++ name) value,
    write_toml_key yaml file (text "resource_overrides") name (word value),
    env,
  )
  set_at (in_shared name) value file env = ok (
    has_set (text "shared." ++ name) value,
    write_toml_key yaml file (text "shared") name (word value),
    env,
  )
  set_at (in_crab key) value file env =
      ok (has_set key value, write_toml_key yaml file (text "crab") key (word value), env)
  set_at (in_system_paths leaf) value file env = ok (
    has_set (text "system.path." ++ leaf) value,
    write_nested_toml_key yaml file (text "system" ∷ text "path" ∷ []) leaf (word value),
    env,
  )
  set_at (in_config flat) value file env = do
    after ← write_project_config_key yaml file flat value
    ok (has_set flat value, after, env)

  unfoldable pub set_config_value :
      Text → Text → Option F → Option (Option Text) → Result ConfigFault Done
  unfolding resolve_key place_of set_at
  set_config_value key value file env = set_at (place_of (resolve_key key)) value file env

  abbrev removed_from : Text → Bool × Option F → Option (Option Text) → Done
  removed_from key (found, after) env = (reset_message key found, after, env)

  abbrev reverted : Text → Bool × Option F → Option (Option Text) → Done
  reverted flat (found, after) env =
      ((if found then reverts flat (lookup flat defaults) else no_override flat), after, env)

  unfoldable pub reset_at : Place → Option F → Option (Option Text) → Result ConfigFault Done
  unfolding remove_toml_key remove_nested_toml_key unset_project_config_key lookup
  reset_at (in_env name) file env =
      let (message, env') = env_reset name env in ok (message, file, env')
  reset_at (in_resources name) file env = ok (
      removed_from (text "resource." ++ name)
        (remove_toml_key yaml file (text "resource_overrides") name) env)
  reset_at (in_shared name) file env =
      ok
        (removed_from (text "shared." ++ name) (remove_toml_key yaml file (text "shared") name) env)
  reset_at (in_crab key) file env =
      ok (removed_from key (remove_toml_key yaml file (text "crab") key) env)
  reset_at (in_system_paths leaf) file env = ok (
      removed_from (text "system.path." ++ leaf)
        (remove_nested_toml_key yaml file (text "system" ∷ text "path" ∷ []) leaf) env)
  reset_at (in_config flat) file env = do
    removed ← unset_project_config_key yaml file flat
    ok (reverted flat removed env)

  unfoldable pub reset_config_value :
      Text → Option F → Option (Option Text) → Result ConfigFault Done
  unfolding resolve_key place_of reset_at
  reset_config_value key file env = reset_at (place_of (resolve_key key)) file env
