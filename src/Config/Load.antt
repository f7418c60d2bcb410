-- ===== src/Config/Load.antt =====
-- `KanibakoConfig` and `load_config` of src/kanibako/config.py. The source sets and reads fields by
-- their names, so a configuration is a dict from the names of its fields.
use kanibako.Prelude.{
  Bool, true, false, Option, none, some, List, [], ◌∷◌, ◌++◌, Text, text, contains, text_eq,
  if◌then◌else◌, Result, ok, err, ◌>>=◌,
}
use kanibako.Prelude.Dict.{Dict, keys, insert}
use kanibako.Documents.Table.{
  Value, flag, word, other, table, Table, end, get, mem, put, del, is_empty,
}
use kanibako.Documents.Files.{Yaml, load_doc}
use kanibako.Config.Flatten.{Leaf, bool, str, Show, str_values, flatten_toml}

-- The value of a field.
pub data Field : Type 0 where
  words : Text → Field
  switch : Bool → Field
  entries : Dict Text Text → Field

abbrev pub KanibakoConfig : Type 0
KanibakoConfig = Dict Text Field

-- A section that is no mapping raises `AttributeError` or `TypeError`; a key that belongs to no
-- section raises `ValueError`.
pub data ConfigFault : Type 0 where
  not_a_mapping : ConfigFault
  no_section : Text → ConfigFault

abbrev pub defaults : Dict Text Text
defaults =
    (text "paths_project_toml", text "project.yaml")
    ∷ (text "paths_shared", text "shared")
    ∷ (text "paths_shell", text "shell")
    ∷ (text "paths_vault", text "vault")
    ∷ (text "box_image", text "ghcr.io/doctorjei/kanibako-oci:latest")
    ∷ (text "box_crab", [])
    ∷ []

abbrev pub default_config : KanibakoConfig
default_config =
    (text "paths_project_toml", words (text "project.yaml"))
    ∷ (text "paths_shared", words (text "shared"))
    ∷ (text "paths_shell", words (text "shell"))
    ∷ (text "paths_vault", words (text "vault"))
    ∷ (text "box_image", words (text "ghcr.io/doctorjei/kanibako-oci:latest"))
    ∷ (text "box_crab", words [])
    ∷ (text "allow_helpers", switch true)
    ∷ (text "box_share_images", switch false)
    ∷ (text "shared_caches", entries [])
    ∷ (text "system_paths", entries [])
    ∷ []

unfoldable pub config_keys : List Text
unfolding keys
config_keys = keys default_config

-- `setattr`, for a name that is a field.
unfoldable pub set_field : Text → Field → KanibakoConfig → KanibakoConfig
unfolding config_keys
set_field name value cfg = if contains config_keys name then insert name value cfg else cfg

abbrev of_leaf : Leaf → Field
of_leaf (bool b) = switch b
of_leaf (str t) = words t

unfoldable pub set_fields : Dict Text Leaf → KanibakoConfig → KanibakoConfig
unfolding set_field
set_fields [] cfg = cfg
set_fields ((k, v) ∷ flat) cfg = set_fields flat (set_field k (of_leaf v) cfg)

abbrev prefixed : Dict Text Text → Dict Text Text
prefixed [] = []
prefixed ((k, v) ∷ d) = (text "system.path." ++ k, v) ∷ prefixed d

module _ {L : Type 0} where
  -- A mapping, or an empty one where the key is missing.
  unfoldable pub mapping : Option (Value L) → Result ConfigFault (Table L)
  mapping none = ok end
  mapping (some (flag b)) = err not_a_mapping
  mapping (some (word t)) = err not_a_mapping
  mapping (some (other v)) = err not_a_mapping
  mapping (some (table t)) = ok t

  -- The document without its shared section and its system paths.
  unfoldable pub strip_tables : Table L → Table L → Table L
  strip_tables system doc =
      let rest = del (text "path") system in
      if mem (text "system") doc
      then (if is_empty rest then del (text "system") doc else put (text "system") (table rest) doc)
      else doc

  -- The steps of `load_config` on the document.
  unfoldable pub config_of : Show L → Table L → Result ConfigFault KanibakoConfig
  unfolding mapping strip_tables set_fields flatten_toml str_values get del
  config_of show doc = do
    let body = del (text "shared") doc
    system ← mapping (get (text "system") body)
    system_path ← mapping (get (text "path") system)
    shared ← mapping (get (text "shared") doc)
    let cfg =
        insert (text "system_paths") (entries (prefixed (str_values show system_path)))
          default_config
    ok (
        insert (text "shared_caches") (entries (str_values show shared))
          (set_fields (flatten_toml show (strip_tables system body)) cfg))

module _ {F L : Type 0} (yaml : Yaml F L) (show : Show L) where
  unfoldable pub load_config : Option F → Result ConfigFault KanibakoConfig
  unfolding load_doc config_of
  load_config none = ok default_config
  load_config (some content) = config_of show (load_doc yaml (some content))
