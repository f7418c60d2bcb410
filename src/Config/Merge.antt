-- ===== src/Config/Merge.antt =====
-- `load_merged_config` and `load_project_overrides` of src/kanibako/config.py.
pub mod Laws
use kanibako.Prelude.{
  not, Bool, true, false, ◌&&◌, ◌||◌, Option, none, some, List, [], ◌∷◌, Text, text, ◌==◌, text_eq,
  if◌then◌else◌, Result, ok, err, ◌>>=◌, contains,
}
use kanibako.Prelude.Dict.{Dict, lookup, insert}
use kanibako.Documents.Files.{Yaml}
use kanibako.Config.Flatten.{Show}
use kanibako.Config.Load.{
  Field, words, switch, entries, KanibakoConfig, ConfigFault, default_config, set_field,
  load_config,
}

abbrev is_value : Text → Option Text → Bool
is_value v none = false
is_value v (some w) = v == w

-- Each entry of one dict is one of the other.
unfoldable covers : Dict Text Text → Dict Text Text → Bool
covers [] e = true
covers ((k, v) ∷ d) e = is_value v (lookup k e) && covers d e

-- `==` on the values of fields; dicts are equal whatever the order of their keys.
unfoldable pub same_field : Field → Field → Bool
unfolding covers
same_field (words s) (words t) = s == t
same_field (words s) (switch b) = false
same_field (words s) (entries d) = false
same_field (switch a) (switch b) = if a then b else not b
same_field (switch a) (words t) = false
same_field (switch a) (entries d) = false
same_field (entries d) (entries e) = covers d e && covers e d
same_field (entries d) (words t) = false
same_field (entries d) (switch b) = false

-- One field of a layer, where it has one.
unfoldable pub overlay_field : Text → Field → Option Field → KanibakoConfig → KanibakoConfig
unfolding same_field
overlay_field name default_value none cfg = cfg
overlay_field name default_value (some value) cfg =
    if name == text "system_paths" || same_field value default_value
    then cfg
    else insert name value cfg

-- The fields of a layer that differ from the defaults, over those of a configuration.
unfoldable pub overlay : KanibakoConfig → KanibakoConfig → KanibakoConfig → KanibakoConfig
unfolding overlay_field
overlay [] layer cfg = cfg
overlay ((name, default_value) ∷ fields) layer cfg =
    overlay fields layer (overlay_field name default_value (lookup name layer) cfg)

unfoldable pub set_overrides : Dict Text Text → KanibakoConfig → KanibakoConfig
unfolding set_field
set_overrides [] cfg = cfg
set_overrides ((k, v) ∷ overrides) cfg = set_overrides overrides (set_field k (words v) cfg)

-- The entries of a layer that differ from the defaults.
unfoldable pub differing : KanibakoConfig → KanibakoConfig → KanibakoConfig
unfolding same_field
differing [] layer = []
differing ((name, default_value) ∷ fields) layer =
    let rest = differing fields layer in
    elim (lookup name layer) [
      | none ↦ rest
      | some value ↦ if same_field value default_value then rest else (name, value) ∷ rest
    ]

module _ {F L : Type 0} (yaml : Yaml F L) (show : Show L) where
  -- The outer `none` is a path that was not given.
  unfoldable pub overlay_file :
      Option (Option F) → KanibakoConfig → Result ConfigFault KanibakoConfig
  unfolding load_config overlay
  overlay_file none cfg = ok cfg
  overlay_file (some none) cfg = ok cfg
  overlay_file (some (some content)) cfg = do
    layer ← load_config yaml show (some content)
    ok (overlay default_config layer cfg)

  unfoldable pub load_merged_config :
      Option F
      → Option (Option F)
      → Option (Option F)
      → Dict Text Text
      → Result ConfigFault KanibakoConfig
  unfolding overlay_file set_overrides
  load_merged_config global project workset overrides = do
    cfg ← load_config yaml show global
    cfg ← overlay_file workset cfg
    cfg ← overlay_file project cfg
    ok (set_overrides overrides cfg)

  unfoldable pub load_project_overrides : Option F → Result ConfigFault KanibakoConfig
  unfolding load_config differing
  load_project_overrides none = ok []
  load_project_overrides (some content) = do
    cfg ← load_config yaml show (some content)
    ok (differing default_config cfg)
