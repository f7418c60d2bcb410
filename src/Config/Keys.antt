-- ===== src/Config/Keys.antt =====
-- The keys of src/kanibako/config_interface.py: which words are keys, what is asked of them, and which
-- store a key belongs to.
use kanibako.Prelude.{
  Bool, false, ◌||◌, Option, none, some, List, [], ◌∷◌, ◌++◌, Text, text, nat_eq, text_eq,
  if◌then◌else◌, contains,
}
use kanibako.Prelude.Dict.{Dict, lookup, has}
use kanibako.Prelude.Strings.{starts_with, strip_prefix, strip}
use kanibako.Env.File.{split_equals}
use kanibako.PathNames.Codec.{replace_char}

abbrev pub known_config_keys : List Text
known_config_keys =
    text "start_mode"
    ∷ text "autonomous"
    ∷ text "model"
    ∷ text "persistence"
    ∷ text "box.image"
    ∷ text "box.crab"
    ∷ text "box.share_images"
    ∷ text "group_auth"
    ∷ text "layout"
    ∷ text "mode"
    ∷ text "vault.enabled"
    ∷ text "vault.ro"
    ∷ text "vault.rw"
    ∷ text "system.path.data"
    ∷ text "system.path.boxes"
    ∷ text "system.path.crabs"
    ∷ text "system.path.comms"
    ∷ text "system.path.templates"
    ∷ text "system.path.ws_hints"
    ∷ text "paths.shell"
    ∷ text "paths.vault"
    ∷ text "paths.shared"
    ∷ text "allow_helpers"
    ∷ []

abbrev pub dynamic_prefixes : List Text
dynamic_prefixes = text "env." ∷ text "resource." ∷ text "shared." ∷ []

abbrev pub key_aliases : Dict Text Text
key_aliases = (text "image", text "box.image") ∷ (text "crab", text "box.crab") ∷ []

unfoldable starts_with_any : List Text → Text → Bool
unfolding starts_with
starts_with_any [] arg = false
starts_with_any (prefix ∷ prefixes) arg = starts_with arg prefix || starts_with_any prefixes arg

unfoldable pub is_known_key : Text → Bool
unfolding starts_with_any
is_known_key arg =
    contains known_config_keys arg || has arg key_aliases || starts_with_any dynamic_prefixes arg

pub data ConfigAction : Type 0 where
  get_action : ConfigAction
  set_action : ConfigAction
  show_action : ConfigAction

unfoldable pub parse_config_arg : Option Text → ConfigAction × Text × Text
unfolding split_equals strip
parse_config_arg none = (show_action, [], [])
parse_config_arg (some arg) = elim (split_equals arg) [
  | none ↦ (get_action, strip arg, [])
  | some halves ↦ (set_action, strip halves.0, strip halves.1)
]

unfoldable pub resolve_key : Text → Text
unfolding lookup
resolve_key raw = elim (lookup raw key_aliases) [ none ↦ raw | some key ↦ key ]

-- Where a canonical key is kept, in the order in which the operations ask.
pub data Place : Type 0 where
  in_env : Text → Place
  in_resources : Text → Place
  in_shared : Text → Place
  in_crab : Text → Place
  in_system_paths : Text → Place
  in_config : Text → Place

unfoldable pub is_crab_setting : Text → Bool
is_crab_setting key = contains (text "model" ∷ text "start_mode" ∷ text "autonomous" ∷ []) key

-- `paths.` becomes `paths_` whatever dots follow; elsewhere every dot becomes an underscore.
unfoldable pub dot_to_flat : Text → Text
unfolding replace_char strip_prefix
dot_to_flat key = elim (strip_prefix key (text "paths.")) [
  | none ↦ replace_char b'.' (text "_") key
  | some leaf ↦ text "paths_" ++ leaf
]

abbrev or_place : Option Text → (Text → Place) → Place → Place
or_place none place next = next
or_place (some name) place next = place name

unfoldable pub place_of : Text → Place
unfolding is_crab_setting dot_to_flat strip_prefix
place_of key = or_place (strip_prefix key (text "env.")) in_env (
    or_place (strip_prefix key (text "resource.")) in_resources (
      or_place (strip_prefix key (text "shared.")) in_shared (
        if is_crab_setting key
        then in_crab key
        else or_place (strip_prefix key (text "system.path.")) in_system_paths
            (in_config (dot_to_flat key)))))
