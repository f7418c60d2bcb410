-- ===== src/Config/Tests.antt =====
-- Configurations, and the theorems at them.
use kanibako.Prelude.{
  ◌≡◌, refl, true, false, Option, none, some, [], ◌∷◌, arith, Text, text, text_eq, ℕ, ℕ_discrete,
  if◌then◌else◌, contains, ok, err,
}
use kanibako.Prelude.Dict.{Dict, lookup, insert, keys}
use kanibako.Documents.Table.{word, table, Table, end, entry, get, mem, put, del, is_empty}
use kanibako.Documents.Files.{Yaml, Faithful}
use kanibako.Config.Flatten.{Show}
use kanibako.Config.Load.{
  words, switch, entries, KanibakoConfig, no_section, default_config, config_keys, load_config,
}
use kanibako.Config.Merge.{load_merged_config}
use kanibako.Config.Merge.Laws.{over, override, load_merged_config-lookup}
use kanibako.Config.Keys.{parse_config_arg, set_action, resolve_key, place_of, known_config_keys}
use kanibako.Config.Meta.{
  ProjectMeta, Scalars, write_project_meta, read_project_meta, write_global_config,
}
use kanibako.Config.Meta.Global.{Says, InStep, load_config-write_global_config}
use kanibako.Config.Meta.RoundTrip.{as_stored, read_project_meta-write_project_meta}
use kanibako.Config.Interface.{Message, get_config_value, set_config_value, reset_config_value}
use kanibako.Config.Interface.Settings.{
  Setting, crab_setting, resource_override, place, same, shown,
}
use kanibako.Config.Interface.Laws.{
  get_config_value-set_config_value, get_config_value-reset_config_value,
}
use kanibako.Config.Interface.Known.{is_err, unsettable, stored_at, Settled, set_config_value-known}
use kanibako.Config.Reset.{reset_all, raised}

abbrev plain : Yaml (Table ℕ) ℕ
plain = record { safe_load = λ d. some d; safe_dump = λ d. d }

plain-Faithful : Faithful plain
plain-Faithful = record { load-dump = λ d. refl }

abbrev show : Show ℕ
show = record { show_other = λ n. n ∷ []; show_table = λ t. [] }

abbrev scalars : Scalars ℕ
scalars = record { is_truthy = λ n. true; is_hashable = λ n. true; length_of = λ n. none }

abbrev global_file : Table ℕ
global_file = entry (text "box") (table (entry (text "image") (word (text "base")) end)) (
    entry (text "system")
      (table (entry (text "path") (table (entry (text "data") (word (text "/d")) end)) end)) end)

abbrev box_file : Table ℕ
box_file =
    entry (text "box") (table (entry (text "crab") (word (text "claude")) end))
      (entry (text "crab") (table (entry (text "model") (word (text "opus")) end)) end)

parsed : parse_config_arg (some (text " model = opus")) ≡ (set_action, text "model", text "opus")
unfolding parse_config_arg ℕ_discrete
parsed = refl

abbrev base : KanibakoConfig
base =
    (text "paths_project_toml", words (text "project.yaml"))
    ∷ (text "paths_shared", words (text "shared"))
    ∷ (text "paths_shell", words (text "shell"))
    ∷ (text "paths_vault", words (text "vault"))
    ∷ (text "box_image", words (text "base"))
    ∷ (text "box_crab", words [])
    ∷ (text "allow_helpers", switch true)
    ∷ (text "box_share_images", switch false)
    ∷ (text "shared_caches", entries [])
    ∷ (text "system_paths", entries ((text "system.path.data", text "/d") ∷ []))
    ∷ []

abbrev top : KanibakoConfig
top =
    (text "paths_project_toml", words (text "project.yaml"))
    ∷ (text "paths_shared", words (text "shared"))
    ∷ (text "paths_shell", words (text "shell"))
    ∷ (text "paths_vault", words (text "vault"))
    ∷ (text "box_image", words (text "ghcr.io/doctorjei/kanibako-oci:latest"))
    ∷ (text "box_crab", words (text "claude"))
    ∷ (text "allow_helpers", switch true)
    ∷ (text "box_share_images", switch false)
    ∷ (text "shared_caches", entries [])
    ∷ (text "system_paths", entries [])
    ∷ []

base_loads : load_config plain show (some global_file) ≡ ok base
unfolding load_config get put del insert lookup text_eq ℕ_discrete mem is_empty
base_loads = refl

top_loads : load_config plain show (some box_file) ≡ ok top
unfolding load_config get put del insert lookup text_eq ℕ_discrete mem is_empty
top_loads = refl

load_merged_config-lookup_example :
    (cfg : KanibakoConfig) × (load_merged_config plain show
        (some global_file)
        (some (some box_file))
        none
        ((text "box_image", text "new") ∷ [])
      ≡ ok cfg)
    × ((k : Text)
        → lookup k cfg
          ≡ override (contains config_keys k) (lookup k ((text "box_image", text "new") ∷ [])) (
              over k
                (lookup k default_config)
                (lookup k top)
                (over k (lookup k default_config) (lookup k []) (lookup k base))))
unfolding lookup
load_merged_config-lookup_example =
    load_merged_config-lookup plain show (some global_file) (some (some box_file)) none
      ((text "box_image", text "new") ∷ []) (refl, tt) top [] base top_loads refl base_loads

abbrev some_meta : ProjectMeta
some_meta = record {
  mode = text "local";
  layout = text "tree";
  enable_vault = true;
  group_auth = false;
  name = text "a";
  workspace = text "/w";
  shell = text "/s";
  vault_ro = [];
  vault_rw = [];
  metadata = text "/m";
  project_hash = text "0f";
  global_shared = [];
  local_shared = [];
}

abbrev after_meta : Option (Table ℕ)
after_meta = elim (write_project_meta plain (some box_file) some_meta) as (λ r. Option (Table ℕ)) [
  | err e ↦ none
  | ok f ↦ f
]

meta_written : write_project_meta plain (some box_file) some_meta ≡ ok after_meta
unfolding write_project_meta get put text_eq ℕ_discrete
meta_written = refl

read_project_meta-write_project_meta_example :
    read_project_meta plain scalars after_meta ≡ ok (some (as_stored some_meta))
read_project_meta-write_project_meta_example =
    read_project_meta-write_project_meta plain plain-Faithful scalars some_meta (some box_file)
      after_meta (λ p. cc) meta_written

model_place : place_of (resolve_key (text "model")) ≡ place (crab_setting (text "model"))
unfolding resolve_key place_of lookup text_eq ℕ_discrete
model_place = refl

cache_place :
    place_of (resolve_key (text "resource.cache")) ≡ place (resource_override (text "cache"))
unfolding resolve_key place_of lookup text_eq ℕ_discrete
cache_place = refl

model_read :
    get_config_value plain show (text "model") none (some (some box_file)) none none
    ≡ ok (some (text "opus"))
unfolding get_config_value resolve_key place_of lookup get text_eq ℕ_discrete
model_read = refl

get_config_value-set_config_value_example :
    (message : Message) × (after : Option (Table ℕ)) × (set_config_value plain
        (text "resource.cache")
        (text "crab")
        (some box_file)
        none
      ≡ ok (message, after, none))
    × (get_config_value plain show (text "resource.cache") none (some after) none none
        ≡ ok (shown (resource_override (text "cache")) (text "crab")))
    × ((q : Setting) (asked : Text) (before : Option Text)
        → place_of (resolve_key asked) ≡ place q
        → get_config_value plain show asked none (some (some box_file)) none none ≡ ok before
        → get_config_value plain show asked none (some after) none none
          ≡ ok
              (if same q (resource_override (text "cache")) then shown q (text "crab") else before))
get_config_value-set_config_value_example =
    get_config_value-set_config_value plain show plain-Faithful (resource_override (text "cache"))
      (text "resource.cache") (text "crab") cache_place none (some box_file) none none none

get_config_value-reset_config_value_example :
    (message : Message) × (after : Option (Table ℕ)) × (reset_config_value plain
        (text "model")
        (some box_file)
        none
      ≡ ok (message, after, none))
    × ((q : Setting) (asked : Text) (before : Option Text)
        → place_of (resolve_key asked) ≡ place q
        → get_config_value plain show asked none (some (some box_file)) none none ≡ ok before
        → get_config_value plain show asked none (some after) none none
          ≡ ok (if same q (crab_setting (text "model")) then none else before))
get_config_value-reset_config_value_example =
    get_config_value-reset_config_value plain show plain-Faithful (crab_setting (text "model"))
      (text "model") model_place none (some box_file) none none none

set_config_value-known_example :
    (is_err (set_config_value plain (text "box.image") (text "alpine") (some box_file) none)
      ≡ contains unsettable (text "box.image"))
    × Settled plain
        (lookup (text "box.image") stored_at)
        (text "alpine")
        (some box_file)
        none
        (set_config_value plain (text "box.image") (text "alpine") (some box_file) none)
set_config_value-known_example =
    set_config_value-known plain plain-Faithful (text "box.image") (text "alpine") (some box_file)
      none known
  where
    known : contains known_config_keys (text "box.image") ≡ true
    known = ground arith

-- Once a shared cache is set, resetting everything raises.
shared_reset :
    (reset_all plain true show scalars
      (some (entry (text "shared") (table (entry (text "x") (word (text "/x")) end)) end))
      none).0
    ≡ raised (no_section (text "shared_caches"))
unfolding reset_all load_config get put del insert lookup keys text_eq ℕ_discrete
shared_reset = refl

base-Says : Says (text "base") [] false base
unfolding lookup text_eq ℕ_discrete
base-Says = (refl, refl, refl)

load_config-write_global_config_example :
    (after : KanibakoConfig) × (load_config plain show (write_global_config plain (some base))
      ≡ ok after)
    × Says (text "base") [] false after
    × ((paths : Dict Text Text) × (lookup (text "system_paths") after ≡ some (entries paths))
        × InStep paths)
load_config-write_global_config_example =
    load_config-write_global_config plain show plain-Faithful (text "base") [] false base base-Says
