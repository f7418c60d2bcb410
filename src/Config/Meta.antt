-- ===== src/Config/Meta.antt =====
-- `write_project_meta`, `read_project_meta` and `write_global_config` of src/kanibako/config.py.
pub mod RoundTrip
pub mod Global
use kanibako.Prelude.{
  ℕ, Bool, true, false, ◌&&◌, not, Option, none, some, List, [], ◌∷◌, Text, text, ◌==◌, text_eq,
  if◌then◌else◌, Result, ok, err, ◌>>=◌,
}
use kanibako.Prelude.Dict.{Dict, lookup}
use kanibako.Documents.Table.{
  Value, flag, word, other, table, Table, end, entry, get, mem, put, is_empty,
}
use kanibako.Documents.Files.{Yaml, load_doc, dump_doc}
use kanibako.Config.Flatten.{of_entries}
use kanibako.Config.Load.{
  ConfigFault, not_a_mapping, mapping, Field, words, switch, entries, KanibakoConfig,
  default_config,
}

-- The fields that are written.
pub record ProjectMeta : Type 0 where
  pub mode : Text
  pub layout : Text
  pub enable_vault : Bool
  pub group_auth : Bool
  pub name : Text
  pub workspace : Text
  pub shell : Text
  pub vault_ro : Text
  pub vault_rw : Text
  pub metadata : Text
  pub project_hash : Text
  pub global_shared : Text
  pub local_shared : Text

-- The fields that are read may be any value.
pub record StoredMeta (L : Type 0) : Type 0 where
  pub stored_mode : Value L
  pub stored_layout : Value L
  pub stored_enable_vault : Value L
  pub stored_group_auth : Value L
  pub stored_name : Value L
  pub stored_workspace : Value L
  pub stored_shell : Value L
  pub stored_vault_ro : Value L
  pub stored_vault_rw : Value L
  pub stored_metadata : Value L
  pub stored_project_hash : Value L
  pub stored_global_shared : Value L
  pub stored_local_shared : Value L

-- Python's truth of the other YAML values, whether they can be hashed, and how many elements `list`
-- gives.
pub record Scalars (L : Type 0) : Type 0 where
  pub is_truthy : L → Bool
  pub is_hashable : L → Bool
  pub length_of : L → Option ℕ

abbrev pub mode_compat : Dict Text Text
mode_compat =
    (text "account_centric", text "default")
    ∷ (text "decentralized", text "standalone")
    ∷ (text "local", text "default")
    ∷ []

unfoldable pub current_mode : Text → Text
unfolding lookup
current_mode raw = elim (lookup raw mode_compat) [ none ↦ raw | some mode ↦ mode ]

module _ {L : Type 0} where
  -- `{"mode": …, …}`
  abbrev pub base_section : ProjectMeta → Table L
  base_section m = entry (text "mode") (word m.mode) (
      entry (text "layout") (word m.layout) (
        entry (text "enable_vault") (flag m.enable_vault)
          (entry (text "group_auth") (flag m.group_auth) end)))

  -- A name is written only if there is one.
  unfoldable pub with_name : Text → Table L → Table L
  unfolding put
  with_name [] section = section
  with_name (c ∷ s) section = put (text "name") (word (c ∷ s)) section

  unfoldable pub project_section : ProjectMeta → Table L
  unfolding with_name
  project_section m = with_name m.name (base_section m)

  unfoldable pub resolved_section : ProjectMeta → Table L → Table L
  unfolding put
  resolved_section m resolved = put (text "local_shared") (word m.local_shared) (
      put (text "global_shared") (word m.global_shared) (
        put (text "project_hash") (word m.project_hash) (
          put (text "metadata") (word m.metadata) (
            put (text "vault_rw") (word m.vault_rw) (
              put (text "vault_ro") (word m.vault_ro) (
                put (text "shell") (word m.shell)
                  (put (text "workspace") (word m.workspace) resolved)))))))

  -- `d.get(key, v)`
  abbrev pub or_value : Value L → Option (Value L) → Value L
  or_value v none = v
  or_value v (some w) = w

  abbrev pub get_or : Text → Value L → Table L → Value L
  get_or key v d = or_value v (get key d)

  -- `tree` is the old name of `robust`.
  unfoldable pub current_layout : Value L → Value L
  current_layout (flag b) = flag b
  current_layout (word t) = if t == text "tree" then word (text "robust") else word t
  current_layout (other v) = other v
  current_layout (table t) = table t

  -- The section of resolved paths, or the one that was so named before.
  abbrev pub resolved_of : Table L → Option (Value L)
  resolved_of doc = elim (get (text "resolved") doc) [
    | none ↦ get (text "paths") doc
    | some v ↦ some v
  ]

  unfoldable pub stored_meta : Value L → Table L → Table L → StoredMeta L
  unfolding current_layout get
  stored_meta mode project resolved = record {
    stored_mode = mode;
    stored_layout = current_layout (get_or (text "layout") (word []) project);
    stored_enable_vault = get_or (text "enable_vault") (flag true) project;
    stored_group_auth = get_or (text "group_auth") (flag true) project;
    stored_name = get_or (text "name") (word []) project;
    stored_workspace = get_or (text "workspace") (word []) resolved;
    stored_shell = get_or (text "shell") (word []) resolved;
    stored_vault_ro = get_or (text "vault_ro") (word []) resolved;
    stored_vault_rw = get_or (text "vault_rw") (word []) resolved;
    stored_metadata = get_or (text "metadata") (word []) resolved;
    stored_project_hash = get_or (text "project_hash") (word []) resolved;
    stored_global_shared = get_or (text "global_shared") (word []) resolved;
    stored_local_shared = get_or (text "local_shared") (word []) resolved;
  }

  module _ (scalars : Scalars L) where
    -- The mode under its present name; `none` where it is missing or falsy.
    unfoldable pub mode_of : Option (Value L) → Result ConfigFault (Option (Value L))
    unfolding current_mode is_empty
    mode_of none = ok none
    mode_of (some (flag b)) = ok (if b then some (flag b) else none)
    mode_of (some (word t)) = ok (if t == [] then none else some (word (current_mode t)))
    mode_of (some (other v)) =
        if scalars.is_truthy v
        then (if scalars.is_hashable v then ok (some (other v)) else err not_a_mapping)
        else ok none
    mode_of (some (table t)) = if is_empty t then ok none else err not_a_mapping

    unfoldable pub meta_of :
        Table L → Table L → Option (Value L) → Result ConfigFault (Option (StoredMeta L))
    unfolding mapping stored_meta get
    meta_of doc project none = ok none
    meta_of doc project (some mode) = do
      resolved ← mapping (resolved_of doc)
      ok (some (stored_meta mode project resolved))

    unfoldable pub meta_at : Table L → Result ConfigFault (Option (StoredMeta L))
    unfolding mapping get mode_of meta_of
    meta_at doc = do
      project ← mapping (get (text "project") doc)
      mode ← mode_of (get (text "mode") project)
      meta_of doc project mode

module _ {F L : Type 0} (yaml : Yaml F L) where
  unfoldable pub write_project_meta : Option F → ProjectMeta → Result ConfigFault (Option F)
  unfolding load_doc dump_doc put get mapping project_section resolved_section
  write_project_meta file m = do
    let doc = put (text "project") (table (project_section m)) (load_doc yaml file)
    resolved ← mapping (get (text "resolved") doc)
    ok (dump_doc yaml (put (text "resolved") (table (resolved_section m resolved)) doc))

  unfoldable pub read_project_meta :
      Scalars L → Option F → Result ConfigFault (Option (StoredMeta L))
  unfolding load_doc meta_at
  read_project_meta scalars none = ok none
  read_project_meta scalars (some content) = meta_at scalars (load_doc yaml (some content))

abbrev value_of : {L : Type 0} → Option Field → Value L
value_of none = word []
value_of (some (words t)) = word t
value_of (some (switch b)) = flag b
value_of (some (entries d)) = table (of_entries d)

-- The expressions that a new global file starts with.
abbrev pub global_paths : {L : Type 0} → Table L
global_paths = entry (text "data") (word (text "$XDG_DATA_HOME/kanibako")) (
    entry (text "boxes") (word (text "@system.path.data/boxes")) (
      entry (text "crabs") (word (text "@system.path.data/crabs")) (
        entry (text "comms") (word (text "@system.path.data/comms")) (
          entry (text "templates") (word (text "@system.path.data/templates"))
            (entry (text "ws_hints") (word (text "@system.path.data/worksets.yaml")) end)))))

-- A configuration has all its fields.
unfoldable pub global_document : {L : Type 0} → KanibakoConfig → Table L
unfolding lookup
global_document cfg = entry (text "system") (table (entry (text "path") (table global_paths) end)) (
    entry (text "box")
      (table (
        entry (text "image") (value_of (lookup (text "box_image") cfg)) (
          entry (text "crab") (value_of (lookup (text "box_crab") cfg))
            (entry (text "share_images") (value_of (lookup (text "box_share_images") cfg)) end))))
      (entry (text "shared") (table end) end))

unfoldable pub write_global_config : {F L : Type 0} → Yaml F L → Option KanibakoConfig → Option F
unfolding global_document dump_doc
write_global_config yaml none = dump_doc yaml (global_document default_config)
write_global_config yaml (some cfg) = dump_doc yaml (global_document cfg)
