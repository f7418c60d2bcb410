-- ===== src/Config/Interface/Known.antt =====
-- Which of the known keys can be set, and where the file keeps them.
use mathlib.Core.Path.{subst}
use kanibako.Prelude.{
  ◌≡◌, refl, ap, ◌∙◌, some, none, Bool, true, false, Option, List, [], ◌∷◌, ◌++◌, arith, Text, text,
  text_eq, contains, All, Result, ok, err, ℕ_discrete,
}
use kanibako.Prelude.Dict.{Dict, lookup}
use kanibako.Documents.Table.{word}
use kanibako.Documents.Files.{Yaml, Faithful, load_doc, dump_doc, load_doc-dump_doc}
use kanibako.Documents.Sections.{write, read_in, write_in, write_toml_key, write_nested_toml_key}
use kanibako.Documents.Sections.Nested.{Apart, read_in-write_in}
use kanibako.Config.Load.{ConfigFault}
use kanibako.Config.Keys.{known_config_keys, resolve_key, place_of, dot_to_flat}
use kanibako.Config.Sections.{split_config_key, write_project_config_key}
use kanibako.Config.Interface.{Message, has_set, set_config_value}

abbrev pub is_err : {E A : Type 0} → Result E A → Bool
is_err (err e) = true
is_err (ok a) = false

-- Known keys that belong to no section.
abbrev pub unsettable : List Text
unsettable =
    text "persistence"
    ∷ text "group_auth"
    ∷ text "layout"
    ∷ text "mode"
    ∷ text "vault.enabled"
    ∷ text "vault.ro"
    ∷ text "vault.rw"
    ∷ text "allow_helpers"
    ∷ []

All-contains :
    (P : Text → Type 0) (keys : List Text) (key : Text)
    → All P keys
    → contains keys key ≡ true
    → P key
All-contains P [] key h k = cc
All-contains P (x ∷ keys) key (h, hs) k = elim (text_eq.dec x key) [
  | yes p ↦ subst P p h
  | no n ↦ All-contains P keys key hs (ground arith)
]

-- The other known keys, each with the sections, from the outermost, and the name it has there.
abbrev pub stored_at : Dict Text (List Text × Text)
stored_at =
    (text "start_mode", (text "crab" ∷ [], text "start_mode"))
    ∷ (text "autonomous", (text "crab" ∷ [], text "autonomous"))
    ∷ (text "model", (text "crab" ∷ [], text "model"))
    ∷ (text "box.image", (text "box" ∷ [], text "image"))
    ∷ (text "box.crab", (text "box" ∷ [], text "crab"))
    ∷ (text "box.share_images", (text "box" ∷ [], text "share_images"))
    ∷ (text "system.path.data", (text "system" ∷ text "path" ∷ [], text "data"))
    ∷ (text "system.path.boxes", (text "system" ∷ text "path" ∷ [], text "boxes"))
    ∷ (text "system.path.crabs", (text "system" ∷ text "path" ∷ [], text "crabs"))
    ∷ (text "system.path.comms", (text "system" ∷ text "path" ∷ [], text "comms"))
    ∷ (text "system.path.templates", (text "system" ∷ text "path" ∷ [], text "templates"))
    ∷ (text "system.path.ws_hints", (text "system" ∷ text "path" ∷ [], text "ws_hints"))
    ∷ (text "paths.shell", (text "paths" ∷ [], text "shell"))
    ∷ (text "paths.vault", (text "paths" ∷ [], text "vault"))
    ∷ (text "paths.shared", (text "paths" ∷ [], text "shared"))
    ∷ []

infixr 3 ◌⨾◌
abbrev ◌⨾◌ : {A B : Type 0} → A → B → A × B
a ⨾ b = (a, b)

module _ {F L : Type 0} (yaml : Yaml F L) where
  -- The result of setting a key to be found at a place of the file: there the text, and whatever
  -- stands neither above nor below it as before.
  abbrev pub Written :
      List Text × Text
      → Text
      → Option F
      → Option (Option Text)
      → Result ConfigFault (Message × Option F × Option (Option Text))
      → Type 0
  Written (path, leaf) value file env result =
      (message : Message) × (after : Option F) × (result ≡ ok (message, after, env))
      × (read_in path leaf (load_doc yaml after) ≡ some (word value))
      × ((other : List Text) (j : Text)
          → Apart other j path leaf
          → read_in other j (load_doc yaml after) ≡ read_in other j (load_doc yaml file))

  -- A key without a place raises.
  abbrev pub Settled :
      Option (List Text × Text)
      → Text
      → Option F
      → Option (Option Text)
      → Result ConfigFault (Message × Option F × Option (Option Text))
      → Type 0
  Settled none value file env result = is_err result ≡ true
  Settled (some at) value file env result = Written at value file env result

  Told : Text → Option F → Option (Option Text) → Text → Type 0
  Told value file env key =
      (is_err (set_config_value yaml key value file env) ≡ contains unsettable key)
      × Settled (lookup key stored_at) value file env (set_config_value yaml key value file env)

  module _ (faithful : Faithful yaml) where
    write_in-Written :
        (path : List Text) (leaf value : Text) (file : Option F) (env : Option (Option Text))
        (message : Message)
        → Written
            (path, leaf)
            value
            file
            env
            (ok
              (message, dump_doc yaml (write_in path leaf (word value) (load_doc yaml file)), env))
    write_in-Written path leaf value file env message =
        let doc = load_doc yaml file in
        let doc' = write_in path leaf (word value) doc in
        let reloaded = load_doc-dump_doc yaml faithful doc' in
        let (here, others) = read_in-write_in path leaf (word value) doc in
        (
          message,
          dump_doc yaml doc',
          refl,
          ap (read_in path leaf) reloaded ∙ here,
          λ other j apart. ap (read_in other j) reloaded ∙ others other j apart,
        )

    known-Told :
        (value : Text) (file : Option F) (env : Option (Option Text))
        → All (Told value file env) known_config_keys
    unfolding Told set_config_value resolve_key place_of lookup text_eq ℕ_discrete write_toml_key
        write_nested_toml_key write write_in write_project_config_key split_config_key dot_to_flat
    known-Told value file env =
        let crab =
          λ (k : Text). write_in-Written (text "crab" ∷ []) k value file env (has_set k value) in
        let box = λ (k : Text).
          write_in-Written (text "box" ∷ []) k value file env (has_set (text "box_" ++ k) value) in
        let paths = λ (k : Text).
          write_in-Written (text "paths" ∷ []) k value file env
            (has_set (text "paths_" ++ k) value) in
        let system = λ (k : Text).
          write_in-Written (text "system" ∷ text "path" ∷ []) k value file env
            (has_set (text "system.path." ++ k) value) in
        (refl, crab (text "start_mode"))
        ⨾ (refl, crab (text "autonomous"))
        ⨾ (refl, crab (text "model"))
        ⨾ (refl, refl)
        ⨾ (refl, box (text "image"))
        ⨾ (refl, box (text "crab"))
        ⨾ (refl, box (text "share_images"))
        ⨾ (refl, refl)
        ⨾ (refl, refl)
        ⨾ (refl, refl)
        ⨾ (refl, refl)
        ⨾ (refl, refl)
        ⨾ (refl, refl)
        ⨾ (refl, system (text "data"))
        ⨾ (refl, system (text "boxes"))
        ⨾ (refl, system (text "crabs"))
        ⨾ (refl, system (text "comms"))
        ⨾ (refl, system (text "templates"))
        ⨾ (refl, system (text "ws_hints"))
        ⨾ (refl, paths (text "shell"))
        ⨾ (refl, paths (text "vault"))
        ⨾ (refl, paths (text "shared"))
        ⨾ (refl, refl)
        ⨾ tt

    pub set_config_value-known :
        (key value : Text) (file : Option F) (env : Option (Option Text))
        → contains known_config_keys key ≡ true
        → (is_err (set_config_value yaml key value file env) ≡ contains unsettable key)
          × Settled (lookup key stored_at) value file env (set_config_value yaml key value file env)
    unfolding Told
    set_config_value-known key value file env h =
        All-contains (Told value file env) known_config_keys key (known-Told value file env) h
