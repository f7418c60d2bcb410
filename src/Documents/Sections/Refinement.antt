-- ===== src/Documents/Sections/Refinement.antt =====
-- A configuration file as a store from sections and keys to values.
use mathlib.Core.Path.{fun_ext, ap₂}
use kanibako.Prelude.{
  ◌≡◌, refl, ap, ◌∙◌, sym, Bool, true, false, ◌&&◌, Option, none, some, List, [], ◌∷◌, arith, Text,
  ◌==◌, text_eq, if◌then◌else◌, Option-cases, inl, inr,
}
use kanibako.Documents.Table.{Value, get, mem}
use kanibako.Documents.Files.{Yaml, Faithful, load_doc, dump_doc, load_doc-dump_doc}
use kanibako.Documents.Sections.{as_table, read, remove, write_toml_key, remove_toml_key}
use kanibako.Documents.Sections.Laws.{read-write, read-remove}

-- The calls of a client.
pub data Call (L : Type 0) : Type 0 where
  write_key : Text → Text → Value L → Call L
  remove_key : Text → Text → Call L

-- The abstract store.
abbrev pub Store : Type 0 → Type 0
Store L = Text → Text → Option (Value L)

abbrev is_some : {A : Type 0} → Option A → Bool
is_some none = false
is_some (some a) = true

module _ {L : Type 0} where
  abbrev pub update : Text → Text → Option (Value L) → Store L → Store L
  update section key value store = λ s k. if s == section && k == key then value else store s k

  -- The answers of the removals, and the store after the calls.
  pub replay : List (Call L) → Store L → List Bool × Store L
  replay [] store = ([], store)
  replay (write_key section key value ∷ calls) store =
      replay calls (update section key (some value) store)
  replay (remove_key section key ∷ calls) store =
      let (answers, last) = replay calls (update section key none store) in
      (is_some (store section key) ∷ answers, last)

module _ {F L : Type 0} (yaml : Yaml F L) where
  unfoldable pub run : List (Call L) → Option F → List Bool × Option F
  run [] file = ([], file)
  run (write_key section key value ∷ calls) file =
      run calls (write_toml_key yaml file section key value)
  run (remove_key section key ∷ calls) file =
      let (found, after) = remove_toml_key yaml file section key in
      let (answers, last) = run calls after in (found ∷ answers, last)

  -- What a file says of each key.
  abbrev pub view : Option F → Store L
  view file = λ s k. read s k (load_doc yaml file)

  module _ (faithful : Faithful yaml) where
    view-write_toml_key :
        (file : Option F) (section key : Text) (value : Value L)
        → view (write_toml_key yaml file section key value)
          ≡ update section key (some value) (view file)
    unfolding write_toml_key
    view-write_toml_key file section key value = fun_ext λ s. fun_ext λ k.
        ap (read s k) (load_doc-dump_doc yaml faithful _)
        ∙ read-write s k section key value (load_doc yaml file)

    unchanged :
        (store : Store L) (section key : Text)
        → store section key ≡ none
        → store ≡ update section key none store
    unchanged store section key h = fun_ext λ s. fun_ext λ k. ground arith

    view-removed :
        (content : F) (section key : Text)
        → view (dump_doc yaml (remove section key (load_doc yaml (some content))))
          ≡ update section key none (view (some content))
    view-removed content section key = fun_ext λ s. fun_ext λ k.
        ap (read s k) (load_doc-dump_doc yaml faithful _)
        ∙ read-remove s k section key (load_doc yaml (some content))

    removed :
        (content : F) (section key : Text)
        → ((remove_toml_key yaml (some content) section key).0
            ≡ is_some (view (some content) section key))
          × (view (remove_toml_key yaml (some content) section key).1
              ≡ update section key none (view (some content)))
    unfolding remove_toml_key mem
    removed content section key = elim (Option-cases (view (some content) section key)) [
      | inl e ↦ rw (remove_toml_key, mem, e) (refl, unchanged (view (some content)) section key e)
      | inr (v, e) ↦ rw (remove_toml_key, mem, e) (refl, view-removed content section key)
    ]

    removed_none :
        (section key : Text)
        → (is_some (view none section key) ≡ false)
          × (view none ≡ update section key none (view none))
    unfolding load_doc get as_table
    removed_none section key = (refl, unchanged (view none) section key refl)

    view-remove_toml_key :
        (file : Option F) (section key : Text)
        → ((remove_toml_key yaml file section key).0 ≡ is_some (view file section key))
          × (view (remove_toml_key yaml file section key).1 ≡ update section key none (view file))
    unfolding remove_toml_key
    view-remove_toml_key none section key = let (a, b) = removed_none section key in (sym a, b)
    view-remove_toml_key (some content) section key = removed content section key

    -- Over a YAML library that reads back what it writes, a configuration file refines a store:
    -- whatever keys are written and removed, in whatever order, the removals answer as they do on
    -- a function from sections and keys to values, and at the end the file says of every key what
    -- that function says.
    pub run_refines :
        (calls : List (Call L)) (file : Option F)
        → ((run calls file).0 ≡ (replay calls (view file)).0)
          × (view (run calls file).1 ≡ (replay calls (view file)).1)
    unfolding run replay
    run_refines [] file = (refl, refl)
    run_refines (write_key section key value ∷ calls) file =
        let (a, b) = run_refines calls (write_toml_key yaml file section key value) in
        let e = view-write_toml_key file section key value in
        (a ∙ ap (λ s. (replay calls s).0) e, b ∙ ap (λ s. (replay calls s).1) e)
    run_refines (remove_key section key ∷ calls) file =
        let (a, b) = run_refines calls (remove_toml_key yaml file section key).1 in
        let (found, e) = view-remove_toml_key file section key in
        (
          ap₂ (λ x xs. x ∷ xs) found (a ∙ ap (λ s. (replay calls s).0) e),
          b ∙ ap (λ s. (replay calls s).1) e,
        )
