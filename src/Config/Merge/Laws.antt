-- ===== src/Config/Merge/Laws.antt =====
-- Which layer decides a field of the merged configuration.
use kanibako.Prelude.{
  ◌≡◌, refl, ap, ◌∙◌, Bool, ◌&&◌, ◌||◌, Option, none, some, [], ◌∷◌, arith, Text, text, ◌==◌,
  text_eq, if◌then◌else◌, Bool-cases, inl, inr, Result, ok, contains, ℕ_discrete,
}
use kanibako.Prelude.Dict.{Dict, lookup, lookup-insert}
use kanibako.Documents.Files.{Yaml}
use kanibako.Env.RoundTrip.{Distinct}
use kanibako.Config.Flatten.{Show}
use kanibako.Config.Load.{
  Field, words, KanibakoConfig, ConfigFault, default_config, config_keys, set_field, load_config,
}
use kanibako.Config.Merge.{
  same_field, overlay_field, overlay, set_overrides, overlay_file, load_merged_config,
}

-- What a layer says of a field over what lay below it: nothing, if it has the default there.
abbrev pub over : Text → Option Field → Option Field → Option Field → Option Field
over name none layer below = below
over name (some default_value) none below = below
over name (some default_value) (some value) below =
    if name == text "system_paths" || same_field value default_value then below else some value

abbrev AllNew : KanibakoConfig → Type 0
AllNew [] = Unit
AllNew ((name, default_value) ∷ fields) = (lookup name fields ≡ none) × AllNew fields

lookup-overlay_field :
    (k name : Text) (default_value : Field) (value : Option Field) (cfg : KanibakoConfig)
    → lookup k (overlay_field name default_value value cfg)
      ≡ (if k == name then over name (some default_value) value (lookup k cfg) else lookup k cfg)
unfolding overlay_field
lookup-overlay_field k name default_value none cfg = ground arith
lookup-overlay_field k name default_value (some value) cfg =
    elim (Bool-cases (name == text "system_paths" || same_field value default_value)) [
      | inl e ↦ rw (overlay_field, e) (ground arith)
      | inr e ↦ rw (overlay_field, e) (lookup-insert k name value cfg)
    ]

decided :
    (k name : Text) (default_value : Field) (fields : KanibakoConfig)
    (layer layer' below : Option Field)
    → lookup name fields ≡ none
    → (k ≡ name → layer ≡ layer')
    → over k
        (lookup k fields)
        layer
        (if k == name then over name (some default_value) layer' below else below)
      ≡ over k (if k == name then some default_value else lookup k fields) layer below
decided k name default_value fields layer layer' below h e = elim (text_eq.dec k name) [
  | yes p ↦ rw (e p, p, h) (ground arith)
  | no n ↦ ground arith
]

lookup-overlay :
    (k : Text) (fields layer cfg : KanibakoConfig)
    → AllNew fields
    → lookup k (overlay fields layer cfg) ≡ over k (lookup k fields) (lookup k layer) (lookup k cfg)
unfolding overlay lookup
lookup-overlay k [] layer cfg h = refl
lookup-overlay k ((name, default_value) ∷ fields) layer cfg (h, hs) =
    lookup-overlay k fields layer (overlay_field name default_value (lookup name layer) cfg) hs
    ∙ ap (over k (lookup k fields) (lookup k layer))
        (lookup-overlay_field k name default_value (lookup name layer) cfg)
    ∙ decided k name default_value fields (lookup k layer) (lookup name layer) (lookup k cfg) h
        (λ p. ap (λ n. lookup n layer) p)

-- The fields have distinct names.
fields-AllNew : AllNew default_config
unfolding lookup text_eq ℕ_discrete
fields-AllNew = (refl, (refl, (refl, (refl, (refl, (refl, (refl, (refl, (refl, (refl, tt))))))))))

lookup-set_field :
    (k name : Text) (value : Field) (cfg : KanibakoConfig)
    → lookup k (set_field name value cfg)
      ≡ (if k == name && contains config_keys name then some value else lookup k cfg)
unfolding set_field
lookup-set_field k name value cfg = elim (Bool-cases (contains config_keys name)) [
  | inl e ↦ rw (set_field, e) (lookup-insert k name value cfg ∙ ground arith)
  | inr e ↦ rw (set_field, e) (ground arith)
]

-- What the command line says of a field.
abbrev pub override : Bool → Option Text → Option Field → Option Field
override known none below = below
override known (some value) below = if known then some (words value) else below

overridden :
    (k name value : Text) (overrides : Dict Text Text) (below : Option Field)
    → lookup name overrides ≡ none
    → override
        (contains config_keys k)
        (lookup k overrides)
        (if k == name && contains config_keys name then some (words value) else below)
      ≡ override
          (contains config_keys k)
          (if k == name then some value else lookup k overrides)
          below
overridden k name value overrides below h = elim (text_eq.dec k name) [
  | yes p ↦ rw (p, h) (ground arith)
  | no n ↦ ground arith
]

lookup-set_overrides :
    (k : Text) (overrides : Dict Text Text) (cfg : KanibakoConfig)
    → Distinct overrides
    → lookup k (set_overrides overrides cfg)
      ≡ override (contains config_keys k) (lookup k overrides) (lookup k cfg)
unfolding set_overrides lookup
lookup-set_overrides k [] cfg h = refl
lookup-set_overrides k ((name, value) ∷ overrides) cfg (h, hs) =
    lookup-set_overrides k overrides (set_field name (words value) cfg) hs
    ∙ ap (override (contains config_keys k) (lookup k overrides))
        (lookup-set_field k name (words value) cfg)
    ∙ overridden k name value overrides (lookup k cfg) h

nothing_over :
    (k : Text) (layer : KanibakoConfig) (default_value below : Option Field)
    → [] ≡ layer
    → below ≡ over k default_value (lookup k layer) below
unfolding lookup
nothing_over k layer none below h = refl
nothing_over k layer (some d) below h = ap (λ l. over k (some d) (lookup k l) below) h

module _ {F L : Type 0} (yaml : Yaml F L) (show : Show L) where
  -- What a file adds as a layer; one that is missing adds nothing.
  abbrev pub layer_of : Option (Option F) → Result ConfigFault KanibakoConfig
  layer_of none = ok []
  layer_of (some none) = ok []
  layer_of (some (some content)) = load_config yaml show (some content)

  lookup-overlay_file :
      (file : Option (Option F)) (layer cfg : KanibakoConfig)
      → layer_of file ≡ ok layer
      → (after : KanibakoConfig) × (overlay_file yaml show file cfg ≡ ok after)
        × ((k : Text)
            → lookup k after ≡ over k (lookup k default_config) (lookup k layer) (lookup k cfg))
  unfolding overlay_file
  lookup-overlay_file none layer cfg h =
      (cfg, refl, λ k. nothing_over k layer (lookup k default_config) (lookup k cfg) cc)
  lookup-overlay_file (some none) layer cfg h =
      (cfg, refl, λ k. nothing_over k layer (lookup k default_config) (lookup k cfg) cc)
  lookup-overlay_file (some (some content)) layer cfg h = (
    overlay default_config layer cfg,
    rw h refl,
    λ k. lookup-overlay k default_config layer cfg fields-AllNew,
  )

  -- Which layer decides each field of the merged configuration, where the files load and the keys of
  -- the command line are distinct: a field that the command line names has its value; otherwise the
  -- project's, else the workset's, else the global file's, where a layer counts only if its value
  -- differs from the default, and where the system paths are always the global file's.
  pub load_merged_config-lookup :
      (global : Option F) (project workset : Option (Option F)) (overrides : Dict Text Text)
      → Distinct overrides
      → (top low base : KanibakoConfig) → layer_of project ≡ ok top
      → layer_of workset ≡ ok low
      → load_config yaml show global ≡ ok base
      → (cfg : KanibakoConfig) × (load_merged_config yaml show global project workset overrides
          ≡ ok cfg)
        × ((k : Text)
            → let default_value = lookup k default_config in
              lookup k cfg
              ≡ override (contains config_keys k) (lookup k overrides) (
                  over k default_value
                    (lookup k top)
                    (over k default_value (lookup k low) (lookup k base))))
  unfolding load_merged_config
  load_merged_config-lookup global project workset overrides distinct top low base h j i =
      let (a, a_ok, a_is) = lookup-overlay_file workset low base j in
      let (b, b_ok, b_is) = lookup-overlay_file project top a h in
      (
        set_overrides overrides b,
        rw (i, a_ok, b_ok) refl,
        λ k.
            lookup-set_overrides k overrides b distinct
            ∙ ap (override (contains config_keys k) (lookup k overrides))
                (b_is k ∙ ap (over k (lookup k default_config) (lookup k top)) (a_is k)),
      )
