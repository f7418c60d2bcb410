-- ===== src/Config/Meta/Global.antt =====
-- A global file that was written is loaded.
use kanibako.Prelude.{◌≡◌, refl, ap, ◌∙◌, Bool, some, Text, text, text_eq, ℕ_discrete, ok, All}
use kanibako.Prelude.Dict.{Dict, lookup, insert}
use kanibako.Documents.Table.{Table, get, put, del, mem, is_empty}
use kanibako.Documents.Files.{Yaml, Faithful, dump_doc, load_doc-dump_doc}
use kanibako.Settings.SystemPaths.{system_path_defaults}
use kanibako.Config.Flatten.{Show}
use kanibako.Config.Load.{words, switch, entries, KanibakoConfig, config_of, load_config}
use kanibako.Config.Meta.{global_document, write_global_config}

-- What a file says that was written from an image, an agent and the sharing of images.
abbrev pub Says : Text → Text → Bool → KanibakoConfig → Type 0
Says image crab share_images cfg =
    (lookup (text "box_image") cfg ≡ some (words image))
    × (lookup (text "box_crab") cfg ≡ some (words crab))
    × (lookup (text "box_share_images") cfg ≡ some (switch share_images))

-- Every path is the default of the resolver.
abbrev pub InStep : Dict Text Text → Type 0
InStep paths = All (λ (key, value). lookup key system_path_defaults ≡ some value) paths

module _ {L : Type 0} (show : Show L) where
  Loads : Text → Text → Bool → Table L → Type 0
  Loads image crab share_images doc =
      (after : KanibakoConfig) × (config_of show doc ≡ ok after)
      × Says image crab share_images after
      × ((paths : Dict Text Text) × (lookup (text "system_paths") after ≡ some (entries paths))
          × InStep paths)

  config_of-global_document :
      (image crab : Text) (share_images : Bool) (cfg : KanibakoConfig)
      → Says image crab share_images cfg
      → Loads image crab share_images (global_document cfg)
  unfolding Loads config_of global_document lookup insert get put del mem is_empty text_eq
      ℕ_discrete
  config_of-global_document image crab share_images cfg (h, k, l) =
      rw (global_document, h, k, l)
        (_, refl, (refl, refl, refl), (_, refl, (refl, (refl, (refl, (refl, (refl, (refl, tt))))))))

module _ {F L : Type 0} (yaml : Yaml F L) (show : Show L) (faithful : Faithful yaml) where
  -- Over a YAML library that reads back what it writes, a global file that was written from a
  -- configuration loads, with the image, the agent and the sharing of images of that
  -- configuration; and each system path that it sets is the default expression that the resolver
  -- of system paths has for it.
  pub load_config-write_global_config :
      (image crab : Text) (share_images : Bool) (cfg : KanibakoConfig)
      → Says image crab share_images cfg
      → (after : KanibakoConfig) × (load_config yaml show (write_global_config yaml (some cfg))
          ≡ ok after)
        × Says image crab share_images after
        × ((paths : Dict Text Text) × (lookup (text "system_paths") after ≡ some (entries paths))
            × InStep paths)
  unfolding load_config write_global_config dump_doc Loads
  load_config-write_global_config image crab share_images cfg h =
      let (after, loads, says, paths) =
        config_of-global_document show image crab share_images cfg h in
      (
        after,
        ap (config_of show) (load_doc-dump_doc yaml faithful (global_document cfg)) ∙ loads,
        says,
        paths,
      )
