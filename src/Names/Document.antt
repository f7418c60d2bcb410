-- ===== src/Names/Document.antt =====
-- `_load` and `_save` of src/kanibako/names.py. The document of names.yaml has values of a type `V`,
-- which `show` (Python's `str`) makes texts and `quote` makes of texts. A document is one whose two
-- sections are mappings where they are there: on any other the source raises, and such files are
-- left out.
use kanibako.Prelude.{
  ◌≡◌, refl, ap, Bool, true, Option, none, some, [], ◌∷◌, arith, Text, text, ◌==◌, text_eq,
  if◌then◌else◌,
}
use kanibako.Prelude.Dict.{Dict, lookup}
use kanibako.Prelude.Sort.{sort, insert_sorted, text_leb}

-- The sections that the callers name.
pub data Section : Type 0 where
  projects worksets : Section

pub record Registry : Type 0 where
  pub projects : Dict Text Text
  pub worksets : Dict Text Text

abbrev pub section_of : Section → Registry → Dict Text Text
section_of projects names = names.projects
section_of worksets names = names.worksets

abbrev pub set_section : Section → Dict Text Text → Registry → Registry
set_section projects entries names = record { projects = entries; worksets = names.worksets }
set_section worksets entries names = record { projects = names.projects; worksets = entries }

abbrev pub section_key : Section → Text
section_key projects = text "projects"
section_key worksets = text "worksets"

abbrev pub name_leb : Text × Text → Text × Text → Bool
name_leb (a, _) (b, _) = text_leb a b

-- `{name: entries[name] for name in sorted(entries)}`
unfoldable pub in_order : Dict Text Text → Dict Text Text
unfolding sort
in_order entries = sort name_leb entries

-- Values behind the keys, changed by a function.
map_values : {A B : Type 0} → (A → B) → Dict Text A → Dict Text B
map_values f [] = []
map_values f ((k, v) ∷ d) = (k, f v) ∷ map_values f d

module _ {V : Type 0} (show : V → Text) (quote : Text → V) where
  -- The document of names.yaml; `none` where there is no file.
  abbrev pub Document : Type 0
  Document = Option (Dict Text (Dict Text V))

  -- `{k: str(v) for k, v in data.get(section, {}).items()}`
  loaded_section : Text → Dict Text (Dict Text V) → Dict Text Text
  unfolding map_values
  loaded_section section sections = elim (lookup section sections) [
    | none ↦ []
    | some entries ↦ map_values show entries
  ]

  unfoldable pub load : Document → Registry
  unfolding loaded_section
  load none = record { projects = []; worksets = [] }
  load (some sections) = record {
    projects = loaded_section (text "projects") sections;
    worksets = loaded_section (text "worksets") sections;
  }

  unfoldable pub save : Registry → Document
  unfolding map_values in_order
  save names = some (
      (text "projects", map_values quote (in_order names.projects))
      ∷ (text "worksets", map_values quote (in_order names.worksets))
      ∷ [])

  unquoted :
      ((t : Text) → show (quote t) ≡ t)
      → (d : Dict Text Text) → map_values show (map_values quote d) ≡ d
  unfolding map_values
  unquoted inverse [] = refl
  unquoted inverse ((k, v) ∷ d) = rw (inverse v) (ap (λ r. (k, v) ∷ r) (unquoted inverse d))

  -- What is saved and loaded again is the registry with each section in the order of its names.
  pub load-save :
      ((t : Text) → show (quote t) ≡ t)
      → (names : Registry)
      → load (save names)
        ≡ record { projects = in_order names.projects; worksets = in_order names.worksets }
  unfolding load save loaded_section lookup text_eq
  load-save inverse names =
      rw (unquoted inverse (in_order names.projects), unquoted inverse (in_order names.worksets))

text_leb_refl : (s : Text) → text_leb s s ≡ true
unfolding text_leb
text_leb_refl [] = refl
text_leb_refl (c ∷ s) = ground (arith, text_leb_refl s)

pub lookup-insert_sorted :
    (k j v : Text) (d : Dict Text Text)
    → lookup k (insert_sorted name_leb (j, v) d) ≡ (if k == j then some v else lookup k d)
unfolding insert_sorted lookup
lookup-insert_sorted k j v [] = refl
lookup-insert_sorted k j v ((i, w) ∷ d) =
    ground (arith, lookup-insert_sorted k j v d, text_leb_refl j)

-- The order does not matter to a lookup.
pub lookup-in_order : (k : Text) (d : Dict Text Text) → lookup k (in_order d) ≡ lookup k d
unfolding in_order sort lookup
lookup-in_order k [] = refl
lookup-in_order k ((j, v) ∷ d) =
    rw (lookup-insert_sorted k j v (in_order d)) (ground (arith, lookup-in_order k d))
