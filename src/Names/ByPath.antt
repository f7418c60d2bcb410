-- ===== src/Names/ByPath.antt =====
-- What `lookup_by_path` of src/kanibako/names.py finds.
use mathlib.Core.Path.{subst}
use mathlib.Core.List.{Mem, mem-cons_self, mem-cons_of_mem}
use kanibako.Prelude.{◌≡◌, ◌≢◌, refl, Option, none, some, [], ◌∷◌, All, arith, Text, text_eq}
use kanibako.Prelude.Dict.{Dict}
use kanibako.Names.Document.{Section, projects, worksets, Registry, Document, load}
use kanibako.Names.Registry.{find_path, lookup_by_path}

abbrev Elsewhere : (Text → Text) → Text → Dict Text Text → Type 0
Elsewhere resolve path entries = All (λ e. resolve e.1 ≢ resolve path) entries

-- A name with its section is that of an entry whose path resolves as the given one, in the first
-- section that has one; no name means that no entry has.
abbrev pub Finds : (Text → Text) → Text → Registry → Option (Text × Section) → Type 0
Finds resolve path names none =
    Elsewhere resolve path names.projects × Elsewhere resolve path names.worksets
Finds resolve path names (some (name, projects)) =
    (p : Text) × Mem (name, p) names.projects × (resolve p ≡ resolve path)
Finds resolve path names (some (name, worksets)) =
    Elsewhere resolve path names.projects
    × ((p : Text) × Mem (name, p) names.worksets × (resolve p ≡ resolve path))

find_path-none :
    (resolve : Text → Text) (path : Text) (d : Dict Text Text)
    → find_path resolve (resolve path) d ≡ none
    → Elsewhere resolve path d
unfolding find_path
find_path-none resolve path [] h = tt
find_path-none resolve path ((n, p) ∷ d) h =
    (ground arith, find_path-none resolve path d (ground arith))

find_path-some :
    (resolve : Text → Text) (path name : Text) (d : Dict Text Text)
    → find_path resolve (resolve path) d ≡ some name
    → (p : Text) × Mem (name, p) d × (resolve p ≡ resolve path)
unfolding find_path
find_path-some resolve path name [] h = cc
find_path-some resolve path name ((n, p) ∷ d) h = elim (text_eq.dec (resolve p) (resolve path)) [
  | yes e ↦
      let same : n ≡ name = ground arith in
      (p, subst (λ m. Mem (m, p) ((n, p) ∷ d)) same mem-cons_self, e)
  | no k ↦
      let (q, m, e) = find_path-some resolve path name d (ground arith) in
      (q, mem-cons_of_mem (n, p) m, e)
]

Finds-of :
    (resolve : Text → Text) (path : Text) (names : Registry) (p w : Option Text)
    → find_path resolve (resolve path) names.projects ≡ p
    → find_path resolve (resolve path) names.worksets ≡ w
    → Finds resolve path names (elim p [
      | some name ↦ some (name, projects)
      | none ↦ elim w [ some name ↦ some (name, worksets) | none ↦ none ]
    ])
Finds-of resolve path names (some name) w e f = find_path-some resolve path name names.projects e
Finds-of resolve path names none (some name) e f = (
  find_path-none resolve path names.projects e,
  find_path-some resolve path name names.worksets f,
)
Finds-of resolve path names none none e f =
    (find_path-none resolve path names.projects e, find_path-none resolve path names.worksets f)

-- A lookup by path finds an entry whose path resolves as the given one, of the projects before the
-- worksets, and finds nothing only when there is none in either section.
pub lookup_by_path-Finds :
    {V : Type 0} (show : V → Text) (quote : Text → V) (resolve : Text → Text) (home : Text)
    (file : Document show quote) (path : Text)
    → Finds resolve path (load show quote file) (lookup_by_path show quote resolve home file path)
unfolding lookup_by_path
lookup_by_path-Finds show quote resolve home file path =
    Finds-of resolve path (load show quote file) _ _ refl refl
