-- ===== src/Names/Registry.antt =====
-- `register_name`, `update_name_path`, `unregister_name` and `lookup_by_path` of
-- src/kanibako/names.py, from one document of names.yaml to the next. `resolve` is `Path.resolve` as
-- a text, and `home` the home directory.
use kanibako.Prelude.{
  Bool, true, false, Option, none, some, [], ◌∷◌, Text, ◌==◌, text_eq, if◌then◌else◌, Result, ok,
  err,
}
use kanibako.Prelude.Dict.{Dict, lookup, insert, erase, has}
use kanibako.Names.Document.{
  Section, projects, worksets, Registry, section_of, set_section, Document, load, save,
}

pub data ProjectError : Type 0 where
  home_refused : ProjectError
  already_registered : Text → Section → Text → ProjectError
  unknown_name unknown_workset not_qualified : Text → ProjectError
  not_in_workset : Text → Text → ProjectError

-- `if name in names[sec]: raise`, for both sections.
abbrev duplicate : Text → Registry → Option ProjectError
duplicate name names = elim (lookup name names.projects) [
  | some path ↦ some (already_registered name projects path)
  | none ↦ elim (lookup name names.worksets) [
    | some path ↦ some (already_registered name worksets path)
    | none ↦ none
  ]
]

-- The first entry whose path resolves to the given one.
unfoldable pub find_path : (Text → Text) → Text → Dict Text Text → Option Text
find_path resolve resolved [] = none
find_path resolve resolved ((name, path) ∷ rest) =
    let later = find_path resolve resolved rest in
    if resolve path == resolved then some name else later

module _ {V : Type 0} (show : V → Text) (quote : Text → V) (resolve : Text → Text)
    (home : Text) where
  unfoldable pub register_name :
      Document show quote → Text → Text → Section → Result ProjectError (Document show quote)
  register_name file name path section =
      let names = load show quote file in
      if resolve path == resolve home then err home_refused else elim (duplicate name names) [
        | some e ↦ err e
        | none ↦ ok (
            save show quote
              (set_section section (insert name path (section_of section names)) names))
      ]

  unfoldable pub update_name_path :
      Document show quote → Text → Text → Section → Result ProjectError (Bool × Document show quote)
  update_name_path file name new_path section =
      let names = load show quote file in
      if resolve new_path == resolve home
      then err home_refused
      else if has name (section_of section names)
      then ok (
        true,
        save show quote
            (set_section section (insert name new_path (section_of section names)) names),
      )
      else ok (false, file)

  unfoldable pub unregister_name : Document show quote → Text → Section → Bool × Document show quote
  unregister_name file name section =
      let names = load show quote file in
      if has name (section_of section names)
      then (
        true,
        save show quote (set_section section (erase name (section_of section names)) names),
      )
      else (false, file)

  unfoldable pub lookup_by_path : Document show quote → Text → Option (Text × Section)
  unfolding find_path
  lookup_by_path file path =
      let names = load show quote file in
      elim (find_path resolve (resolve path) names.projects) [
        | some name ↦ some (name, projects)
        | none ↦ elim (find_path resolve (resolve path) names.worksets) [
          | some name ↦ some (name, worksets)
          | none ↦ none
        ]
      ]
