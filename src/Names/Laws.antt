-- ===== src/Names/Laws.antt =====
-- What a change of the registry does to every name, and that no name is in both sections.
use kanibako.Prelude.{
  ◌≡◌, ◌≢◌, ◌↔◌, ◌⊎◌, inl, inr, refl, ◌∙◌, Bool, true, false, Option, none, some, arith, Text, ◌==◌,
  text_eq, if◌then◌else◌, ok,
}
use kanibako.Prelude.Dict.{lookup, insert, erase, has, lookup-insert, lookup-erase}
use kanibako.Names.Document.{
  Section, projects, worksets, Registry, section_of, set_section, Document, load, save, load-save,
  lookup-in_order,
}
use kanibako.Names.Registry.{register_name, update_name_path, unregister_name}

abbrev pub same_section : Section → Section → Bool
same_section projects projects = true
same_section worksets worksets = true
same_section projects worksets = false
same_section worksets projects = false

-- The path of a name in a section.
abbrev pub path_in : Section → Text → Registry → Option Text
path_in section name names = lookup name (section_of section names)

abbrev pub Apart : Registry → Type 0
Apart names =
    (name : Text) → (path_in projects name names ≡ none) ⊎ (path_in worksets name names ≡ none)

abbrev pub Changed : Registry → Section → Text → Option Text → Registry → Type 0
Changed before section name value after =
    (s : Section) (n : Text)
    → path_in s n after ≡ (
        if same_section s section
        then (if n == name then value else path_in s n before)
        else path_in s n before)

insert-Changed :
    (names : Registry) (section : Section) (name path : Text)
    → Changed names section name
        (some path)
        (set_section section (insert name path (section_of section names)) names)
insert-Changed names projects name path projects n = lookup-insert n name path _
insert-Changed names projects name path worksets n = refl
insert-Changed names worksets name path projects n = refl
insert-Changed names worksets name path worksets n = lookup-insert n name path _

erase-Changed :
    (names : Registry) (section : Section) (name : Text)
    → Changed names section name none
        (set_section section (erase name (section_of section names)) names)
erase-Changed names projects name projects n = lookup-erase n name _
erase-Changed names projects name worksets n = refl
erase-Changed names worksets name projects n = refl
erase-Changed names worksets name worksets n = lookup-erase n name _

module _ {V : Type 0} (show : V → Text) (quote : Text → V) (resolve : Text → Text) (home : Text)
    (inverse : (t : Text) → show (quote t) ≡ t) where
  abbrev read_names : Document show quote → Registry
  read_names = load show quote

  path_in-saved :
      (s : Section) (n : Text) (names : Registry)
      → path_in s n (load show quote (save show quote names)) ≡ path_in s n names
  path_in-saved projects n names =
      rw (load-save show quote inverse names) (lookup-in_order n names.projects)
  path_in-saved worksets n names =
      rw (load-save show quote inverse names) (lookup-in_order n names.worksets)

  saved-Changed :
      (before after : Registry) (section : Section) (name : Text) (value : Option Text)
      → Changed before section name value after
      → Changed before section name value (load show quote (save show quote after))
  saved-Changed before after section name value h s n = path_in-saved s n after ∙ h s n

  register_cases :
      (file file' : Document show quote) (name path : Text) (section : Section)
      → register_name show quote resolve home file name path section ≡ ok file'
      → (resolve path ≢ resolve home)
        × (path_in projects name (load show quote file) ≡ none)
        × (path_in worksets name (load show quote file) ≡ none)
        × (file'
            ≡ save show quote (
                set_section section
                  (insert name path (section_of section (load show quote file)))
                  (load show quote file)))
  unfolding register_name
  register_cases file file' name path section h =
      (ground arith, ground arith, ground arith, ground arith)

  -- A registration that returns found the path not to be the home directory and the name free in
  -- both sections, and afterwards the name has the path in its section while every other name of
  -- every section is as before.
  pub register_name-Changed :
      (file file' : Document show quote) (name path : Text) (section : Section)
      → register_name show quote resolve home file name path section ≡ ok file'
      → (resolve path ≢ resolve home)
        × (path_in projects name (read_names file) ≡ none)
        × (path_in worksets name (read_names file) ≡ none)
        × Changed (read_names file) section name (some path) (read_names file')
  register_name-Changed file file' name path section h =
      let (away, p, w, e) = register_cases file file' name path section h in
      (
        away,
        p,
        w,
        rw e (
            saved-Changed (read_names file) _ section name (some path)
              (insert-Changed (read_names file) section name path)),
      )

  -- A registration returns exactly when the path is not the home directory and neither section has
  -- the name.
  pub register_name-ok_iff :
      (file : Document show quote) (name path : Text) (section : Section)
      → ((file' : Document show quote) × (register_name show quote resolve home file name path
              section
            ≡ ok file'))
        ↔ ((resolve path ≢ resolve home)
            × (path_in projects name (read_names file) ≡ none)
            × (path_in worksets name (read_names file) ≡ none))
  unfolding register_name
  register_name-ok_iff file name path section = (
    λ (file', h).
        let (away, p, w, e) = register_cases file file' name path section h in (away, p, w),
    λ (away, p, w). (
      save show quote (
          set_section section (insert name path (section_of section (read_names file)))
            (read_names file)),
      ground arith,
    ),
  )

  update_cases :
      (file file' : Document show quote) (name path : Text) (section : Section) (found : Bool)
      → update_name_path show quote resolve home file name path section ≡ ok (found, file')
      → (resolve path ≢ resolve home)
        × ((found ≡ true)
              × (path_in section name (read_names file) ≢ none)
              × (file'
                  ≡ save show quote (
                      set_section section
                        (insert name path (section_of section (read_names file)))
                        (read_names file)))
            ⊎ ((found ≡ false) × (path_in section name (read_names file) ≡ none) × (file' ≡ file)))
  unfolding update_name_path has
  update_cases file file' name path section found h = (ground arith, ground arith)

  unregister_cases :
      (file file' : Document show quote) (name : Text) (section : Section) (found : Bool)
      → unregister_name show quote resolve home file name section ≡ (found, file')
      → ((found ≡ true)
          × (path_in section name (read_names file) ≢ none)
          × (file'
              ≡ save show quote (
                  set_section section
                    (erase name (section_of section (read_names file)))
                    (read_names file))))
        ⊎ ((found ≡ false) × (path_in section name (read_names file) ≡ none) × (file' ≡ file))
  unfolding unregister_name has
  unregister_cases file file' name section found h = ground arith

  unchanged_gone :
      (names : Registry) (section : Section) (name : Text)
      → path_in section name names ≡ none
      → Changed names section name none names
  unchanged_gone names projects name h projects n = ground arith
  unchanged_gone names projects name h worksets n = refl
  unchanged_gone names worksets name h projects n = refl
  unchanged_gone names worksets name h worksets n = ground arith

  -- Afterwards the name is gone, whether it was there or not.
  pub unregister_name-Changed :
      (file : Document show quote) (name : Text) (section : Section)
      → Changed
          (read_names file)
          section
          name
          none
          (read_names (unregister_name show quote resolve home file name section).1)
  unregister_name-Changed file name section =
      elim (unregister_cases file (unregister_name show quote resolve home file name section).1 name
        section (unregister_name show quote resolve home file name section).0 refl) [
          | inl (_, p, e) ↦ rw e (
              saved-Changed (read_names file) _ section name none
                (erase-Changed (read_names file) section name))
          | inr (_, p, e) ↦ rw e (unchanged_gone (read_names file) section name p)
        ]

  -- One call of an operation that returns.
  pub data Step : Document show quote → Document show quote → Type 0 where
    register :
        {file file' : Document show quote} (name path : Text) (section : Section)
        → register_name show quote resolve home file name path section ≡ ok file'
        → Step file file'
    update :
        {file file' : Document show quote} (name path : Text) (section : Section) (found : Bool)
        → update_name_path show quote resolve home file name path section ≡ ok (found, file')
        → Step file file'
    unregister :
        {file file' : Document show quote} (name : Text) (section : Section) (found : Bool)
        → unregister_name show quote resolve home file name section ≡ (found, file')
        → Step file file'

  -- The documents that calls lead to from a data directory without names.yaml.
  pub data Reachable : Document show quote → Type 0 where
    start : Reachable none
    step : {file file' : Document show quote} → Reachable file → Step file file' → Reachable file'

  Changed-Apart :
      (before after : Registry) (section : Section) (name : Text) (value : Option Text)
      → ((path_in projects name before ≡ none) × (path_in worksets name before ≡ none)
          ⊎ ((path_in section name before ≢ none) ⊎ (value ≡ none)))
      → Changed before section name value after
      → Apart before
      → Apart after
  Changed-Apart before after projects name value h c apart n =
      ground (arith, c projects n, c worksets n, apart n)
  Changed-Apart before after worksets name value h c apart n =
      ground (arith, c projects n, c worksets n, apart n)

  Step-Apart :
      {file file' : Document show quote}
      → Step file file'
      → Apart (read_names file)
      → Apart (read_names file')
  Step-Apart {file} {file'} (register name path section h) apart =
      let (away, p, w, c) = register_name-Changed file file' name path section h in
      Changed-Apart (read_names file) (read_names file') section name (some path) (inl (p, w)) c
        apart
  Step-Apart {file} {file'} (update name path section found h) apart =
      elim (update_cases file file' name path section found h).1 [
        | inl (_, p, e) ↦ rw e (
            Changed-Apart (read_names file) _ section name (some path) (inr (inl p))
              (saved-Changed (read_names file) _ section name (some path)
                (insert-Changed (read_names file) section name path))
              apart)
        | inr (_, _, e) ↦ rw e apart
      ]
  Step-Apart {file} {file'} (unregister name section found h) apart =
      elim (unregister_cases file file' name section found h) [
        | inl (_, p, e) ↦ rw e (
            Changed-Apart (read_names file) _ section name none (inr (inr refl))
              (saved-Changed (read_names file) _ section name none
                (erase-Changed (read_names file) section name))
              apart)
        | inr (_, _, e) ↦ rw e apart
      ]

  -- Whatever calls were made, no name is in both sections.
  pub Reachable-Apart : {file : Document show quote} → Reachable file → Apart (read_names file)
  unfolding load lookup
  Reachable-Apart start = λ name. inl refl
  Reachable-Apart (step r s) = Step-Apart s (Reachable-Apart r)
