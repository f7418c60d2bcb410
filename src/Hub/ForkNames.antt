-- ===== src/Hub/ForkNames.antt =====
-- What a fork does to the registry of names.
use kanibako.Prelude.{
  ◌≡◌, refl, Bool, true, false, Option, none, some, [], arith, Text, ◌==◌, text_eq, nat_eq, Result,
  ok, err, ◌>>=◌, Bool-cases, Option-cases, inl, inr,
}
use kanibako.Prelude.Strings.{strip}
use kanibako.Names.Document.{Section, projects, worksets, Document, load, Registry}
use kanibako.Names.Registry.{ProjectError, register_name}
use kanibako.Names.Assign.{assign_name-register}
use kanibako.Names.Laws.{path_in, Changed, register_name-Changed}
use kanibako.Hub.Fork.{
  ForkContext, ForkDisk, ForkName, no_name, text_name, no_text, ForkRaised, strip_raised,
  exists_raised, Forking, bad_fork_name, name_fork, fork_at, fork_to, fork_named, fork_between,
  handle_fork,
}

-- Every name keeps its path.
abbrev pub Keeps : Registry → Registry → Type 0
Keeps before after =
    (s : Section) (n p : Text) → path_in s n before ≡ some p → path_in s n after ≡ some p

Changed-Keeps :
    (before after : Registry) (section : Section) (name path : Text)
    → path_in projects name before ≡ none
    → path_in worksets name before ≡ none
    → Changed before section name (some path) after
    → Keeps before after
Changed-Keeps before after projects name path h w c projects n p e = ground (arith, c projects n)
Changed-Keeps before after projects name path h w c worksets n p e = ground (arith, c worksets n)
Changed-Keeps before after worksets name path h w c projects n p e = ground (arith, c projects n)
Changed-Keeps before after worksets name path h w c worksets n p e = ground (arith, c worksets n)

module _ {P V : Type 0} (J : Type 0) (show : V → Text) (quote : Text → V) (resolve : Text → Text)
    (home : Text) (name_of : Text → Text) (describe : ProjectError → Text) (disk : ForkDisk P)
    (inverse : (t : Text) → show (quote t) ≡ t) where
  abbrev Outcome : Type 0
  Outcome = Forking J show quote resolve home name_of describe disk

  -- Why a fork raises.
  abbrev pub Reason : ForkContext P → ForkName → ForkRaised → Type 0
  Reason ctx name strip_raised = name ≡ no_text
  Reason ctx name exists_raised =
      (project : P) × (t : Text) × (ctx.project_path ≡ some project)
      × (name ≡ text_name t)
      × (disk.exists (disk.beside project (strip t)) ≡ none)

  -- Nothing runs out of fuel, an exception has its reason, and an answer leaves every name.
  abbrev pub Safe : ForkContext P → ForkName → Document show quote → Option Outcome → Type 0
  Safe ctx name file none = ⊥
  Safe ctx name file (some (err e)) = Reason ctx name e
  Safe ctx name file (some (ok f)) = Keeps (load show quote file) (load show quote f.names)

  named-Safe :
      (ctx : ForkContext P) (asked : ForkName) (project data_path new_path : P)
      (file : Document show quote) (name : Text)
      → path_in projects name (load show quote file) ≡ none
      → path_in worksets name (load show quote file) ≡ none
      → (path : Text) (r : Result ProjectError (Document show quote))
      → register_name show quote resolve home file name path projects ≡ r
      → Safe ctx asked file (
          name_fork J show quote resolve home name_of describe disk ctx project data_path new_path
            file
            (some (do file' ← r; ok (name, file'))))
  unfolding name_fork
  named-Safe ctx asked project data_path new_path file name h w path (err e) eq = λ s n p k. k
  named-Safe ctx asked project data_path new_path file name h w path (ok after) eq =
      let (_, _, _, c) =
        register_name-Changed show quote resolve home inverse file after name path projects eq in
      Changed-Keeps (load show quote file) (load show quote after) projects name path h w c

  fork_at-Safe :
      (ctx : ForkContext P) (asked : ForkName) (project data_path : P) (t : Text)
      (file : Document show quote)
      → ctx.project_path ≡ some project
      → asked ≡ text_name t
      → (there : Option Bool) → disk.exists (disk.beside project (strip t)) ≡ there
      → Safe ctx asked file (
          fork_at J show quote resolve home name_of describe disk ctx project data_path
            (disk.beside project (strip t))
            there
            file)
  unfolding fork_at
  fork_at-Safe ctx asked project data_path t file p q none e = (project, t, p, q, e)
  fork_at-Safe ctx asked project data_path t file p q (some true) e = λ s n k l. l
  fork_at-Safe ctx asked project data_path t file p q (some false) e =
      elim (Option-cases (disk.copytree project (disk.beside project (strip t)))) [
        | inr (m, f) ↦ rw (fork_at, f) (λ s n k l. l)
        | inl f ↦
            let (new_name, h, w, r) =
              assign_name-register show quote resolve home name_of inverse file
                (disk.shown (disk.beside project (strip t))) projects in
            rw (fork_at, f, r) (named-Safe ctx asked project data_path _ file new_name h w _ _ refl)
      ]

  fork_named-Safe :
      (ctx : ForkContext P) (project data_path : P) (name : ForkName) (file : Document show quote)
      → ctx.project_path ≡ some project
      → Safe ctx name file (
          fork_named J show quote resolve home name_of describe disk ctx project data_path name
            file)
  unfolding fork_named fork_to
  fork_named-Safe ctx project data_path no_name file p = λ s n k l. l
  fork_named-Safe ctx project data_path no_text file p = refl
  fork_named-Safe ctx project data_path (text_name t) file p = elim (Bool-cases (t == [])) [
    | inl g ↦ rw (fork_named, g) (λ s n k l. l)
    | inr g ↦ elim (Bool-cases (bad_fork_name (strip t))) [
      | inl b ↦ rw (fork_named, g, b) (λ s n k l. l)
      | inr b ↦
          rw (fork_named, g, b)
            (fork_at-Safe ctx (text_name t) project data_path t file p refl
              (disk.exists (disk.beside project (strip t))) refl)
    ]
  ]

  fork_between-Safe :
      (ctx : ForkContext P) (project data_path : Option P) (name : ForkName)
      (file : Document show quote)
      → ctx.project_path ≡ project
      → Safe ctx name file (
          fork_between J show quote resolve home name_of describe disk ctx project data_path name
            file)
  unfolding fork_between
  fork_between-Safe ctx none data_path name file e = λ s n p k. k
  fork_between-Safe ctx (some project) none name file e = λ s n p k. k
  fork_between-Safe ctx (some project) (some data_path) name file e =
      fork_named-Safe ctx project data_path name file e

  pub handle_fork-Safe :
      (ctx : ForkContext P) (name : ForkName) (file : Document show quote)
      → Safe ctx name file
          (handle_fork J show quote resolve home name_of describe disk ctx name file)
  unfolding handle_fork
  handle_fork-Safe ctx name file =
      fork_between-Safe ctx ctx.project_path ctx.data_path name file refl
