-- ===== src/Worksets/RoundTrip.antt =====
-- A workset that was written is loaded; a project that was added is removed.
use kanibako.Prelude.{
  ◌≡◌, ◌≢◌, contains, Bool-cases, inl, inr, refl, ap, ◌∙◌, sym, Bool, true, false, Option, none,
  some, List, [], ◌∷◌, ◌++◌, arith, All, Text, text, text_eq, ℕ_discrete, if◌then◌else◌, ok, map,
}
use kanibako.Prelude.Dict.{insert, lookup-insert}
use kanibako.Documents.Table.{Value, word, get}
use kanibako.Documents.Files.{Yaml, Faithful, dump_doc, load_doc-dump_doc}
use kanibako.Worksets.Root.{
  Trees, WorksetError, project_exists, WorksetProject, Workset, Sequences, Dir, Disk, file_at,
  truth, project_entry, workset_document, project_of, projects_in, projects_of, workset_named,
  load_workset_toml, write_workset_toml,
}
use kanibako.Worksets.Projects.{
  is_named, find_project, remove_named, project_trees, project_dirs, make_dirs, remove_dir,
  remove_dirs, drop_dirs, grow, with_members, add_project, remove_project,
}

-- A list is read back from the value that it is written as.
pub record SequencesFaithful {L : Type 0} (sequences : Sequences L) : Type 0 where
  pub list-of : (vs : List (Value L)) → sequences.list_of (sequences.of_list vs) ≡ some vs

module _ {L : Type 0} where
  unfound :
      (b : Bool) (q : WorksetProject L) (rest : Option (WorksetProject L))
      → (if b then some q else rest) ≡ none
      → (b ≡ false) × (rest ≡ none)
  unfound true q rest h = cc
  unfound false q rest h = (refl, h)

  find_none-remove_named :
      (name : Text) (p : WorksetProject L) (ps : List (WorksetProject L))
      → find_project name ps ≡ none
      → is_named name p.project_name ≡ true
      → (find_project name (ps ++ p ∷ []) ≡ some p) × (remove_named name (ps ++ p ∷ []) ≡ ps)
  unfolding find_project remove_named
  find_none-remove_named name p [] h k = (rw k refl, rw k refl)
  find_none-remove_named name p (q ∷ ps) h k =
      let (fresh, rest) = unfound (is_named name q.project_name) q (find_project name ps) h in
      let (found, removed) = find_none-remove_named name p ps rest k in
      rw fresh (found, ap (λ l. q ∷ l) removed)

module _ {F L : Type 0} (yaml : Yaml F L) (faithful : Faithful yaml) (sequences : Sequences L)
    (list_faithful : SequencesFaithful sequences) (path_of : Text → Text) where
  abbrev Plain : WorksetProject L → Type 0
  Plain p = path_of p.source_path ≡ p.source_path

  projects_in-entries :
      (ps : List (WorksetProject L))
      → All Plain ps
      → projects_in sequences path_of (map (project_entry sequences) ps) ≡ ok ps
  unfolding projects_in project_of get text_eq ℕ_discrete
  projects_in-entries [] h = refl
  projects_in-entries (p ∷ ps) (h, hs) = rw (h, projects_in-entries ps hs) refl

  named-document :
      (ws : Workset L)
      → truth sequences ws.workset_name ≡ true
      → All Plain ws.members
      → workset_named sequences path_of ws.root
          (workset_document sequences ws)
          (some ws.workset_name)
        ≡ ok (record ws { is_default = false })
  unfolding workset_named workset_document get text_eq ℕ_discrete truth projects_of
  named-document ws h hs =
      rw
        (
          h,
          list_faithful.list-of (map (project_entry sequences) ws.members),
          projects_in-entries ws.members hs,
        )
        refl

  file_at-insert :
      (root : Text) (dir : Dir F) (disk : Disk F)
      → file_at root (insert root (some dir) disk) ≡ dir.workset_yaml
  unfolding file_at
  file_at-insert root dir disk =
      rw (file_at, lookup-insert root root (some dir) disk) (ground arith)

  -- A workset that can be read back: its name is not empty, its paths are in the form of `pathlib`, and
  -- it is not the default one, which has no file.
  abbrev pub Loadable : Workset L → Type 0
  Loadable ws =
      (truth sequences ws.workset_name ≡ true)
      × All (λ p. path_of p.source_path ≡ p.source_path) ws.members
      × (ws.is_default ≡ false)

  as_loaded : (ws : Workset L) → ws.is_default ≡ false → record ws { is_default = false } ≡ ws
  as_loaded ws h = λ i. record ws { is_default = sym h i }

  name_of :
      (ws : Workset L) → get (text "name") (workset_document sequences ws) ≡ some ws.workset_name
  unfolding workset_document get text_eq ℕ_discrete
  name_of ws = refl

  load-dump_workset :
      (ws : Workset L)
      → Loadable ws
      → load_workset_toml sequences path_of yaml ws.root
          (dump_doc yaml (workset_document sequences ws))
        ≡ ok ws
  unfolding load_workset_toml dump_doc
  load-dump_workset ws (h, hs, d) =
      ap (λ doc. workset_named sequences path_of ws.root doc (get (text "name") doc))
        (load_doc-dump_doc yaml faithful (workset_document sequences ws))
      ∙ ap (workset_named sequences path_of ws.root (workset_document sequences ws)) (name_of ws)
      ∙ named-document ws h hs
      ∙ ap (λ w. ok w) (as_loaded ws d)

  -- Over a YAML library that reads back what it writes, lists included, a loadable workset,
  -- written at its root whatever was there, is read back as it was.
  pub load_workset_toml-write_workset_toml :
      (ws : Workset L) (disk : Disk F)
      → Loadable ws
      → load_workset_toml sequences path_of yaml ws.root
          (file_at ws.root (write_workset_toml sequences yaml ws disk))
        ≡ ok ws
  unfolding write_workset_toml
  load_workset_toml-write_workset_toml ws disk h =
      ap (load_workset_toml sequences path_of yaml ws.root) (file_at-insert ws.root _ disk)
      ∙ load-dump_workset ws h

  -- An addition that raised nothing found no project of the name.
  added_none :
      (name : Text) (disk disk' : Disk F) (ws after : Workset L) (o : Option (WorksetProject L))
      (r : Disk F × Workset L × Option WorksetError)
      → (elim o as (λ x. Disk F × Workset L × Option WorksetError) [
        | some p ↦ (disk, ws, some (project_exists name))
        | none ↦ r
      ])
        ≡ (disk', after, none)
      → (o ≡ none) × (r ≡ (disk', after, none))
  added_none name disk disk' ws after none r h = (refl, h)
  added_none name disk disk' ws after (some p) r h = absurd (some_not_none _ (ap (λ q. q.2) h))
    where
      some_not_none : (e : WorksetError) → some e ≢ none
      some_not_none e h = cc

  -- The removal of the trees raises nothing and leaves the workset.yaml of the root as it is.
  abbrev pub Spares : Trees F → Text → Text → Type 0
  Spares trees root name =
      (p : Text)
      → contains (project_trees trees root name) p ≡ true
      → (disk : Disk F)
      → (file_at root (trees.rmtree p disk).0 ≡ file_at root disk)
        × ((trees.rmtree p disk).1 ≡ none)

  Spared : Text → Disk F → Disk F × Option WorksetError → Type 0
  Spared root disk (after, error) = (file_at root after ≡ file_at root disk) × (error ≡ none)

  -- That of a list of trees.
  SparesAll : Trees F → Text → List Text → Type 0
  SparesAll trees root ps =
      (p : Text)
      → contains ps p ≡ true
      → (disk : Disk F)
      → (file_at root (trees.rmtree p disk).0 ≡ file_at root disk)
        × ((trees.rmtree p disk).1 ≡ none)

  remove_dir-Spared :
      (trees : Trees F) (root p : Text) (ps : List Text)
      → SparesAll trees root (p ∷ ps)
      → (disk : Disk F) → Spared root disk (remove_dir trees p disk)
  unfolding Spared SparesAll
  remove_dir-Spared trees root p ps h disk = elim (Bool-cases (trees.has_dir p disk)) [
    | inl e ↦ rw e (h p (ground arith) disk)
    | inr e ↦ rw e (refl, refl)
  ]

  remove_dirs-Spared :
      (trees : Trees F) (root : Text) (ps : List Text)
      → SparesAll trees root ps
      → (disk : Disk F) → Spared root disk (remove_dirs trees ps disk)
  unfolding remove_dirs Spared SparesAll
  remove_dirs-Spared trees root [] h disk = (refl, refl)
  remove_dirs-Spared trees root (p ∷ ps) h disk =
      go (remove_dir trees p disk) (remove_dir-Spared trees root p ps h disk)
        (λ d. remove_dirs-Spared trees root ps (λ q k. h q (ground arith)) d)
    where
      go :
          (r : Disk F × Option WorksetError)
          → Spared root disk r
          → ((d : Disk F) → Spared root d (remove_dirs trees ps d))
          → Spared root disk (elim r.1 as (λ x. Disk F × Option WorksetError) [
            | some e ↦ (r.0, some e)
            | none ↦ remove_dirs trees ps r.0
          ])
      go (after, none) (h, k) rest = let (f, e) = rest after in (f ∙ h, e)
      go (after, some e) (h, k) rest = (h, k)

  drop_dirs-Spared :
      (resolve : Text → Text) (trees : Trees F) (remove_files : Bool) (root name : Text)
      → (remove_files ≡ true → Spares trees root name)
      → (disk : Disk F)
      → Spared root disk
          (drop_dirs yaml sequences path_of resolve trees remove_files root name disk)
  unfolding drop_dirs Spared SparesAll
  drop_dirs-Spared resolve trees false root name h disk = (refl, refl)
  drop_dirs-Spared resolve trees true root name h disk =
      remove_dirs-Spared trees root (project_trees trees root name) (h refl) disk

  module _ (resolve : Text → Text) where
    abbrev new_project : Text → Text → WorksetProject L
    new_project name source = record { project_name = word name; source_path = resolve source }

    abbrev grown : Workset L → Text → Text → Workset L
    grown ws name source = with_members ws (ws.members ++ new_project name source ∷ [])

    new_is_named : (name source : Text) → is_named {L = L} name (word name) ≡ true
    unfolding is_named
    new_is_named name source = ground arith

    grow_unraised :
        (ws after : Workset L) (name source : Text) (r : Disk F × Option WorksetError)
        (disk' : Disk F)
        → grow yaml sequences path_of resolve ws name source r ≡ (disk', after, none)
        → after ≡ grown ws name source
    unfolding grow
    grow_unraised ws after name source (disk, none) disk' h = sym (ap (λ q. q.1) h)
    grow_unraised ws after name source (disk, some e) disk' h =
        absurd (some_not_none e (ap (λ q. q.2) h))
      where
        some_not_none : (e : WorksetError) → some e ≢ none
        some_not_none e h = cc

    remove_project-grown :
        (trees : Trees F) (ws : Workset L) (name source : Text) (remove_files : Bool)
        (disk : Disk F)
        → find_project name ws.members ≡ none
        → let left =
            drop_dirs yaml sequences path_of resolve trees remove_files ws.root name
              (write_workset_toml sequences yaml ws disk) in
          remove_project yaml sequences path_of resolve trees
            (grown ws name source)
            name
            remove_files
            disk
          ≡ (left.0, ws, left.1)
    unfolding remove_project
    remove_project-grown trees ws name source remove_files disk h =
        let (found, removed) =
          find_none-remove_named name (new_project name source) ws.members h
            (new_is_named name source) in
        rw (remove_project, found, removed) refl

    pub remove_project-add_project :
        (trees : Trees F) (ws after : Workset L) (name source : Text) (remove_files : Bool)
        (disk disk' : Disk F)
        → Loadable ws
        → (remove_files ≡ true → Spares trees ws.root name)
        → add_project yaml sequences path_of resolve trees ws name source disk
          ≡ (disk', after, none)
        → (disk'' : Disk F) × (remove_project yaml sequences path_of resolve trees after name
              remove_files disk'
            ≡ (disk'', ws, none))
          × (load_workset_toml sequences path_of yaml ws.root (file_at ws.root disk'') ≡ ok ws)
    unfolding add_project Spared
    remove_project-add_project trees ws after name source remove_files disk disk' h spares k =
        let (fresh, g) = added_none name disk disk' ws after (find_project name ws.members) _ k in
        let e =
          grow_unraised ws after name source
            (make_dirs trees (project_dirs trees ws.root name) disk) disk' g in
        let kept = write_workset_toml sequences yaml ws disk' in
        let left = drop_dirs yaml sequences path_of resolve trees remove_files ws.root name kept in
        let (same_file, quiet) =
          drop_dirs-Spared resolve trees remove_files ws.root name spares kept in
        (
          left.0,
          ap (λ w. remove_project yaml sequences path_of resolve trees w name remove_files disk') e
              ∙ remove_project-grown trees ws name source remove_files disk' fresh
              ∙ ap (λ o. (left.0, ws, o)) quiet,
          ap (load_workset_toml sequences path_of yaml ws.root) same_file
              ∙ load_workset_toml-write_workset_toml ws disk' h,
        )
