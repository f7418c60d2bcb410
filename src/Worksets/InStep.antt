-- ===== src/Worksets/InStep.antt =====
-- The registry of worksets and the registry of names stay in step.
use kanibako.Prelude.{
  ◌≡◌, refl, ap, ◌∙◌, sym, Bool, Option, none, some, [], Text, ◌==◌, text_eq, if◌then◌else◌, Result,
  ok, err,
}
use kanibako.Prelude.Dict.{Dict, lookup, insert, erase, has, lookup-insert, lookup-erase}
use kanibako.Documents.Files.{Yaml, Faithful}
use kanibako.Names.Document.{Document, worksets, in_order, lookup-in_order, load}
use kanibako.Names.Registry.{ProjectError, register_name, unregister_name}
use kanibako.Names.Laws.{path_in, register_name-Changed, unregister_name-Changed}
use kanibako.Worksets.Root.{
  WorksetError, Workset, Sequences, Disk, name_error, root_exists, workset_registered, empty_name,
  reserved_name, not_registered,
}
use kanibako.Worksets.Registry.{
  World, is_reserved, load_registry, write_registry, register_workset, create_at, create_new,
  create_workset, delete_known, delete_workset,
}
use kanibako.Worksets.Reloaded.{
  PathLaws, map_path, map_paths, lookup-map_paths, err_not_ok, if_refused, some_refused,
  none_refused, map_path-if, load_registry-write_registry,
}

module _ {F L V : Type 0} (yaml : Yaml F L) (faithful : Faithful yaml) (sequences : Sequences L)
    (show : V → Text) (quote : Text → V) (inverse : (t : Text) → show (quote t) ≡ t)
    (path_of resolve : Text → Text) (laws : PathLaws path_of resolve) (home : Text) where
  abbrev State : Type 0
  State = World F show quote

  -- Both registries have the same worksets at the same roots, each in normal form.
  abbrev pub InStep : State → Type 0
  InStep world =
      (roots : Dict Text Text) × (load_registry yaml path_of world.hints ≡ ok roots)
      × ((name : Text) → map_path path_of (lookup name roots) ≡ lookup name roots)
      × ((name : Text) → lookup name roots ≡ path_in worksets name (load show quote world.names))

  -- What a creation that returned did.
  abbrev CreatedAt : State → Text → Text → State → Type 0
  CreatedAt world name root world' =
      (roots : Dict Text Text) × (load_registry yaml path_of world.hints ≡ ok roots)
      × (world'.hints ≡ write_registry yaml (insert name root roots))
      × (register_name show quote resolve home world.names name root worksets ≡ ok world'.names)

  register_ok :
      (world world' : State) (ws ws' : Workset L) (r : Result ProjectError (Document show quote))
      → (elim r as (λ x. State × Result WorksetError (Workset L)) [
        | err e ↦ (world, err (name_error e))
        | ok names ↦ (record world { names = names }, ok ws)
      ])
        ≡ (world', ok ws')
      → (r ≡ ok world'.names) × (world'.hints ≡ world.hints)
  register_ok world world' ws ws' (err e) h =
      absurd (err_not_ok (name_error e) ws' (ap (λ p. p.1) h))
  register_ok world world' ws ws' (ok names) h =
      (ap (λ p. ok (p.0.names)) h, sym (ap (λ p. p.0.hints) h))

  create_at_ok :
      (world world' : State) (roots : Dict Text Text) (name root now : Text) (ws : Workset L)
      → load_registry yaml path_of world.hints ≡ ok roots
      → create_at yaml sequences show quote path_of resolve home world roots name root now
        ≡ (world', ok ws)
      → CreatedAt world name root world'
  unfolding create_at register_workset
  create_at_ok world world' roots name root now ws l h =
      let (free, k) = if_refused (has root world.disk) (root_exists root) world world' ws _ h in
      let (registered, hints) =
        register_ok _ world' _ ws
          (register_name show quote resolve home world.names name root worksets) k in
      (roots, l, hints, registered)

  create_new_ok :
      (world world' : State) (name root now : Text) (ws : Workset L)
      (loaded : Result WorksetError (Dict Text Text))
      → load_registry yaml path_of world.hints ≡ loaded
      → create_new yaml sequences show quote path_of resolve home world loaded name root now
        ≡ (world', ok ws)
      → CreatedAt world name (resolve root) world'
  unfolding create_new
  create_new_ok world world' name root now ws (err e) l h =
      absurd (err_not_ok e ws (ap (λ p. p.1) h))
  create_new_ok world world' name root now ws (ok roots) l h =
      let (free, k) =
        some_refused (lookup name roots) (workset_registered name) world world' ws _ h in
      create_at_ok world world' roots name (resolve root) now ws l k

  create_workset_ok :
      (world world' : State) (name root now : Text) (ws : Workset L)
      → create_workset yaml sequences show quote path_of resolve home world name root now
        ≡ (world', ok ws)
      → CreatedAt world name (resolve root) world'
  unfolding create_workset
  create_workset_ok world world' name root now ws h =
      let (named, k) = if_refused (name == []) empty_name world world' ws _ h in
      let (free, l) = if_refused (is_reserved name) reserved_name world world' ws _ k in
      create_new_ok world world' name root now ws (load_registry yaml path_of world.hints) refl l

  -- A change of one name, made in both registries.
  changed-InStep :
      (world : State) (roots roots' : Dict Text Text) (name : Text) (value : Option Text)
      → map_path path_of value ≡ value
      → ((k : Text) → map_path path_of (lookup k roots) ≡ lookup k roots)
      → ((k : Text) → lookup k roots ≡ path_in worksets k (load show quote world.names))
      → ((k : Text) → lookup k roots' ≡ (if k == name then value else lookup k roots))
      → (world' : State) → world'.hints ≡ write_registry yaml roots'
      → ((k : Text)
          → path_in worksets k (load show quote world'.names)
            ≡ (if k == name then value else path_in worksets k (load show quote world.names)))
      → InStep world'
  changed-InStep world roots roots' name value v normal step changed world' hints names = (
    map_paths path_of (in_order roots'),
    ap (load_registry yaml path_of) hints
        ∙ load_registry-write_registry yaml faithful path_of roots',
    λ k. ap (map_path path_of) (now k) ∙ kept k ∙ sym (now k),
    λ k. now k ∙ ap (λ o. if k == name then value else o) (step k) ∙ sym (names k),
  )
    where
      kept :
          (k : Text)
          → map_path path_of (if k == name then value else lookup k roots)
            ≡ (if k == name then value else lookup k roots)
      kept k = map_path-if path_of (k == name) value (lookup k roots) v (normal k)

      now :
          (k : Text)
          → lookup k (map_paths path_of (in_order roots'))
            ≡ (if k == name then value else lookup k roots)
      now k =
          lookup-map_paths path_of k (in_order roots')
          ∙ ap (map_path path_of) (lookup-in_order k roots' ∙ changed k)
          ∙ kept k

  created-InStep :
      (world world' : State) (name root : Text)
      → path_of root ≡ root
      → CreatedAt world name root world'
      → InStep world
      → InStep world'
  created-InStep world world' name root h (roots, l, hints, registered) (known, k, normal, step) =
      let e : roots ≡ known = cc in
      let (_, _, _, changed) =
        register_name-Changed show quote resolve home inverse world.names world'.names name root
          worksets registered in
      changed-InStep world known (insert name root known) name (some root) (ap (λ s. some s) h)
        normal step (λ n. lookup-insert n name root known) world'
        (hints ∙ ap (λ r. write_registry yaml (insert name root r)) e) (λ n. changed worksets n)

  -- What a deletion that returned did.
  delete_known_ok :
      (world world' : State) (name root : Text) (remove_files : Bool)
      (loaded : Result WorksetError (Dict Text Text))
      → load_registry yaml path_of world.hints ≡ loaded
      → delete_known yaml sequences show quote path_of resolve home world loaded name remove_files
        ≡ (world', ok root)
      → (roots : Dict Text Text) × (load_registry yaml path_of world.hints ≡ ok roots)
        × (world'.hints ≡ write_registry yaml (erase name roots))
        × (world'.names ≡ (unregister_name show quote resolve home world.names name worksets).1)
  unfolding delete_known
  delete_known_ok world world' name root remove_files (err e) l h =
      absurd (err_not_ok e root (ap (λ p. p.1) h))
  delete_known_ok world world' name root remove_files (ok roots) l h =
      let (at, k) = none_refused (lookup name roots) (not_registered name) world world' root _ h in
      (roots, l, sym (ap (λ p. p.0.hints) k), sym (ap (λ p. p.0.names) k))

  deleted-InStep :
      (world world' : State) (name root : Text) (remove_files : Bool)
      → delete_workset yaml sequences show quote path_of resolve home world name remove_files
        ≡ (world', ok root)
      → InStep world
      → InStep world'
  unfolding delete_workset
  deleted-InStep world world' name root remove_files h (known, k, normal, step) =
      let (roots, l, hints, names) =
        delete_known_ok world world' name root remove_files (load_registry yaml path_of world.hints)
          refl h in
      let e : roots ≡ known = cc in
      changed-InStep world known (erase name known) name none refl normal step
        (λ n. lookup-erase n name known) world'
        (hints ∙ ap (λ r. write_registry yaml (erase name r)) e)
        (λ n.
          ap (λ f. path_in worksets n (load show quote f)) names
          ∙ unregister_name-Changed show quote resolve home inverse world.names name worksets
              worksets n)

  -- Calls that return.
  pub data Step : State → State → Type 0 where
    created :
        {world world' : State} (name root now : Text) (ws : Workset L)
        → create_workset yaml sequences show quote path_of resolve home world name root now
          ≡ (world', ok ws)
        → Step world world'
    deleted :
        {world world' : State} (name root : Text) (remove_files : Bool)
        → delete_workset yaml sequences show quote path_of resolve home world name remove_files
          ≡ (world', ok root)
        → Step world world'

  -- What calls that return lead to, from a data directory without registries.
  pub data Reachable : State → Type 0 where
    fresh : (disk : Disk F) → Reachable (record { hints = none; names = none; disk = disk })
    then_step : {world world' : State} → Reachable world → Step world world' → Reachable world'

  -- Over a YAML library that reads back what it writes, and where a resolved path is in the form
  -- of `pathlib`, worksets that are created and deleted by calls that return are the same in both
  -- registries: a name stands in worksets.yaml exactly when it stands among the worksets of
  -- names.yaml, with the same root.
  pub Reachable-InStep : {world : State} → Reachable world → InStep world
  unfolding load_registry load lookup
  Reachable-InStep (fresh disk) = ([], refl, λ n. refl, λ n. refl)
  Reachable-InStep {world} (then_step {world = before} r (created name root now ws h)) =
      created-InStep before world name (resolve root) (laws.path_of-resolve root)
        (create_workset_ok before world name root now ws h) (Reachable-InStep r)
  Reachable-InStep {world} (then_step {world = before} r (deleted name root remove_files h)) =
      deleted-InStep before world name root remove_files h (Reachable-InStep r)
