-- ===== src/Worksets/OutOfStep.antt =====
-- A creation that the registry of names refuses.
use kanibako.Prelude.{
  ◌≡◌, ◌≢◌, refl, ap, ◌∙◌, sym, Bool, true, false, Option, none, some, [], ◌∷◌, arith, Text, text,
  ◌==◌, text_eq, if◌then◌else◌, Result, ok, err, ◌>>=◌,
}
use kanibako.Prelude.Dict.{Dict, lookup, insert, has, lookup-insert}
use kanibako.Documents.Table.{Value, flag, word, other, table, Table, end, entry, get}
use kanibako.Documents.Files.{Yaml, Faithful, load_doc}
use kanibako.Names.Document.{Document, worksets, in_order, lookup-in_order, load}
use kanibako.Names.Registry.{ProjectError, register_name}
use kanibako.Names.Laws.{path_in}
use kanibako.Worksets.Root.{
  WorksetError, Workset, Sequences, name_error, root_exists, workset_registered, empty_name,
  reserved_name, malformed,
}
use kanibako.Worksets.Registry.{
  World, is_reserved, roots_of, roots_in, load_registry, write_registry, register_workset,
  create_at, create_new, create_workset,
}
use kanibako.Worksets.Reloaded.{
  PathLaws, map_path, map_path-if, map_paths, lookup-map_paths, load_registry-write_registry,
}
use kanibako.Worksets.InStep.{InStep}

same_error :
    {A : Type 0} (d e : WorksetError) → Path (Result WorksetError A) (err d) (err e) → d ≡ e
same_error d e h = cc

-- An error of the registry of names came from behind the tests.
if_passed :
    {W A : Type 0} (b : Bool) (e : WorksetError) (p : ProjectError) (world world' : W)
    (r : W × Result WorksetError A)
    → e ≢ name_error p
    → (if b then (world, err e) else r) ≡ (world', err (name_error p))
    → r ≡ (world', err (name_error p))
if_passed true e p world world' r n h = absurd (n (same_error e (name_error p) (ap (λ q. q.1) h)))
if_passed false e p world world' r n h = h

none_passed :
    {W A T : Type 0} (o : Option T) (e : T → WorksetError) (p : ProjectError) (world world' : W)
    (r : W × Result WorksetError A)
    → ((t : T) → e t ≢ name_error p)
    → (elim o as (λ x. W × Result WorksetError A) [ some at ↦ (world, err (e at)) | none ↦ r ])
      ≡ (world', err (name_error p))
    → (o ≡ none) × (r ≡ (world', err (name_error p)))
none_passed none e p world world' r n h = (refl, h)
none_passed (some t) e p world world' r n h =
    absurd (n t (same_error (e t) (name_error p) (ap (λ q. q.1) h)))

module _ {F L V : Type 0} (yaml : Yaml F L) (faithful : Faithful yaml) (sequences : Sequences L)
    (show : V → Text) (quote : Text → V) (inverse : (t : Text) → show (quote t) ≡ t)
    (path_of resolve : Text → Text) (laws : PathLaws path_of resolve) (home : Text) where
  abbrev State : Type 0
  State = World F show quote

  abbrev In : State → Type 0
  In world = InStep yaml faithful sequences show quote inverse path_of resolve laws home world

  -- A loading fails for its form only.
  bound_malformed :
      (k t : Text) (r : Result WorksetError (Dict Text Text)) (e : WorksetError)
      → ((d : WorksetError) → r ≡ err d → d ≡ malformed)
      → (r >>= λ roots. ok ((k, path_of t) ∷ roots)) ≡ err e
      → e ≡ malformed
  bound_malformed k t (err d) e h i = h e i
  bound_malformed k t (ok roots) e h i = cc

  roots_of_malformed :
      (d : Table L) (e : WorksetError) → roots_of yaml path_of d ≡ err e → e ≡ malformed
  unfolding roots_of
  roots_of_malformed end e h = cc
  roots_of_malformed (entry k (word t) d) e h =
      bound_malformed k t (roots_of yaml path_of d) e (λ x. roots_of_malformed d x) h
  roots_of_malformed (entry k (flag b) d) e h = cc
  roots_of_malformed (entry k (other v) d) e h = cc
  roots_of_malformed (entry k (table t) d) e h = cc

  roots_in_malformed :
      (v : Option (Value L)) (e : WorksetError) → roots_in yaml path_of v ≡ err e → e ≡ malformed
  unfolding roots_in
  roots_in_malformed none e h = cc
  roots_in_malformed (some (table t)) e h = roots_of_malformed t e h
  roots_in_malformed (some (flag b)) e h = cc
  roots_in_malformed (some (word t)) e h = cc
  roots_in_malformed (some (other v)) e h = cc

  load_registry_malformed :
      (file : Option F) (e : WorksetError) → load_registry yaml path_of file ≡ err e → e ≡ malformed
  unfolding load_registry
  load_registry_malformed none e h = cc
  load_registry_malformed (some content) e h =
      roots_in_malformed (get (text "worksets") (load_doc yaml (some content))) e h

  register_refused :
      (world world' : State) (ws : Workset L) (p : ProjectError)
      (r : Result ProjectError (Document show quote))
      → (elim r as (λ x. State × Result WorksetError (Workset L)) [
        | err e ↦ (world, err (name_error e))
        | ok names ↦ (record world { names = names }, ok ws)
      ])
        ≡ (world', err (name_error p))
      → world ≡ world'
  register_refused world world' ws p (err e) h = ap (λ q. q.0) h
  register_refused world world' ws p (ok names) h =
      absurd (ok_not_err ws (name_error p) (ap (λ q. q.1) h))
    where
      ok_not_err : (w : Workset L) (e : WorksetError) → ok w ≢ err e
      ok_not_err w e h = cc

  -- What a creation did that the registry of names refused.
  abbrev RefusedAt : State → Text → Text → State → Type 0
  RefusedAt world name root world' =
      (roots : Dict Text Text) × (load_registry yaml path_of world.hints ≡ ok roots)
      × (lookup name roots ≡ none)
      × (world'.hints ≡ write_registry yaml (insert name root roots))
      × (world'.names ≡ world.names)

  other_error : (e : WorksetError) (p : ProjectError) → e ≡ malformed → e ≢ name_error p
  other_error e p h k = cc

  create_new_refused :
      (world world' : State) (name root now : Text) (p : ProjectError)
      (loaded : Result WorksetError (Dict Text Text))
      → load_registry yaml path_of world.hints ≡ loaded
      → create_new yaml sequences show quote path_of resolve home world loaded name root now
        ≡ (world', err (name_error p))
      → RefusedAt world name (resolve root) world'
  unfolding create_new create_at register_workset
  create_new_refused world world' name root now p (err e) l h = absurd (
      other_error e p (load_registry_malformed world.hints e l)
        (same_error e (name_error p) (ap (λ q. q.1) h)))
  create_new_refused world world' name root now p (ok roots) l h =
      let (free, k) =
        none_passed (lookup name roots) (workset_registered name) p world world' _ (λ t q. cc) h in
      let j =
        if_passed (has (resolve root) world.disk) (root_exists (resolve root)) p world world' _
          (λ q. cc) k in
      let i =
        register_refused _ world' _ p
          (register_name show quote resolve home world.names name (resolve root) worksets) j in
      (roots, l, free, sym (ap (λ w. w.hints) i), sym (ap (λ w. w.names) i))

  create_workset_refused :
      (world world' : State) (name root now : Text) (p : ProjectError)
      → create_workset yaml sequences show quote path_of resolve home world name root now
        ≡ (world', err (name_error p))
      → RefusedAt world name (resolve root) world'
  unfolding create_workset
  create_workset_refused world world' name root now p h =
      let k = if_passed (name == []) empty_name p world world' _ (λ q. cc) h in
      let l = if_passed (is_reserved name) reserved_name p world world' _ (λ q. cc) k in
      create_new_refused world world' name root now p (load_registry yaml path_of world.hints) refl
        l

  -- What worksets.yaml says after the new name was written to it.
  lookup-written :
      (name root : Text) (roots : Dict Text Text)
      → path_of root ≡ root
      → ((k : Text) → map_path path_of (lookup k roots) ≡ lookup k roots)
      → (k : Text)
      → lookup k (map_paths path_of (in_order (insert name root roots)))
        ≡ (if k == name then some root else lookup k roots)
  lookup-written name root roots h normal k =
      lookup-map_paths path_of k (in_order (insert name root roots))
      ∙ ap (map_path path_of)
          (lookup-in_order k (insert name root roots) ∙ lookup-insert k name root roots)
      ∙ map_path-if path_of (k == name) (some root) (lookup k roots) (ap (λ s. some s) h) (normal k)

  -- The workset stands in worksets.yaml and in names.yaml it does not; all the rest is as it was.
  abbrev pub Alone : State → Text → Text → State → Type 0
  Alone world name root world' =
      (roots : Dict Text Text) × (load_registry yaml path_of world'.hints ≡ ok roots)
      × ((k : Text)
          → lookup k roots
            ≡ (if k == name then some root else path_in worksets k (load show quote world.names)))
      × (path_in worksets name (load show quote world'.names) ≡ none)
      × (world'.names ≡ world.names)

  not_both :
      (name root : Text) (o : Option Text)
      → o ≡ (if name == name then some root else none)
      → o ≢ none
  not_both name root o h k = ground arith

  -- Two registries of which one has the workset are out of step.
  Alone-apart :
      (world world' : State) (name root : Text)
      → Alone world name root world'
      → ¬ InStep yaml faithful sequences show quote inverse path_of resolve laws home world'
  Alone-apart world world' name root (roots, l, now, missing, _) (after, m, _, step) =
      let e : after ≡ roots = cc in
      not_both name root (lookup name after) (ap (lookup name) e ∙ now name ∙ ground arith)
        (step name ∙ missing)

  -- Over a YAML library that reads back what it writes, and where a resolved path is in the form
  -- of `pathlib`: if the registry of names refuses a creation, say because a project has the name,
  -- and the two registries were in step before, then names.yaml stays as it is, worksets.yaml
  -- alone has the new workset, beside every other one that it had, and the registries are in step no
  -- more.
  pub create_workset-InStep :
      (world world' : State) (name root now : Text) (p : ProjectError)
      → InStep yaml faithful sequences show quote inverse path_of resolve laws home world
      → create_workset yaml sequences show quote path_of resolve home world name root now
        ≡ (world', err (name_error p))
      → Alone world name (resolve root) world'
        × (¬ InStep yaml faithful sequences show quote inverse path_of resolve laws home world')
  create_workset-InStep world world' name root now p (known, k, normal, step) h =
      let (roots, m, free, hints, names) = create_workset_refused world world' name root now p h in
      let e : roots ≡ known = cc in
      let alone : Alone world name (resolve root) world' = (
        map_paths path_of (in_order (insert name (resolve root) known)),
        ap (load_registry yaml path_of)
              (hints ∙ ap (λ r. write_registry yaml (insert name (resolve root) r)) e)
            ∙ load_registry-write_registry yaml faithful path_of (insert name (resolve root) known),
        λ n.
            lookup-written name (resolve root) known (laws.path_of-resolve root) normal n
            ∙ ap (λ o. if n == name then some (resolve root) else o) (step n),
        ap (λ f. path_in worksets name (load show quote f)) names
            ∙ sym (step name)
            ∙ sym (ap (lookup name) e)
            ∙ free,
        names,
      ) in
      (alone, Alone-apart world world' name (resolve root) alone)
