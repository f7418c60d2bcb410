-- ===== src/Worksets/Reloaded.antt =====
-- worksets.yaml, written and loaded again, and calls that did not refuse.
use kanibako.Prelude.{
  ◌≡◌, ◌≢◌, refl, ap, ◌∙◌, Bool, true, false, Option, none, some, [], ◌∷◌, arith, Text, text,
  text_eq, ℕ_discrete, if◌then◌else◌, Result, ok, err,
}
use kanibako.Prelude.Dict.{Dict, lookup}
use kanibako.Documents.Table.{get}
use kanibako.Documents.Files.{Yaml, Faithful, dump_doc, load_doc-dump_doc}
use kanibako.Config.Flatten.{of_entries}
use kanibako.Names.Document.{in_order}
use kanibako.Worksets.Registry.{roots_of, roots_in, load_registry, write_registry}

-- A resolved path is in the normal form of `str(Path(s))`.
pub record PathLaws (path_of resolve : Text → Text) : Type 0 where
  pub path_of-resolve : (s : Text) → path_of (resolve s) ≡ resolve s

abbrev pub map_path : (Text → Text) → Option Text → Option Text
map_path f none = none
map_path f (some s) = some (f s)

abbrev pub map_paths : (Text → Text) → Dict Text Text → Dict Text Text
map_paths f [] = []
map_paths f ((k, v) ∷ d) = (k, f v) ∷ map_paths f d

pub lookup-map_paths :
    (f : Text → Text) (k : Text) (d : Dict Text Text)
    → lookup k (map_paths f d) ≡ map_path f (lookup k d)
unfolding lookup
lookup-map_paths f k [] = refl
lookup-map_paths f k ((j, v) ∷ d) = ground (arith, lookup-map_paths f k d)

-- An operation that returned did not refuse.
pub err_not_ok : {E A : Type 0} (e : E) (a : A) → err e ≢ ok a
err_not_ok e a h = cc

pub if_refused :
    {W E A : Type 0} (b : Bool) (e : E) (world world' : W) (a : A) (r : W × Result E A)
    → (if b then (world, err e) else r) ≡ (world', ok a)
    → (b ≡ false) × (r ≡ (world', ok a))
if_refused true e world world' a r h = absurd (err_not_ok e a (ap (λ p. p.1) h))
if_refused false e world world' a r h = (refl, h)

pub some_refused :
    {W E A T : Type 0} (o : Option T) (e : T → E) (world world' : W) (a : A) (r : W × Result E A)
    → (elim o as (λ x. W × Result E A) [ some at ↦ (world, err (e at)) | none ↦ r ])
      ≡ (world', ok a)
    → (o ≡ none) × (r ≡ (world', ok a))
some_refused none e world world' a r h = (refl, h)
some_refused (some at) e world world' a r h = absurd (err_not_ok (e at) a (ap (λ p. p.1) h))

pub none_refused :
    {W E A T : Type 0} (o : Option T) (e : E) (world world' : W) (a : A) (r : T → W × Result E A)
    → (elim o as (λ x. W × Result E A) [ some at ↦ r at | none ↦ (world, err e) ]) ≡ (world', ok a)
    → (t : T) × (r t ≡ (world', ok a))
none_refused none e world world' a r h = absurd (err_not_ok e a (ap (λ p. p.1) h))
none_refused (some at) e world world' a r h = (at, h)

pub map_path-if :
    (f : Text → Text) (b : Bool) (o o' : Option Text)
    → map_path f o ≡ o
    → map_path f o' ≡ o'
    → map_path f (if b then o else o') ≡ (if b then o else o')
map_path-if f true o o' h k = h
map_path-if f false o o' h k = k

module _ {F L : Type 0} (yaml : Yaml F L) (faithful : Faithful yaml) (path_of : Text → Text) where
  roots_of-of_entries :
      (d : Dict Text Text) → roots_of yaml path_of (of_entries d) ≡ ok (map_paths path_of d)
  unfolding roots_of
  roots_of-of_entries [] = refl
  roots_of-of_entries ((k, v) ∷ d) = rw (roots_of-of_entries d) refl

  pub load_registry-write_registry :
      (roots : Dict Text Text)
      → load_registry yaml path_of (write_registry yaml roots)
        ≡ ok (map_paths path_of (in_order roots))
  unfolding load_registry write_registry dump_doc roots_in get text_eq ℕ_discrete
  load_registry-write_registry roots =
      ap (λ d. roots_in yaml path_of (get (text "worksets") d)) (load_doc-dump_doc yaml faithful _)
      ∙ roots_of-of_entries (in_order roots)
