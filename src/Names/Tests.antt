-- ===== src/Names/Tests.antt =====
-- A registry, and the theorems about it at concrete names and paths.
use kanibako.Prelude.{
  ◌≡◌, ◌≢◌, refl, Bool, true, false, none, some, [], ◌∷◌, ◌++◌, Text, text, ◌==◌, text_eq,
  ℕ_discrete, if◌then◌else◌, ok, err,
}
use kanibako.Prelude.Dict.{lookup, insert}
use kanibako.Prelude.Strings.{starts_with, has_char}
use kanibako.Names.Document.{projects, worksets, Document, load, save}
use kanibako.Names.Registry.{register_name, lookup_by_path, not_in_workset, unknown_workset}
use kanibako.Names.Laws.{
  path_in, Changed, Apart, register_name-Changed, Reachable, start, step, register, Reachable-Apart,
}
use kanibako.Names.ByPath.{Finds, lookup_by_path-Finds}
use kanibako.Names.Resolve.{
  project, is_inside, serves, resolve_name, resolve_qualified_name, resolve_name-inside,
  resolve_qualified_name-join,
}
use kanibako.Names.Assign.{assign_name, candidate, free_name, assign_name-Changed}

abbrev same : Text → Text
same t = t

abbrev Doc : Type 0
Doc = Document same same

inverse : (t : Text) → same (same t) ≡ t
inverse t = refl

abbrev home : Text
home = text "/home/me"

abbrev one : Doc
one = some ((text "projects", (text "app", text "/w/app") ∷ []) ∷ (text "worksets", []) ∷ [])

abbrev two : Doc
two = some (
    (text "projects", (text "app", text "/w/app") ∷ [])
    ∷ (text "worksets", (text "ws", text "/w/ws") ∷ [])
    ∷ [])

first_name : register_name same same same home none (text "app") (text "/w/app") projects ≡ ok one
unfolding register_name load save lookup insert text_eq ℕ_discrete
first_name = refl

second_name : register_name same same same home one (text "ws") (text "/w/ws") worksets ≡ ok two
unfolding register_name load save lookup insert text_eq ℕ_discrete
second_name = refl

register_name-Changed_example :
    (text "/w/ws" ≢ home)
    × (path_in projects (text "ws") (load same same one) ≡ none)
    × (path_in worksets (text "ws") (load same same one) ≡ none)
    × Changed (load same same one) worksets (text "ws") (some (text "/w/ws")) (load same same two)
register_name-Changed_example =
    register_name-Changed same same same home inverse one two (text "ws") (text "/w/ws") worksets
      second_name

two-Reachable : Reachable same same same home inverse two
two-Reachable =
    step (step start (register (text "app") (text "/w/app") projects first_name))
      (register (text "ws") (text "/w/ws") worksets second_name)

Reachable-Apart_example : Apart (load same same two)
Reachable-Apart_example = Reachable-Apart same same same home inverse two-Reachable

lookup_by_path-Finds_example :
    Finds same
      (text "/w/ws")
      (load same same two)
      (lookup_by_path same same same home two (text "/w/ws"))
lookup_by_path-Finds_example = lookup_by_path-Finds same same same home two (text "/w/ws")

abbrev join : Text → Text → Text
join root name = root ++ (text "/workspaces/" ++ name)

abbrev only_api : Text → Bool
only_api path = path == text "/w/ws/workspaces/api"

serves_api : serves join only_api (text "/w/ws/x") (text "api") (text "ws", text "/w/ws") ≡ true
unfolding serves is_inside starts_with text_eq ℕ_discrete
serves_api = refl

resolve_name-inside_example :
    resolve_name join only_api
      (record {
        projects = (text "api", text "/other") ∷ [];
        worksets = (text "ws", text "/w/ws") ∷ [];
      })
      (text "api")
      (some (text "/w/ws/x"))
    ≡ ok (text "/w/ws/workspaces/api", project)
resolve_name-inside_example =
    resolve_name-inside join only_api (text "/w/ws/x") (text "api")
      ((text "api", text "/other") ∷ []) [] (text "ws", text "/w/ws") [] tt serves_api

no_slash : has_char b'/' (text "ws") ≡ false
unfolding has_char ℕ_discrete
no_slash = refl

resolve_qualified_name-join_example :
    ((root : Text)
      → lookup (text "ws") (load same same two).worksets ≡ some root
      → resolve_qualified_name join only_api (load same same two) (text "ws/db") ≡ (
          if only_api (join root (text "db"))
          then ok (join root (text "db"), text "ws")
          else err (not_in_workset (text "db") (text "ws"))))
    × (lookup (text "ws") (load same same two).worksets ≡ none
        → resolve_qualified_name join only_api (load same same two) (text "ws/db")
          ≡ err (unknown_workset (text "ws")))
resolve_qualified_name-join_example =
    resolve_qualified_name-join join only_api (load same same two) (text "ws") (text "db") no_slash

third_name : free_name 4 (text "app") 1 (text "app" ∷ text "app2" ∷ []) ≡ some (text "app3")
unfolding free_name candidate text_eq ℕ_discrete
third_name = refl

abbrev app_name : Text → Text
app_name path = text "app"

away : text "/v/app" ≢ home
away = λ h. cc

assign_name-Changed_example :
    (name : Text) × (file' : Doc) × (assign_name same same same home app_name two
        (text "/v/app")
        projects
      ≡ some (ok (name, file')))
    × (path_in projects name (load same same two) ≡ none)
    × (path_in worksets name (load same same two) ≡ none)
    × Changed (load same same two) projects name (some (text "/v/app")) (load same same file')
assign_name-Changed_example =
    assign_name-Changed same same same home app_name inverse two (text "/v/app") projects away
