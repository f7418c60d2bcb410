-- ===== src/Hub/ForkTests.antt =====
-- A fork of a registered project, and the theorem at it.
use kanibako.Prelude.{◌≡◌, refl, true, false, none, some, [], ◌∷◌, ◌++◌, Text, text, text_eq}
use kanibako.Names.Document.{Document}
use kanibako.Names.Registry.{ProjectError}
use kanibako.Hub.Fork.{ForkContext, ForkDisk, text_name, handle_fork}
use kanibako.Hub.ForkNames.{Safe, handle_fork-Safe}

abbrev same : Text → Text
same t = t

inverse : (t : Text) → same (same t) ≡ t
inverse t = refl

abbrev disk : ForkDisk Text
disk = record {
  join = λ p s. p ++ (text "/" ++ s);
  beside = λ p s. p ++ (text "." ++ s);
  parent = λ p. p;
  base = λ p. p;
  shown = λ p. p;
  exists = λ p. some false;
  is_dir = λ p. true;
  copytree = λ p q. none;
  copy_metadata = λ p q. none;
}

abbrev ctx : ForkContext Text
ctx = record {
  project_path = some (text "/w/app");
  data_path = some (text "/d");
  boxes = none;
  shell_path = text "/d/boxes/app/shell";
}

abbrev file : Document same same
file = some ((text "projects", (text "app", text "/w/app") ∷ []) ∷ [])

abbrev named : Text → Text
named path = text "app.two"

abbrev described : ProjectError → Text
described e = []

handle_fork-Safe_example :
    Safe Text same same same
      (text "/home/me")
      named
      described
      disk
      inverse
      ctx
      (text_name (text " two "))
      file
      (handle_fork Text same same same
        (text "/home/me")
        named
        described
        disk
        ctx
        (text_name (text " two "))
        file)
handle_fork-Safe_example =
    handle_fork-Safe Text same same same (text "/home/me") named described disk inverse ctx
      (text_name (text " two ")) file
