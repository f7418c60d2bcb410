-- ===== src/Hub/Tests.antt =====
-- A hub with toy JSON values, and the theorems at concrete requests.
use kanibako.Prelude.{
  ℕ, ◌-◌, ◌≡◌, refl, true, false, Option, none, some, List, [], ◌∷◌, ◌++◌, arith, Text, text, ◌==◌,
  nat_eq, text_eq, ℕ_discrete, if◌then◌else◌, contains, ok,
}
use kanibako.Prelude.Int.{ℤ, pos}
use kanibako.Prelude.Decimal.{decimal}
use kanibako.Prelude.Strings.{has_char}
use kanibako.Prelude.Dict.{lookup}
use kanibako.Hub.State.{Hub, status_ok}
use kanibako.Hub.Containers.{Accounted, shut_down}
use kanibako.Hub.Launch.{HelperContext, exited}
use kanibako.Hub.Dispatch.{World, connection, register}
use kanibako.Hub.Reader.{Parsed, object, client_reader, finish}
use kanibako.Hub.Lines.{cut, read_chunks, read_chunks-cut}
use kanibako.Hub.Log.{LogFile, size, write_all, Bounded, write_all-Bounded}
use kanibako.Hub.Numbers.{parse_helper_num, helper_container, parse_helper_num-helper_container}
use kanibako.Hub.Reconnect.{finish-reconnected}
use kanibako.Hub.Tracking.{shut_down-client_reader}

-- A JSON value is a text here, and a number is one digit.
abbrev digit : Text → Option ℤ
digit [] = none
digit (c ∷ s) = some (pos (c - b'0'))

abbrev world : World Text Text
world = record {
  int_of = digit;
  text_of = λ t. some t;
  truthy = λ t. if t == [] then false else true;
  is_null = λ t. false;
  show = λ t. t;
  as_json = λ t. t;
  null = [];
  empty_object = [];
  alive = λ c. true;
  int = digit;
  fs = record {
    join = λ p s. p ++ s;
    is_dir = λ p. false;
    exists = λ p. false;
    is_file = λ p. false;
  };
  run = λ job. exited (pos 0);
  halts = λ name. true;
  fork = λ ctx request. ok (status_ok, none);
}

abbrev context : HelperContext Text
context = record {
  image = text "image";
  container_name_prefix = text "kanibako-app";
  helpers_dir = text "/h";
  socket_path = text "/s";
  binary_mounts = [];
  env = none;
  entrypoint = none;
  default_entrypoint = none;
}

-- Each line spawns helper 3.
abbrev loads : Text → Parsed Text
loads line = object ((text "action", text "spawn") ∷ (text "helper_num", text "3") ∷ [])

abbrev idle : Hub Text
idle = record {
  connections = [];
  containers = [];
  sent = [];
  logged = [];
  started = [];
  stopped = [];
}

idle-Accounted : Accounted Text idle
idle-Accounted name h = cc

abbrev served : Hub Text
served = client_reader world true (some context) loads 7 (text "sp" ∷ text "awn\n" ∷ []) idle

served_started : contains served.started (text "kanibako-app-helper-3") ≡ true
unfolding client_reader cut lookup decimal text_eq ℕ_discrete
served_started = refl

shut_down-client_reader_example :
    contains (shut_down Text world.halts true served).stopped (text "kanibako-app-helper-3") ≡ true
shut_down-client_reader_example =
    shut_down-client_reader world true (some context) loads 7 (text "sp" ∷ text "awn\n" ∷ []) idle
      idle-Accounted (text "kanibako-app-helper-3") served_started refl

nothing_left : cut [] ≡ ([], [])
unfolding cut
nothing_left = refl

read_chunks-cut_example : read_chunks [] (text "a\nb" ∷ text "c\n" ∷ []) ≡ cut (text "a\nbc\n")
read_chunks-cut_example = read_chunks-cut [] (text "a\nb" ∷ text "c\n" ∷ []) nothing_left

no_dash : has_char b'-' (text "3") ≡ false
unfolding has_char ℕ_discrete
no_dash = refl

parse_helper_num-helper_container_example :
    parse_helper_num digit (helper_container (text "kanibako-helper-9") (text "3")) ≡ some (pos 3)
parse_helper_num-helper_container_example =
    parse_helper_num-helper_container digit (text "3") (pos 3) refl (text "kanibako-helper-9")
      no_dash

abbrev tell : List Text → Option ℕ
tell lines = some (size lines)

tells : (lines : List Text) → tell lines ≡ some (size lines)
tells lines = refl

abbrev empty_log : LogFile
empty_log = record { lines = []; backup = none }

empty_log-Bounded : Bounded 10 empty_log
unfolding size
empty_log-Bounded = (omega arith, tt)

write_all-Bounded_example : Bounded 10 (write_all tell (text "spawn" ∷ text "stop" ∷ []) empty_log)
write_all-Bounded_example =
    write_all-Bounded tell 10 tells (text "spawn" ∷ text "stop" ∷ []) empty_log
      (omega arith, (omega arith, tt)) empty_log-Bounded

finish-reconnected_example :
    (connection (pos 3) (register Text (pos 3) 8 (register Text (pos 3) 7 idle)).connections
      ≡ some 8)
    × (connection
          (pos 3)
          (finish world true
            (some context)
            loads
            7
            (some (pos 3), register Text (pos 3) 8 (register Text (pos 3) 7 idle))).connections
        ≡ none)
finish-reconnected_example = finish-reconnected world (some context) loads true (pos 3) 7 8 idle
