-- ===== src/PathNames/Tests.antt =====
-- Runs of the encoding, and its theorems at concrete paths.
use kanibako.Prelude.{◌≡◌, refl, [], arith, text, ℕ_discrete}
use kanibako.PathNames.Codec.{escape_path, unescape_path}
use kanibako.PathNames.RoundTrip.{IsPlain, unescape_path-escape_path, escape_path-collision}

encoded : escape_path (text "/home/my-app") ≡ text "home-my-.app"
unfolding escape_path ℕ_discrete
encoded = refl

home_app-IsPlain : IsPlain (text "home/my-app")
home_app-IsPlain = ground arith

unescape_path-escape_path_example :
    unescape_path (escape_path (text "/home/my-app")) ≡ text "/home/my-app"
unescape_path-escape_path_example =
    unescape_path-escape_path b'h' (text "ome/my-app") (omega arith) home_app-IsPlain

escape_path-collision_example : escape_path (text "/a/.b") ≡ escape_path (text "/a-b")
escape_path-collision_example = escape_path-collision b'a' [] (text "b") (omega arith)
