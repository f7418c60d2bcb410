-- ===== src/Hub/Reader.antt =====
-- `_client_reader` of src/kanibako/helper_listener.py for one connection, from its bytes to its end.
use kanibako.Prelude.{
  ℕ, Bool, Option, none, some, List, [], ◌∷◌, Text, text, ◌==◌, nat_eq, text_eq, if◌then◌else◌,
  Result, ok, err, all, ◌||◌,
}
use kanibako.Prelude.Int.{ℤ}
use kanibako.Prelude.Dict.{Dict}
use kanibako.Hub.State.{Raised, Reply, status_error, control, Hub}
use kanibako.Hub.Containers.{logging}
use kanibako.Hub.Launch.{HelperContext}
use kanibako.Hub.Dispatch.{World, dispatch, send_to, unregister}
use kanibako.Hub.Lines.{read_chunks}

-- The bytes that `strip` takes off.
abbrev is_space : ℕ → Bool
is_space c = c == 32 || c == 9 || c == 10 || c == 11 || c == 12 || c == 13

-- `not line.strip()`
unfoldable pub is_blank : Text → Bool
is_blank line = all is_space line

-- What `json.loads` makes of a line: an error, an object, or another value, which has no `get`.
pub data Parsed (J : Type 0) : Type 0 where
  invalid : Parsed J
  object : Dict Text J → Parsed J
  no_object : Parsed J

module _ {P J : Type 0} (world : World P J) (has_log : Bool) (context : Option (HelperContext P))
    (loads : Text → Parsed J) (conn : ℕ) where
  -- What the loop goes on with, or what it leaves if an exception ends it.
  pub data Round : Type 0 where
    goes_on ends : Option ℤ → Hub J → Round

  -- The response, whose write raises if the connection is gone.
  unfoldable pub respond : Reply J → Option ℤ → Hub J → Round
  unfolding send_to
  respond reply current hub =
      if world.alive conn
      then goes_on current (send_to J world.alive conn reply hub)
      else ends current hub

  unfoldable pub answered : Option ℤ → Hub J → Result Raised (Reply J × Option ℤ × Hub J) → Round
  unfolding respond
  answered current hub (err e) = ends current hub
  answered current hub (ok (reply, now, after)) = respond reply now after

  unfoldable pub read_parsed : Parsed J → Option ℤ → Hub J → Round
  unfolding answered respond dispatch
  read_parsed invalid current hub = respond (status_error (text "invalid JSON")) current hub
  read_parsed no_object current hub = ends current hub
  read_parsed (object request) current hub =
      answered current hub (dispatch world has_log context conn request current hub)

  -- One line.
  unfoldable pub read_line : Text → Option ℤ → Hub J → Round
  unfolding read_parsed is_blank
  read_line line current hub =
      if is_blank line then goes_on current hub else read_parsed (loads line) current hub

  unfoldable pub read_lines : List Text → Option ℤ → Hub J → Option ℤ × Hub J
  unfolding read_line
  read_lines [] current hub = (current, hub)
  read_lines (line ∷ lines) current hub = elim (read_line line current hub) [
    | goes_on now after ↦ read_lines lines now after
    | ends now after ↦ (now, after)
  ]

  -- The `finally` clause.
  unfoldable pub finish : Option ℤ × Hub J → Hub J
  unfolding unregister logging
  finish (none, hub) = hub
  finish (some n, hub) =
      logging J has_log (control (text "disconnect") (some n) []) (unregister J n hub)

  -- The whole life of a connection that delivers these chunks.
  unfoldable pub client_reader : List Text → Hub J → Hub J
  unfolding read_lines finish read_chunks
  client_reader chunks hub = finish (read_lines (read_chunks [] chunks).0 none hub)
