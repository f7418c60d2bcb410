-- ===== src/Hub/Dispatch.antt =====
-- The connection table, the routing of messages and `_dispatch` of
-- src/kanibako/helper_listener.py. A connection is a number; `alive` tells whether a write to it
-- succeeds, and the `OSError` of another is caught by the routing.
use kanibako.Prelude.{
  ℕ, Bool, Option, none, some, [], ◌∷◌, ◌++◌, Text, text, ◌==◌, nat_eq, text_eq, if◌then◌else◌,
  Result, ok, err, ◌>>=◌,
}
use kanibako.Prelude.Int.{ℤ, pos, negsuc, eqb_ℤ}
use kanibako.Prelude.Dict.{Dict, lookup}
use kanibako.Hub.State.{
  helper, all_helpers, Reply, status_ok, status_error, message_from, Entry, message, control, Hub,
  Raised, not_a_number, not_a_text,
}
use kanibako.Hub.Containers.{logging, handle_stop}
use kanibako.Hub.Launch.{Launch, RunResult, FileSystem, HelperContext, handle_spawn}

-- `connections.get(num)`
unfoldable pub connection : ℤ → Dict ℤ ℕ → Option ℕ
connection num [] = none
connection num ((k, c) ∷ rest) =
    let later = connection num rest in if eqb_ℤ num k then some c else later

-- `connections[num] = conn`
unfoldable pub connect : ℤ → ℕ → Dict ℤ ℕ → Dict ℤ ℕ
connect num conn [] = (num, conn) ∷ []
connect num conn ((k, c) ∷ rest) =
    let later = connect num conn rest in if eqb_ℤ num k then (k, conn) ∷ rest else (k, c) ∷ later

-- `connections.pop(num, None)`
unfoldable pub disconnect : ℤ → Dict ℤ ℕ → Dict ℤ ℕ
disconnect num [] = []
disconnect num ((k, c) ∷ rest) =
    let later = disconnect num rest in if eqb_ℤ num k then later else (k, c) ∷ later

module _ (J : Type 0) where
  unfoldable pub with_connections : Dict ℤ ℕ → Hub J → Hub J
  with_connections connections hub = record {
    connections = connections;
    containers = hub.containers;
    sent = hub.sent;
    logged = hub.logged;
    started = hub.started;
    stopped = hub.stopped;
  }

  unfoldable pub register : ℤ → ℕ → Hub J → Hub J
  unfolding with_connections connect
  register num conn hub = with_connections (connect num conn hub.connections) hub

  unfoldable pub unregister : ℤ → Hub J → Hub J
  unfolding with_connections disconnect
  unregister num hub = with_connections (disconnect num hub.connections) hub

  unfoldable pub send_to : (ℕ → Bool) → ℕ → Reply J → Hub J → Hub J
  send_to alive conn reply hub = record {
    connections = hub.connections;
    containers = hub.containers;
    sent = if alive conn then hub.sent ++ (conn, reply) ∷ [] else hub.sent;
    logged = hub.logged;
    started = hub.started;
    stopped = hub.stopped;
  }

  unfoldable pub route_message : (ℕ → Bool) → Bool → ℤ → ℤ → J → Hub J → Hub J
  unfolding logging connection send_to
  route_message alive has_log sender recipient payload hub =
      let after = logging J has_log (message sender (helper recipient) payload) hub in
      elim (connection recipient hub.connections) [
        | none ↦ after
        | some conn ↦ send_to alive conn (message_from sender payload) after
      ]

  -- The loop over the connections that there were when it began.
  unfoldable pub send_each : (ℕ → Bool) → ℤ → J → Dict ℤ ℕ → Hub J → Hub J
  unfolding send_to
  send_each alive sender payload [] hub = hub
  send_each alive sender payload ((num, conn) ∷ rest) hub =
      send_each alive sender payload rest
        (if eqb_ℤ num sender then hub else send_to alive conn (message_from sender payload) hub)

  unfoldable pub broadcast_message : (ℕ → Bool) → Bool → ℤ → J → Hub J → Hub J
  unfolding logging send_each
  broadcast_message alive has_log sender payload hub =
      send_each alive sender payload hub.connections
        (logging J has_log (message sender all_helpers payload) hub)

-- What the hub uses of JSON values, and of the world around it. `int_of` is Python's `int`, `none`
-- where that raises; `halts` tells for which containers the runtime's `stop` and `rm` both return;
-- `fork` is `_handle_fork`, which raises, or answers and may log.
pub record World (P J : Type 0) : Type 0 where
  pub int_of : J → Option ℤ
  pub text_of : J → Option Text
  pub truthy : J → Bool
  pub is_null : J → Bool
  pub show : J → Text
  pub as_json : Text → J
  pub null : J
  pub empty_object : J
  pub alive : ℕ → Bool
  pub int : Text → Option ℤ
  pub fs : FileSystem P
  pub run : Launch P J → RunResult
  pub halts : Text → Bool
  pub fork : HelperContext P → Dict Text J → Result Raised (Reply J × Option (Entry J))

module _ {P J : Type 0} (world : World P J) (has_log : Bool)
    (context : Option (HelperContext P)) where
  -- `int(request.get(key, -1))`
  abbrev number_at : Text → Dict Text J → Result Raised ℤ
  number_at key request = elim (lookup key request) [
    | none ↦ ok (negsuc 0)
    | some v ↦ elim (world.int_of v) [ none ↦ err not_a_number | some n ↦ ok n ]
  ]

  abbrev get_or : Text → J → Dict Text J → J
  get_or key fallback request = elim (lookup key request) [ none ↦ fallback | some v ↦ v ]

  abbrev if_true : Option J → Option J
  if_true none = none
  if_true (some v) = if world.truthy v then some v else none

  abbrev sender_of : Option ℤ → ℤ
  sender_of none = pos 0
  sender_of (some n) = n

  abbrev Answer : Type 0
  Answer = Result Raised (Reply J × Option ℤ × Hub J)

  abbrev pub answer : Option ℤ → Reply J × Hub J → Answer
  answer current (reply, hub) = ok (reply, current, hub)

  -- `helper_num` is what `int` makes of the request's number.
  unfoldable pub register_as : ℕ → Result Raised ℤ → Option ℤ → Hub J → Answer
  unfolding register logging
  register_as conn (err e) current hub = err e
  register_as conn (ok (negsuc k)) current hub =
      ok (status_error (text "invalid helper_num"), current, hub)
  register_as conn (ok (pos k)) current hub = ok (
    status_ok,
    some (pos k),
    logging J has_log (control (text "register") (some (pos k)) []) (register J (pos k) conn hub),
  )

  unfoldable pub handle_register : ℕ → Dict Text J → Option ℤ → Hub J → Answer
  unfolding register_as
  handle_register conn request current hub =
      register_as conn (number_at (text "helper_num") request) current hub

  -- `to` is what `int` makes of the recipient.
  unfoldable pub send_message : Dict Text J → Option ℤ → Option ℤ → Hub J → Answer
  unfolding route_message
  send_message request current none hub = err not_a_number
  send_message request current (some to) hub = ok (
    status_ok,
    current,
    route_message J world.alive has_log (sender_of current) to
        (get_or (text "payload") world.empty_object request) hub,
  )

  unfoldable pub handle_send : Dict Text J → Option ℤ → Hub J → Answer
  unfolding send_message
  handle_send request current hub = elim (lookup (text "to") request) [
    | none ↦ ok (status_error (text "missing 'to'"), current, hub)
    | some to ↦
        if world.is_null to
        then ok (status_error (text "missing 'to'"), current, hub)
        else send_message request current (world.int_of to) hub
  ]

  unfoldable pub handle_broadcast : Dict Text J → Option ℤ → Hub J → Answer
  unfolding broadcast_message
  handle_broadcast request current hub = ok (
    status_ok,
    current,
    broadcast_message J world.alive has_log (sender_of current)
        (get_or (text "payload") world.empty_object request) hub,
  )

  unfoldable pub spawn_as :
      HelperContext P → Result Raised ℤ → Dict Text J → Option ℤ → Hub J → Answer
  unfolding handle_spawn
  spawn_as ctx (err e) request current hub = err e
  spawn_as ctx (ok n) request current hub = answer current (
      handle_spawn world.fs world.as_json world.run has_log ctx n
        (if_true (lookup (text "model") request)) (get_or (text "model") world.null request) hub)

  unfoldable pub spawn_request : Dict Text J → Option ℤ → Hub J → Answer
  unfolding spawn_as
  spawn_request request current hub = elim context [
    | none ↦ ok (status_error (text "no context"), current, hub)
    | some ctx ↦ spawn_as ctx (number_at (text "helper_num") request) request current hub
  ]

  unfoldable pub name_at : Dict Text J → Result Raised Text
  name_at request = elim (if_true (lookup (text "container_name") request)) [
    | none ↦ ok []
    | some v ↦ elim (world.text_of v) [ none ↦ err not_a_text | some name ↦ ok name ]
  ]

  unfoldable pub stop_named : Result Raised Text → Option ℤ → Hub J → Answer
  unfolding handle_stop
  stop_named (err e) current hub = err e
  stop_named (ok name) current hub =
      handle_stop J world.int world.halts has_log name hub >>= λ done. answer current done

  unfoldable pub stop_request : Dict Text J → Option ℤ → Hub J → Answer
  unfolding stop_named name_at
  stop_request request current hub = elim context [
    | none ↦ ok (status_error (text "no context"), current, hub)
    | some ctx ↦ stop_named (name_at request) current hub
  ]

  unfoldable pub forked : Reply J × Option (Entry J) → Hub J → Reply J × Hub J
  forked (reply, none) hub = (reply, hub)
  forked (reply, some entry) hub = (reply, logging J has_log entry hub)

  unfoldable pub fork_request : Dict Text J → Option ℤ → Hub J → Answer
  unfolding forked
  fork_request request current hub = elim context [
    | none ↦ ok (status_error (text "no context"), current, hub)
    | some ctx ↦ world.fork ctx request >>= λ done. answer current (forked done hub)
  ]

  -- A value that is no text is none of the actions.
  abbrev pub action_of : Option J → Text
  action_of none = []
  action_of (some v) = elim (world.text_of v) [ none ↦ [] | some t ↦ t ]

  abbrev pub shown_action : Option J → Text
  shown_action none = []
  shown_action (some v) = world.show v

  unfoldable pub dispatch : ℕ → Dict Text J → Option ℤ → Hub J → Answer
  unfolding handle_register spawn_request stop_request name_at fork_request handle_send
      handle_broadcast
  dispatch conn request current hub =
      let action = action_of (lookup (text "action") request) in
      if action == text "register"
      then handle_register conn request current hub
      else if action == text "spawn"
      then spawn_request request current hub
      else if action == text "stop"
      then stop_request request current hub
      else if action == text "fork"
      then fork_request request current hub
      else if action == text "send"
      then handle_send request current hub
      else if action == text "broadcast"
      then handle_broadcast request current hub
      else ok (
        status_error (text "unknown action: " ++ shown_action (lookup (text "action") request)),
        current,
        hub,
      )
