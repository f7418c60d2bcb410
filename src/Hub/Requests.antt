-- ===== src/Hub/Requests.antt =====
-- What one request does to the tracking of containers: none is lost.
use kanibako.Prelude.{
  ℕ, Bool, true, false, Option, none, some, [], ◌∷◌, ◌++◌, Text, text, ◌==◌, nat_eq, text_eq,
  if◌then◌else◌, Result, ok, err, ◌>>=◌, Bool-cases, Option-cases, inl, inr,
}
use kanibako.Prelude.Int.{ℤ, pos, negsuc, eqb_ℤ}
use kanibako.Prelude.Decimal.{decimal}
use kanibako.Prelude.Dict.{Dict, lookup}
use kanibako.Hub.State.{Reply, status_error, Entry, Hub, Raised}
use kanibako.Hub.Containers.{
  logging, stop_logged, handle_stop, Accounted, track-Accounted, stop_container-Accounted,
}
use kanibako.Hub.Numbers.{parse_helper_num}
use kanibako.Hub.Launch.{
  HelperContext, FileSystem, Launch, RunResult, exited, failed, launch, run_done, spawned,
  handle_spawn,
}
use kanibako.Hub.Dispatch.{
  World, answer, action_of, shown_action, dispatch, register_as, spawn_as, stop_named,
  route_message, broadcast_message, send_each, send_to, connection, register, handle_register,
  spawn_request, stop_request, fork_request, forked, handle_send, send_message, handle_broadcast,
}

module _ {J : Type 0} where
  pub logging-Accounted :
      (b : Bool) (e : Entry J) (hub : Hub J) → Accounted J hub → Accounted J (logging J b e hub)
  unfolding logging
  logging-Accounted false e hub h = h
  logging-Accounted true e hub h = h

  send_each-Accounted :
      (alive : ℕ → Bool) (sender : ℤ) (payload : J) (conns : Dict ℤ ℕ) (hub : Hub J)
      → Accounted J hub
      → Accounted J (send_each J alive sender payload conns hub)
  unfolding send_each send_to
  send_each-Accounted alive sender payload [] hub h = h
  send_each-Accounted alive sender payload ((num, conn) ∷ rest) hub h =
      elim (Bool-cases (eqb_ℤ num sender)) [
        | inl e ↦ rw (send_each, e) (send_each-Accounted alive sender payload rest hub h)
        | inr e ↦ rw (send_each, e) (send_each-Accounted alive sender payload rest _ h)
      ]

  route_message-Accounted :
      (alive : ℕ → Bool) (b : Bool) (s r : ℤ) (payload : J) (hub : Hub J)
      → Accounted J hub
      → Accounted J (route_message J alive b s r payload hub)
  unfolding route_message send_to
  route_message-Accounted alive b s r payload hub h =
      elim (Option-cases (connection r hub.connections)) [
        | inl e ↦ rw (route_message, e) (logging-Accounted b _ hub h)
        | inr (c, e) ↦ rw (route_message, e) (logging-Accounted b _ hub h)
      ]

  stop_logged-Accounted :
      (int : Text → Option ℤ) (b : Bool) (name : Text) (hub : Hub J)
      → Accounted J hub
      → Accounted J (stop_logged J int b name hub)
  unfolding stop_logged
  stop_logged-Accounted int b name hub h = elim (Option-cases (parse_helper_num int name)) [
    | inl e ↦ rw (stop_logged, e) (stop_container-Accounted J name hub h)
    | inr (n, e) ↦
        rw (stop_logged, e) (logging-Accounted b _ _ (stop_container-Accounted J name hub h))
  ]

module _ {P J : Type 0} where
  spawned-Accounted :
      (fs : FileSystem P) (as_json : Text → J) (b : Bool) (name : Text) (n : ℤ) (model : J)
      (r : RunResult) (hub : Hub J)
      → Accounted J hub
      → Accounted J (spawned fs as_json b name n model r (run_done fs as_json name r hub)).1
  unfolding spawned run_done
  spawned-Accounted fs as_json b name n model (failed reason) hub h = h
  spawned-Accounted fs as_json b name n model (exited (negsuc rc)) hub h = h
  spawned-Accounted fs as_json b name n model (exited (pos rc)) hub h =
      elim (Bool-cases (rc == 0)) [
        | inl e ↦ rw e (logging-Accounted b _ _ (track-Accounted J name hub h))
        | inr e ↦ rw e h
      ]

  handle_spawn-Accounted :
      (fs : FileSystem P) (as_json : Text → J) (run : Launch P J → RunResult) (b : Bool)
      (ctx : HelperContext P) (n : ℤ) (m : Option J) (model : J) (hub : Hub J)
      → Accounted J hub
      → Accounted J (handle_spawn fs as_json run b ctx n m model hub).1
  unfolding handle_spawn
  handle_spawn-Accounted fs as_json run b ctx (negsuc n) m model hub h = h
  handle_spawn-Accounted fs as_json run b ctx (pos n) m model hub h =
      spawned-Accounted fs as_json b _ (pos n) model (run (launch fs as_json ctx (decimal n) m)) hub
        h

module _ {J : Type 0} where
  abbrev pub Kept : Result Raised (Reply J × Option ℤ × Hub J) → Type 0
  Kept (err e) = Unit
  Kept (ok (reply, current, hub)) = Accounted J hub

  Kept-if :
      (b : Bool) (m n : Result Raised (Reply J × Option ℤ × Hub J))
      → Kept m
      → Kept n
      → Kept (if b then m else n)
  Kept-if true m n h k = h
  Kept-if false m n h k = k

  chain-Kept :
      (a b c d e f : Bool) (m n o p q r s : Result Raised (Reply J × Option ℤ × Hub J))
      → Kept m
      → Kept n
      → Kept o
      → Kept p
      → Kept q
      → Kept r
      → Kept s
      → Kept (
          if a
          then m
          else if b
          then n
          else if c
          then o
          else if d
          then p
          else if e
          then q
          else if f
          then r
          else s)
  chain-Kept true b c d e f m n o p q r s k l t u v w x = k
  chain-Kept false true c d e f m n o p q r s k l t u v w x = l
  chain-Kept false false true d e f m n o p q r s k l t u v w x = t
  chain-Kept false false false true e f m n o p q r s k l t u v w x = u
  chain-Kept false false false false true f m n o p q r s k l t u v w x = v
  chain-Kept false false false false false true m n o p q r s k l t u v w x = w
  chain-Kept false false false false false false m n o p q r s k l t u v w x = x

module _ {P J : Type 0} (world : World P J) (has_log : Bool) where
  register_as-Kept :
      (context : Option (HelperContext P)) (conn : ℕ) (n : Result Raised ℤ) (current : Option ℤ)
      (hub : Hub J)
      → Accounted J hub
      → Kept (register_as world has_log context conn n current hub)
  unfolding register_as register
  register_as-Kept context conn (err e) current hub h = tt
  register_as-Kept context conn (ok (negsuc k)) current hub h = h
  register_as-Kept context conn (ok (pos k)) current hub h = logging-Accounted has_log _ _ h

  spawn_as-Kept :
      (context : Option (HelperContext P)) (ctx : HelperContext P) (n : Result Raised ℤ)
      (request : Dict Text J) (current : Option ℤ) (hub : Hub J)
      → Accounted J hub
      → Kept (spawn_as world has_log context ctx n request current hub)
  unfolding spawn_as
  spawn_as-Kept context ctx (err e) request current hub h = tt
  spawn_as-Kept context ctx (ok n) request current hub h =
      handle_spawn-Accounted world.fs world.as_json world.run has_log ctx n _ _ hub h

  stop_named-Kept :
      (context : Option (HelperContext P)) (name : Result Raised Text) (current : Option ℤ)
      (hub : Hub J)
      → Accounted J hub
      → Kept (stop_named world has_log context name current hub)
  unfolding stop_named handle_stop
  stop_named-Kept context (err e) current hub h = tt
  stop_named-Kept context (ok []) current hub h = h
  stop_named-Kept context (ok (c ∷ name)) current hub h =
      elim (Bool-cases (world.halts (c ∷ name))) [
        | inl e ↦ rw e (stop_logged-Accounted world.int has_log (c ∷ name) hub h)
        | inr e ↦ rw e tt
      ]

  handle_register-Kept :
      (context : Option (HelperContext P)) (conn : ℕ) (request : Dict Text J) (current : Option ℤ)
      (hub : Hub J)
      → Accounted J hub
      → Kept (handle_register world has_log context conn request current hub)
  unfolding handle_register
  handle_register-Kept context conn request current hub h =
      register_as-Kept context conn _ current hub h

  spawn_request-Kept :
      (context : Option (HelperContext P)) (request : Dict Text J) (current : Option ℤ)
      (hub : Hub J)
      → Accounted J hub
      → Kept (spawn_request world has_log context request current hub)
  unfolding spawn_request
  spawn_request-Kept none request current hub h = h
  spawn_request-Kept (some ctx) request current hub h =
      spawn_as-Kept (some ctx) ctx _ request current hub h

  stop_request-Kept :
      (context : Option (HelperContext P)) (request : Dict Text J) (current : Option ℤ)
      (hub : Hub J)
      → Accounted J hub
      → Kept (stop_request world has_log context request current hub)
  unfolding stop_request
  stop_request-Kept none request current hub h = h
  stop_request-Kept (some ctx) request current hub h = stop_named-Kept (some ctx) _ current hub h

  forked-Accounted :
      (context : Option (HelperContext P)) (r : Reply J × Option (Entry J)) (hub : Hub J)
      → Accounted J hub
      → Accounted J (forked world has_log context r hub).1
  unfolding forked
  forked-Accounted context (reply, none) hub h = h
  forked-Accounted context (reply, some entry) hub h = logging-Accounted has_log entry hub h

  forked-Kept :
      (context : Option (HelperContext P)) (r : Result Raised (Reply J × Option (Entry J)))
      (current : Option ℤ) (hub : Hub J)
      → Accounted J hub
      → Kept (
          r >>= λ done.
          answer world has_log context current (forked world has_log context done hub))
  forked-Kept context (err e) current hub h = tt
  forked-Kept context (ok done) current hub h = forked-Accounted context done hub h

  fork_request-Kept :
      (context : Option (HelperContext P)) (request : Dict Text J) (current : Option ℤ)
      (hub : Hub J)
      → Accounted J hub
      → Kept (fork_request world has_log context request current hub)
  unfolding fork_request
  fork_request-Kept none request current hub h = h
  fork_request-Kept (some ctx) request current hub h =
      forked-Kept (some ctx) (world.fork ctx request) current hub h

  send_message-Kept :
      (context : Option (HelperContext P)) (request : Dict Text J) (current : Option ℤ)
      (to : Option ℤ) (hub : Hub J)
      → Accounted J hub
      → Kept (send_message world has_log context request current to hub)
  unfolding send_message
  send_message-Kept context request current none hub h = tt
  send_message-Kept context request current (some to) hub h =
      route_message-Accounted world.alive has_log _ to _ hub h

  handle_send-Kept :
      (context : Option (HelperContext P)) (request : Dict Text J) (current : Option ℤ)
      (hub : Hub J)
      → Accounted J hub
      → Kept (handle_send world has_log context request current hub)
  unfolding handle_send
  handle_send-Kept context request current hub h =
      elim (Option-cases (lookup (text "to") request)) [
        | inl e ↦ rw (handle_send, e) h
        | inr (to, e) ↦
            rw (handle_send, e)
              (Kept-if (world.is_null to) _ _ h
                (send_message-Kept context request current (world.int_of to) hub h))
      ]

  handle_broadcast-Kept :
      (context : Option (HelperContext P)) (request : Dict Text J) (current : Option ℤ)
      (hub : Hub J)
      → Accounted J hub
      → Kept (handle_broadcast world has_log context request current hub)
  unfolding handle_broadcast broadcast_message
  handle_broadcast-Kept context request current hub h =
      send_each-Accounted world.alive _ _ hub.connections _ (logging-Accounted has_log _ hub h)

  pub dispatch-Kept :
      (context : Option (HelperContext P)) (conn : ℕ) (request : Dict Text J) (current : Option ℤ)
      (hub : Hub J)
      → Accounted J hub
      → Kept (dispatch world has_log context conn request current hub)
  unfolding dispatch
  dispatch-Kept context conn request current hub h =
      let action = action_of world has_log context (lookup (text "action") request) in
      chain-Kept (action == text "register") (action == text "spawn") (action == text "stop")
        (action == text "fork") (action == text "send") (action == text "broadcast")
        (handle_register world has_log context conn request current hub)
        (spawn_request world has_log context request current hub)
        (stop_request world has_log context request current hub)
        (fork_request world has_log context request current hub)
        (handle_send world has_log context request current hub)
        (handle_broadcast world has_log context request current hub)
        (ok (
          status_error (
              text "unknown action: "
              ++ shown_action world has_log context (lookup (text "action") request)),
          current,
          hub,
        ))
        (handle_register-Kept context conn request current hub h)
        (spawn_request-Kept context request current hub h)
        (stop_request-Kept context request current hub h)
        (fork_request-Kept context request current hub h)
        (handle_send-Kept context request current hub h)
        (handle_broadcast-Kept context request current hub h) h
