-- ===== src/Hub/Containers.antt =====
-- `_handle_stop`, `stop` and the tracking of containers in src/kanibako/helper_listener.py. `halts`
-- tells for which containers the runtime's `stop` and `rm` both return.
use kanibako.Prelude.{
  ◌≡◌, refl, Bool, true, false, ◌||◌, Option, none, some, List, [], ◌∷◌, ◌++◌, arith, Text, text,
  ◌==◌, contains, text_eq, if◌then◌else◌, Result, ok, err, Bool-cases, inl, inr,
}
use kanibako.Prelude.Int.{ℤ}
use kanibako.Hub.State.{Reply, status_ok, status_error, Entry, control, Hub, Raised, runtime_raised}
use kanibako.Hub.Numbers.{parse_helper_num}

-- `containers.remove(name)` where it is known to be there: the first of that name.
unfoldable pub remove_first : Text → List Text → List Text
remove_first name [] = []
remove_first name (x ∷ xs) = let rest = remove_first name xs in if x == name then xs else x ∷ rest

module _ (J : Type 0) where
  -- An entry of the log, where there is a log.
  unfoldable pub logging : Bool → Entry J → Hub J → Hub J
  logging false entry hub = hub
  logging true entry hub = record {
    connections = hub.connections;
    containers = hub.containers;
    sent = hub.sent;
    logged = hub.logged ++ entry ∷ [];
    started = hub.started;
    stopped = hub.stopped;
  }

  -- The runtime's `stop` and `rm`, which returned, and the end of the tracking.
  unfoldable pub stop_container : Text → Hub J → Hub J
  unfolding remove_first
  stop_container name hub = record {
    connections = hub.connections;
    containers =
        if contains hub.containers name then remove_first name hub.containers else hub.containers;
    sent = hub.sent;
    logged = hub.logged;
    started = hub.started;
    stopped = hub.stopped ++ name ∷ [];
  }

  -- What the runtime did by itself: it started a container.
  unfoldable pub ran : Text → Hub J → Hub J
  ran name hub = record {
    connections = hub.connections;
    containers = hub.containers;
    sent = hub.sent;
    logged = hub.logged;
    started = hub.started ++ name ∷ [];
    stopped = hub.stopped;
  }

  -- `self._containers.append(name)`
  unfoldable pub track : Text → Hub J → Hub J
  track name hub = record {
    connections = hub.connections;
    containers = hub.containers ++ name ∷ [];
    sent = hub.sent;
    logged = hub.logged;
    started = hub.started;
    stopped = hub.stopped;
  }

  unfoldable pub stop_logged : (Text → Option ℤ) → Bool → Text → Hub J → Hub J
  unfolding stop_container logging
  stop_logged int has_log name hub =
      let after = stop_container name hub in
      elim (parse_helper_num int name) [
        | none ↦ after
        | some n ↦ logging has_log (control (text "stop") (some n) []) after
      ]

  -- `_handle_stop` for a hub with a context. An exception of the runtime leaves the tracking.
  unfoldable pub handle_stop :
      (Text → Option ℤ) → (Text → Bool) → Bool → Text → Hub J → Result Raised (Reply J × Hub J)
  unfolding stop_logged
  handle_stop int halts has_log [] hub = ok (status_error (text "missing container_name"), hub)
  handle_stop int halts has_log (c ∷ name) hub =
      if halts (c ∷ name)
      then ok (status_ok, stop_logged int has_log (c ∷ name) hub)
      else err runtime_raised

  -- The containers of a list that the runtime stops and removes without an exception.
  unfoldable pub halted : (Text → Bool) → List Text → List Text
  halted halts [] = []
  halted halts (name ∷ names) =
      let rest = halted halts names in if halts name then name ∷ rest else rest

  -- `stop`: if there is a context, the runtime is told to stop and remove every tracked container,
  -- and one that raises does not keep the others; and every connection is closed.
  unfoldable pub shut_down : (Text → Bool) → Bool → Hub J → Hub J
  unfolding halted
  shut_down halts has_context hub = record {
    connections = [];
    containers = if has_context then [] else hub.containers;
    sent = hub.sent;
    logged = hub.logged;
    started = hub.started;
    stopped = if has_context then hub.stopped ++ halted halts hub.containers else hub.stopped;
  }

  -- Every container that was started is tracked or was stopped.
  abbrev pub Accounted : Hub J → Type 0
  Accounted hub =
      (name : Text)
      → contains hub.started name ≡ true
      → (contains hub.containers name || contains hub.stopped name) ≡ true

  contains-append :
      (xs ys : List Text) (a : Text) → contains (xs ++ ys) a ≡ (contains xs a || contains ys a)
  contains-append [] ys a = refl
  contains-append (x ∷ xs) ys a = ground (arith, contains-append xs ys a)

  contains-remove_first :
      (name a : Text) (xs : List Text)
      → contains xs a ≡ true
      → (contains (remove_first name xs) a || a == name) ≡ true
  unfolding remove_first
  contains-remove_first name a [] h = cc
  contains-remove_first name a (x ∷ xs) h = ground (arith, contains-remove_first name a xs)

  -- A container that was started is to be tracked.
  pub track-Accounted :
      (name : Text) (hub : Hub J) → Accounted hub → Accounted (track name (ran name hub))
  unfolding track ran
  track-Accounted name hub h a s = ground (
    arith,
    h a,
    contains-append hub.started (name ∷ []) a,
    contains-append hub.containers (name ∷ []) a,
  )

  pub stop_container-Accounted :
      (name : Text) (hub : Hub J) → Accounted hub → Accounted (stop_container name hub)
  unfolding stop_container
  stop_container-Accounted name hub h a s = ground (
    arith,
    h a s,
    contains-append hub.stopped (name ∷ []) a,
    contains-remove_first name a hub.containers,
  )

  contains-halted :
      (halts : Text → Bool) (xs : List Text) (a : Text)
      → halts a ≡ true
      → contains xs a ≡ true
      → contains (halted halts xs) a ≡ true
  unfolding halted
  contains-halted halts [] a h k = cc
  contains-halted halts (x ∷ xs) a h k = elim (text_eq.dec x a) [
    | yes p ↦ rw (halted, p, h) (ground arith)
    | no n ↦ elim (Bool-cases (halts x)) [
      | inl e ↦ rw (halted, e) (ground (arith, contains-halted halts xs a h))
      | inr e ↦ rw (halted, e) (contains-halted halts xs a h (ground arith))
    ]
  ]

  pub shut_down-Accounted :
      (halts : Text → Bool) (hub : Hub J)
      → Accounted hub
      → (name : Text) → contains hub.started name ≡ true
      → halts name ≡ true
      → contains (shut_down halts true hub).stopped name ≡ true
  unfolding shut_down
  shut_down-Accounted halts hub h name s t = ground (
    arith,
    h name s,
    contains-halted halts hub.containers name t,
    contains-append hub.stopped (halted halts hub.containers) name,
  )
