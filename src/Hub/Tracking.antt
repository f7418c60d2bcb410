-- ===== src/Hub/Tracking.antt =====
-- No container is lost: whatever requests arrive, a container that the hub started is tracked or was
-- stopped, so the hub's `stop` leaves none running.
use kanibako.Hub.Requests.{logging-Accounted, Kept, dispatch-Kept}
use kanibako.Prelude.{
  ℕ, ◌≡◌, Bool, true, Option, none, some, List, [], ◌∷◌, Text, nat_eq, text_eq, Result, ok, err,
  contains, Bool-cases, inl, inr,
}
use kanibako.Prelude.Int.{ℤ}
use kanibako.Hub.Lines.{read_chunks}
use kanibako.Hub.State.{Reply, Hub, Raised}
use kanibako.Hub.Containers.{shut_down, Accounted, shut_down-Accounted}
use kanibako.Hub.Launch.{HelperContext}
use kanibako.Hub.Dispatch.{World, send_to, unregister}
use kanibako.Hub.Reader.{
  Parsed, invalid, object, no_object, Round, goes_on, ends, respond, answered, read_parsed,
  is_blank, read_line, read_lines, finish, client_reader,
}

module _ {P J : Type 0} (world : World P J) (has_log : Bool) (context : Option (HelperContext P))
    (loads : Text → Parsed J) (conn : ℕ) where
  abbrev KeptRound : Round world has_log context loads conn → Type 0
  KeptRound (goes_on current hub) = Accounted J hub
  KeptRound (ends current hub) = Accounted J hub

  respond-Kept :
      (reply : Reply J) (current : Option ℤ) (hub : Hub J)
      → Accounted J hub
      → KeptRound (respond world has_log context loads conn reply current hub)
  unfolding respond send_to
  respond-Kept reply current hub h = elim (Bool-cases (world.alive conn)) [
    | inl e ↦ rw e h
    | inr e ↦ rw e h
  ]

  answered-Kept :
      (current : Option ℤ) (hub : Hub J) (a : Result Raised (Reply J × Option ℤ × Hub J))
      → Accounted J hub
      → Kept a
      → KeptRound (answered world has_log context loads conn current hub a)
  unfolding answered
  answered-Kept current hub (err e) h k = h
  answered-Kept current hub (ok (reply, now, after)) h k = respond-Kept reply now after k

  parsed-Kept :
      (p : Parsed J) (current : Option ℤ) (hub : Hub J)
      → Accounted J hub
      → KeptRound (read_parsed world has_log context loads conn p current hub)
  unfolding read_parsed
  parsed-Kept invalid current hub h = respond-Kept _ current hub h
  parsed-Kept no_object current hub h = h
  parsed-Kept (object request) current hub h =
      answered-Kept current hub _ h (dispatch-Kept world has_log context conn request current hub h)

  read_line-Kept :
      (line : Text) (current : Option ℤ) (hub : Hub J)
      → Accounted J hub
      → KeptRound (read_line world has_log context loads conn line current hub)
  unfolding read_line
  read_line-Kept line current hub h = elim (Bool-cases (is_blank line)) [
    | inl e ↦ rw (read_line, e) h
    | inr e ↦ rw (read_line, e) (parsed-Kept (loads line) current hub h)
  ]

  read_lines-Accounted :
      (lines : List Text) (current : Option ℤ) (hub : Hub J)
      → Accounted J hub
      → Accounted J (read_lines world has_log context loads conn lines current hub).1
  unfolding read_lines
  read_lines-Accounted [] current hub h = h
  read_lines-Accounted (line ∷ lines) current hub h =
      goes (read_line world has_log context loads conn line current hub)
        (read_line-Kept line current hub h) (λ now after k. read_lines-Accounted lines now after k)
    where
      goes :
          (r : Round world has_log context loads conn)
          → KeptRound r
          → ((now : Option ℤ) (after : Hub J)
              → Accounted J after
              → Accounted J (read_lines world has_log context loads conn lines now after).1)
          → Accounted J
              (elim r as (λ x. Option ℤ × Hub J) [
                | goes_on now after ↦ read_lines world has_log context loads conn lines now after
                | ends now after ↦ (now, after)
              ]).1
      goes (goes_on now after) k rest = rest now after k
      goes (ends now after) k rest = k

  finish-Accounted :
      (end : Option ℤ × Hub J)
      → Accounted J end.1
      → Accounted J (finish world has_log context loads conn end)
  unfolding finish unregister
  finish-Accounted (none, hub) h = h
  finish-Accounted (some n, hub) h = logging-Accounted has_log _ _ h

  -- Whatever a connection delivers, and in whatever chunks, every container that the runtime
  -- started for the hub is still tracked when the connection ends, or a request had it stopped.
  pub client_reader-Accounted :
      (chunks : List Text) (hub : Hub J)
      → Accounted J hub
      → Accounted J (client_reader world has_log context loads conn chunks hub)
  unfolding client_reader
  client_reader-Accounted chunks hub h =
      let lines = (read_chunks [] chunks).0 in
      finish-Accounted (read_lines world has_log context loads conn lines none hub)
        (read_lines-Accounted lines none hub h)

  pub shut_down-client_reader :
      (chunks : List Text) (hub : Hub J)
      → Accounted J hub
      → (name : Text)
      → contains (client_reader world has_log context loads conn chunks hub).started name ≡ true
      → world.halts name ≡ true
      → contains
          (shut_down J world.halts true
            (client_reader world has_log context loads conn chunks hub)).stopped
          name
        ≡ true
  shut_down-client_reader chunks hub h name started halts =
      shut_down-Accounted J world.halts _ (client_reader-Accounted chunks hub h) name started halts
