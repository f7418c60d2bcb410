-- ===== src/Hub/State.antt =====
-- The state of `HelperHub` in src/kanibako/helper_listener.py, what it writes to connections and what
-- it logs. `J` are JSON values, and a connection is a number.
use kanibako.Prelude.{ℕ, Option, List, Text, nat_eq}
use kanibako.Prelude.Int.{ℤ}
use kanibako.Prelude.Dict.{Dict}

pub data Recipient : Type 0 where
  helper : ℤ → Recipient
  all_helpers : Recipient

-- The exceptions that `_dispatch` lets out: of `int`, of the runtime for a name that is no text, of
-- the runtime's `stop` or `rm`, and of `_handle_fork`.
pub data Raised : Type 0 where
  not_a_number not_a_text runtime_raised fork_raised : Raised

module _ (J : Type 0) where
  -- What is written to a connection: the response to a request, or a message from a helper.
  pub data Reply : Type 0 where
    status_ok : Reply
    status_spawned : Text → Reply
    status_forked : Text → Text → Reply
    status_error : Text → Reply
    message_from : ℤ → J → Reply

  -- The entries of the log, less their time.
  pub data Entry : Type 0 where
    message : ℤ → Recipient → J → Entry
    control : Text → Option ℤ → Dict Text J → Entry

  -- `containers` are the tracked ones. What the hub did is kept in order: `sent` is what it wrote to
  -- connections, `logged` what it logged, `started` are the containers that the runtime started for
  -- it, and `stopped` those for which the runtime's `stop` and `rm` both returned.
  pub record Hub : Type 0 where
    pub connections : Dict ℤ ℕ
    pub containers : List Text
    pub sent : List (ℕ × Reply)
    pub logged : List Entry
    pub started : List Text
    pub stopped : List Text
