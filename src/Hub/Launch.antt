-- ===== src/Hub/Launch.antt =====
-- `_build_helper_mounts` and `_handle_spawn` of src/kanibako/helper_listener.py. Paths, of a type
-- `P`, and the file system are parameters, as is the container runtime, `run`.
use kanibako.Prelude.{
  ◌+◌, Bool, Option, none, some, List, [], ◌∷◌, ◌++◌, Text, text, ◌==◌, text_eq, nat_eq,
  if◌then◌else◌,
}
use kanibako.Prelude.Int.{ℤ, pos, negsuc}
use kanibako.Prelude.Decimal.{decimal}
use kanibako.Prelude.Dict.{Dict}
use kanibako.Settings.Shares.{Mount}
use kanibako.Hub.State.{Reply, status_spawned, status_error, control, Hub}
use kanibako.Hub.Containers.{logging, ran, track}
use kanibako.Hub.Numbers.{helper_container}

-- What the runtime's `run` does: it returns an exit code or raises.
pub data RunResult : Type 0 where
  exited : ℤ → RunResult
  failed : Text → RunResult

-- Of a directory: whether there is a directory, anything, or a file at a path.
pub record FileSystem (P : Type 0) : Type 0 where
  pub join : P → Text → P
  pub is_dir : P → Bool
  pub exists : P → Bool
  pub is_file : P → Bool

pub record HelperContext (P : Type 0) : Type 0 where
  pub image : Text
  pub container_name_prefix : Text
  pub helpers_dir : P
  pub socket_path : P
  pub binary_mounts : List (Mount P)
  pub env : Option (Dict Text Text)
  pub entrypoint : Option Text
  pub default_entrypoint : Option Text

-- The arguments of the runtime's `run`. `J` are JSON values: a model is passed on as it stands.
pub record Launch (P J : Type 0) : Type 0 where
  pub image : Text
  pub shell_path : P
  pub project_path : P
  pub vault_ro_path : P
  pub vault_rw_path : P
  pub extra_mounts : List (Mount P)
  pub env : Option (Dict Text Text)
  pub name : Text
  pub entrypoint : Text
  pub cli_args : List J

-- `a or b`, for a text that may be missing.
abbrev or_text : Option Text → Text → Text
or_text none d = d
or_text (some []) d = d
or_text (some (c ∷ s)) d = c ∷ s

module _ {P J : Type 0} (fs : FileSystem P) (as_json : Text → J) where
  abbrev mount : P → Text → Text → Mount P
  mount source destination options = record {
    source = source;
    destination = destination;
    options = options;
  }

  unfoldable pub build_helper_mounts : HelperContext P → Text → List (Mount P)
  build_helper_mounts ctx helper_num =
      let root = fs.join ctx.helpers_dir helper_num in
      let peers = fs.join root (text "peers") in
      let all_link = fs.join root (text "all") in
      let spawn_config = fs.join root (text "spawn.yaml") in
      (if fs.is_dir peers then mount peers (text "/home/agent/peers") (text "Z,U") ∷ [] else [])
      ++ ((if fs.exists all_link
            then mount all_link (text "/home/agent/all") (text "Z,U") ∷ []
            else [])
          ++ ((if fs.is_file spawn_config
                then mount spawn_config (text "/home/agent/spawn.yaml") (text "ro") ∷ []
                else [])
              ++ ((if fs.exists ctx.socket_path
                    then mount ctx.socket_path
                        (text "/home/agent/.local/state/kanibako/helper.sock") []
                      ∷ []
                    else [])
                  ++ ctx.binary_mounts)))

  abbrev agent_command : HelperContext P → Text
  agent_command ctx = or_text ctx.entrypoint (or_text ctx.default_entrypoint (text "/bin/bash"))

  -- `model` is there when the request names one that counts as true.
  abbrev model_args : Option J → List J
  model_args none = []
  model_args (some model) = as_json (text "--model") ∷ model ∷ []

  unfoldable pub launch : HelperContext P → Text → Option J → Launch P J
  unfolding build_helper_mounts helper_container
  launch ctx helper_num model =
      let root = fs.join ctx.helpers_dir helper_num in
      record {
        image = ctx.image;
        shell_path = root;
        project_path = fs.join root (text "workspace");
        vault_ro_path = fs.join (fs.join root (text "vault")) (text "ro");
        vault_rw_path = fs.join (fs.join root (text "vault")) (text "rw");
        extra_mounts = build_helper_mounts ctx helper_num;
        env = ctx.env;
        name = helper_container ctx.container_name_prefix helper_num;
        entrypoint = text "/home/agent/playbook/scripts/helper-init.sh";
        cli_args = as_json helper_num ∷ as_json (agent_command ctx) ∷ model_args model;
      }

  -- What the runtime's `run` leaves behind: a container, if the exit code is 0.
  unfoldable pub run_done : Text → RunResult → Hub J → Hub J
  unfolding ran
  run_done name (failed reason) hub = hub
  run_done name (exited (negsuc rc)) hub = hub
  run_done name (exited (pos rc)) hub = if rc == 0 then ran J name hub else hub

  -- What `_handle_spawn` does when the runtime is done.
  unfoldable pub spawned : Bool → Text → ℤ → J → RunResult → Hub J → Reply J × Hub J
  unfolding track logging
  spawned has_log name helper_num model (failed reason) hub = (status_error reason, hub)
  spawned has_log name helper_num model (exited (negsuc rc)) hub =
      (status_error (text "container exited with -" ++ decimal (rc + 1)), hub)
  spawned has_log name helper_num model (exited (pos rc)) hub =
      if rc == 0
      then (
        status_spawned name,
        logging J has_log (control (text "spawn") (some helper_num) ((text "model", model) ∷ []))
            (track J name hub),
      )
      else (status_error (text "container exited with " ++ decimal rc), hub)

  -- `_handle_spawn` for a hub with a context. `helper_num` is what `int` makes of the request's
  -- number, -1 without one; `model` counts as true if it is there, and `logged_model` is what the
  -- log says of it.
  unfoldable pub handle_spawn :
      (Launch P J → RunResult) → Bool → HelperContext P → ℤ → Option J → J → Hub J → Reply J × Hub J
  unfolding launch run_done spawned
  handle_spawn run has_log ctx (negsuc n) model logged_model hub =
      (status_error (text "invalid helper_num"), hub)
  handle_spawn run has_log ctx (pos n) model logged_model hub =
      let job = launch ctx (decimal n) model in
      spawned has_log job.name (pos n) logged_model (run job) (run_done job.name (run job) hub)
