-- ===== src/Lib.antt =====
-- kanibako runs coding agents in containers, one container for each project (a "box"), and lets an
-- agent spawn helpers in containers of their own. This library models the logic between the command
-- line and the container runtime. Paths are those of the repository.
--
-- The files:
--
-- - Prelude: texts (a text is the list of its code points), the results of functions that raise,
--   Python's `dict` with keys in the order of insertion, its `sorted`, its `==` and `in`, string
--   methods, and integers with a sign.
-- - Helpers: src/kanibako/helpers.py. Helpers.Tree has the numbering (`children_of`, `parent_of`,
--   `nth_child`, `sibling_index`), Helpers.Depth the loop of `agent_depth`, whose fuel is the agent's
--   number plus one since a parent has a smaller number, Helpers.Budget the spawn limits, and
--   Helpers.SpawnConfig their file.
-- - Documents: the YAML values (Documents.Table), `load_doc` and `dump_doc` of
--   src/kanibako/config_io.py over the YAML library, which is a parameter (Documents.Files), and the
--   sections of a document, `_write_toml_key`, `_remove_toml_key` and their nested forms in
--   src/kanibako/config_interface.py (Documents.Sections).
-- - Config: src/kanibako/config.py and src/kanibako/config_interface.py. Config.Flatten and Config.Load
--   are `load_config`, Config.Merge the layers of `load_merged_config`, Config.Sections and Config.Meta
--   the writing of single keys and of a project's metadata, Config.Keys the keys and their places, and
--   Config.Interface and Config.Reset the getting, setting and resetting. The store is the content of
--   the configuration file and of the file of variables, and each operation gives the next one.
-- - Env: src/kanibako/shellenv.py. A file is its text; Env.Lines has `str.splitlines`, Env.File the
--   operations.
-- - Settings: src/kanibako/settings_resolve.py (Escape, Expand, Precedence), settings_shares.py
--   (Shares), settings_seeds.py (Seeds), and `resolve_system_paths` of src/kanibako/paths.py
--   (SystemPaths). An index into a text is the text that is left. The scan of an expression is on
--   fuel, the length of the text; the mutual recursion of the references has fuel 64, the depth cap.
--   `pathlib` and the order in which a Python set is iterated are parameters.
-- - Names: src/kanibako/names.py. Each operation maps one document of names.yaml to the next; the YAML
--   values, `Path.resolve`, the home directory and the test for a directory are parameters. The loop
--   of `assign_name` has one round more than there are names.
-- - Hub: src/kanibako/helper_listener.py. Hub.State is the state of `HelperHub` with a record of what it
--   sent, logged, started and stopped. Hub.Lines cuts the bytes of a connection into lines, Hub.Reader
--   is `_client_reader`, Hub.Dispatch the connection table, the routing and `_dispatch`, Hub.Launch and
--   Hub.Containers are `_handle_spawn`, `_handle_stop` and `stop`, Hub.Requests and Hub.Tracking follow
--   the tracking of containers, Hub.Reconnect looks at the end of a connection, Hub.Log is `MessageLog` and
--   Hub.Numbers `_parse_helper_num`. JSON, the runtime and the file system are parameters, and the
--   dispatch takes `_handle_fork` as an interface: that is in Hub.Fork and Hub.ForkNames, over the
--   registry of Names. A container counts as started when `run` returns 0, and as stopped when `stop`
--   and `rm` both return. One connection is read at a time, and no shutdown interrupts it.
-- - Worksets: src/kanibako/workset.py. Worksets.Root is the file of a workset, Worksets.Registry the
--   creation and deletion with both registries, Worksets.Projects the loading and the projects. The
--   disk is a dict from the roots to what is at them; an operation that raises gives what it had changed.
--   Joining a path to a name (`..` leads elsewhere), and making and removing the directories of a
--   project, are parameters.
-- - PathNames: the encoding of paths and `container_name_for` of src/kanibako/utils.py.
--
-- Exceptions are values: `Result` in general, and for the settings `Outcome`, which also tells when
-- fuel ran out. Messages are constructors that keep the values they quote. Files that the YAML library
-- cannot parse are left out: the source raises on them, whichever operation reads the file. So are
-- files names.yaml in which a section is no mapping.
--
-- Not modelled: the command line, the container runtime, the browser, plugins, and the copying of
-- directory trees.
pub mod Prelude
pub mod Helpers
pub mod Settings
pub mod PathNames
pub mod Names
pub mod Hub
pub mod Documents
pub mod Env
pub mod Config
pub mod Worksets
