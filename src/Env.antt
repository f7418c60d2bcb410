-- ===== src/Env.antt =====
-- src/kanibako/shellenv.py: files of environment variables.
pub mod Lines
pub mod File
pub mod RoundTrip
pub mod Update
mod Tests
