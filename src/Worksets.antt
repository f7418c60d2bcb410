-- ===== src/Worksets.antt =====
-- src/kanibako/workset.py: groups of projects below one root.
pub mod Root
pub mod Registry
pub mod Projects
pub mod RoundTrip
pub mod Reloaded
pub mod InStep
pub mod OutOfStep
mod Tests
