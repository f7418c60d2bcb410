-- ===== src/Names.antt =====
-- src/kanibako/names.py: the registry that maps names to projects and worksets.
pub mod Document
pub mod Registry
pub mod Laws
pub mod Resolve
pub mod ByPath
pub mod Assign
mod Tests
