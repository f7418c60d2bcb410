-- ===== src/Documents.antt =====
-- src/kanibako/config_io.py and the YAML documents that it reads and writes.
pub mod Table
pub mod Files
pub mod Sections
mod Tests
