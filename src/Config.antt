-- ===== src/Config.antt =====
-- src/kanibako/config.py and src/kanibako/config_interface.py: configuration files and their layers.
pub mod Flatten
pub mod Load
pub mod Merge
pub mod Keys
pub mod Sections
pub mod Meta
pub mod Interface
pub mod Reset
mod Tests
