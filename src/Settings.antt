-- ===== src/Settings.antt =====
-- The settings framework: src/kanibako/settings_resolve.py (precedence and the expression grammar),
-- settings_shares.py, settings_seeds.py, and the `system.path.*` tier of paths.py.
pub mod Types
pub mod Escape
pub mod Expand
pub mod Precedence
pub mod Keys
pub mod Collect
pub mod Shares
pub mod Seeds
pub mod SystemPaths
mod Tests
