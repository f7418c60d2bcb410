-- ===== src/Hub.antt =====
-- src/kanibako/helper_listener.py: the hub that starts and stops the containers of helpers and
-- carries the messages between them, and its log.
pub mod State
pub mod Containers
pub mod Launch
pub mod Dispatch
pub mod Lines
pub mod Reader
pub mod Fork
pub mod ForkNames
pub mod Requests
pub mod Tracking
pub mod Reconnect
pub mod Log
pub mod Numbers
mod ForkTests
mod Tests
