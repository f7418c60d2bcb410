-- ===== src/PathNames.antt =====
-- src/kanibako/utils.py: the encoding of a path in a container's name, and `container_name_for`.
pub mod Codec
pub mod RoundTrip
mod Tests
