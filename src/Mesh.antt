-- ===== src/Mesh.antt =====
-- internal/mesh: how a node follows the versions of its peers.
pub mod Coordinator
