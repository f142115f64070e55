-- ===== src/Store.antt =====
-- internal/store: the files of a node.
pub mod Encryption
pub mod Paths
pub mod Disk
pub mod Files
