-- ===== src/Node.antt =====
-- internal/node: the libp2p host of a node, and its identity.
pub mod Identity
pub mod Config
pub mod Host
