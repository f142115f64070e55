-- ===== src/Network.antt =====
-- internal/network: the scores of the peers.
pub mod Scores
pub mod Manager
