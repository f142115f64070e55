-- ===== src/FileServer.antt =====
-- internal/fileserver: the node that stores, sends and receives files.
pub mod Seen
pub mod Transfer
pub mod Selector
pub mod Messages
pub mod Waiters
pub mod Peers
pub mod Connecting
pub mod Exchange
pub mod Server
pub mod Sending
