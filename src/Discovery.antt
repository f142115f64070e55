-- ===== src/Discovery.antt =====
-- internal/discovery: how a node finds its peers. `Bootstrap` connects to given peers with retries,
-- `Dht` searches the network, and `Manager` starts the methods that are configured.
pub mod Bootstrap
pub mod Retry
pub mod Manager
pub mod Methods
pub mod Restart
pub mod Dht
pub mod Lifecycle
pub mod Spacing
