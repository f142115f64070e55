-- ===== src/Tests.antt =====
-- The components run on small data, and the theorems applied to it.
mod Data
mod Link
mod Store
mod Transfer
mod Requests
mod Middleware
mod Peers
mod Network
mod Server
mod Commands
mod Exchange
mod Events
mod Operations
mod Discovery
mod Protocol
mod Config
