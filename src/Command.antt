-- ===== src/Command.antt =====
-- cmd/node/main.go: the commands. What they print is left out.
pub mod Get
pub mod Daemon
pub mod Receive
