-- ===== src/Daemon.antt =====
-- The configuration in config/, and how the daemon in command/daemon.go reloads it.
pub mod Config
pub mod Reload
pub mod Peering
