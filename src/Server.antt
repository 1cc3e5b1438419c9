-- ===== src/Server.antt =====
-- cmd/server.go: the running program and its reload.
pub mod Event
pub mod Signature
pub mod Reload
pub mod Outcome
pub mod Replaced
mod Tests
