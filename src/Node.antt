-- ===== src/Node.antt =====
-- node: the controllers of the nodes.
pub mod Cert
pub mod Diff
pub mod Sync
pub mod Life
pub mod Monitor
pub mod Report
mod Tests
