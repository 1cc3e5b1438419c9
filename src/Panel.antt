-- ===== src/Panel.antt =====
-- api/zicboard: what the panel sends and is sent.
pub mod User
pub mod Search
pub mod Report
pub mod Config
pub mod Decode
pub mod Client
pub mod Node
mod Tests
