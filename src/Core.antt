-- ===== src/Core.antt =====
-- core: the wrapper of the proxy engine.
pub mod Account
pub mod Users
pub mod Traffic
pub mod Warp
pub mod Routing
pub mod Inbound
pub mod Instance
mod Tests
