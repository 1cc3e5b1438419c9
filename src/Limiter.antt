-- ===== src/Limiter.antt =====
-- limiter/limiter.go: the state of a node's limiter.
-- The operations are in the children: `Check` has CheckLimit, `Users` has UpdateUser and
-- UpdateDynamicSpeedLimit, `Online` has GetOnlineDevice, `Registry` the table of limiters.
pub mod Speed
pub mod State
pub mod Check
pub mod Users
pub mod Online
pub mod Registry
pub mod Buckets
pub mod Kept
pub mod Dynamic
mod Tests
