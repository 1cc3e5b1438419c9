-- ===== src/Dispatcher.antt =====
-- core/app/dispatcher: the dispatcher of connections. `Log` is about what it logs, `Link` about the
-- links of a user, `Open` about a new connection, `Route` about its outbound.
pub mod Log
pub mod Link
pub mod Table
pub mod Open
pub mod Override
pub mod Route
pub mod Sniff
mod Tests
