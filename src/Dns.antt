-- ===== src/Dns.antt =====
-- The DNS daemon, daemon/dnsd, and the queries that the phone-home daemon makes of it.
pub mod Query
pub mod Command
pub mod Latest
pub mod Blacklist
pub mod Update
pub mod Daemon
mod Tests
