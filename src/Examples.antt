-- ===== src/Examples.antt =====
-- Tests: concrete timers, servers and documents, and the theorems at them.
pub mod Timers
pub mod Rounds
pub mod Twins
pub mod Servers
pub mod Transactions
pub mod Systems
pub mod Exchanges
pub mod Subscribers
pub mod Services
pub mod Startups
pub mod Connections
pub mod Transfers
pub mod Registrations
