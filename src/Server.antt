-- ===== src/Server.antt =====
-- The server of Source/include/ModuleServer.hpp and Source/src/ModuleServer.cpp.
pub mod State
pub mod Requests
pub mod Receiving
pub mod Link
pub mod Sending
pub mod Inversion
pub mod Traffic
pub mod Steps
pub mod Listening
pub mod Delivery
pub mod Transactions
pub mod Answers
pub mod Started
pub mod Settled
pub mod Exchanges
pub mod Calls
pub mod Codes
pub mod Deadlock
pub mod Destinations
pub mod Handlers
