-- ===== src/ModuleTests.antt =====
-- The test programs of Tests, as runs of the model: what they set up, call and look at.
pub mod Fixture
pub mod Messaging
pub mod Responses
