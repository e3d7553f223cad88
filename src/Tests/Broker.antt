-- ===== src/Tests/Broker.antt =====
-- The broker at concrete inputs.
pub mod Balance
pub mod Descriptors
pub mod Frozen
pub mod Remote
pub mod Answered
pub mod Interface
pub mod Judge
pub mod Solutions
pub mod Verdict
pub mod Lines
pub mod Communicate
