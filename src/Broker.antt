-- ===== src/Broker.antt =====
-- The broker: src/lib/Broker*.cpp and its headers.
pub mod Types
pub mod Interface
pub mod Communicate
pub mod Descriptors
pub mod State
pub mod Options
pub mod Impl
pub mod Process
