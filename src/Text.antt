-- ===== src/Text.antt =====
-- src/lib/BrokerTextInterface.cpp: escaping, and the archives that write and read one line.
pub mod Streams
pub mod Casts
pub mod Escape
pub mod Archive
pub mod Json
