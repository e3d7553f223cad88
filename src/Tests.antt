-- ===== src/Tests.antt =====
-- Tests of the definitions, and the theorems at concrete inputs.
pub mod Samples
pub mod Json
pub mod Configurator
pub mod Text
pub mod Tokenizers
pub mod Broker
pub mod Killer
