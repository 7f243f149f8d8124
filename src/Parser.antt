-- ===== src/Parser.antt =====
-- The class `Parser` of include/Parser.hpp.
pub mod Handlers
pub mod Dispatch
pub mod Run
pub mod Registry
pub mod Messages
pub mod Decode
pub mod Rounds
pub mod Framing
pub mod Counters
