-- ===== src/Engine.antt =====
-- The class `MatchingEngine` of include/MatchingEngine.hpp, in parts.
pub mod State
pub mod Info
pub mod Add
pub mod Reduce
pub mod Replace
pub mod Cross
pub mod Counters
pub mod Sound
pub mod Steady
