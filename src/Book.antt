-- ===== src/Book.antt =====
-- The class `OrderBook` of include/OrderBook.hpp, in parts.
pub mod State
pub mod LevelList
pub mod Orders
pub mod Walks
pub mod Ladder
pub mod Insertion
pub mod Removal
pub mod Side
pub mod Visits
pub mod Clearing
pub mod Fills
