-- ===== src/Book/State.antt =====
-- The state of the class `OrderBook` of include/OrderBook.hpp and its two level maps. A book works
-- on the arena that the engine owns: the stores that order and level pointers point into, and the
-- pool of levels.
use itchparser.Prelude.{ℕ, ◌-◌, ◌^◌, none, some, inc64, dec64}
use itchparser.Types.{Ptr, Side, buy, sell, PriceLevel}
use itchparser.Pool.{MemoryPool}
use itchparser.Level.{Orders}
use itchparser.FlatMap
use itchparser.FlatMap.{FlatMap}

abbrev pub k_price_level_map_capacity : ℕ
k_price_level_map_capacity = 2 ^ 13

-- `kEmptyPrice`: the price that marks a free slot of the maps
abbrev pub k_empty_price : ℕ
k_empty_price = 2 ^ 32 - 1

abbrev pub Levels : Type 0
Levels = ℕ → PriceLevel

pub record Arena : Type 0 where
  pub orders : Orders
  pub levels : Levels
  pub level_pool : MemoryPool

pub record OrderBook : Type 0 where
  pub bid_map : FlatMap
  pub ask_map : FlatMap
  pub best_bid : Ptr
  pub best_ask : Ptr
  pub bid_level_count : ℕ
  pub ask_level_count : ℕ
  pub live_order_count : ℕ

-- The default constructor.
unfoldable pub make_book : OrderBook
unfolding FlatMap.make_map
make_book = record {
  bid_map = FlatMap.make_map k_price_level_map_capacity k_empty_price;
  ask_map = FlatMap.make_map k_price_level_map_capacity k_empty_price;
  best_bid = none;
  best_ask = none;
  bid_level_count = 0;
  ask_level_count = 0;
  live_order_count = 0;
}

unfoldable pub find_level : Side → ℕ → OrderBook → Ptr
find_level buy px b = FlatMap.find k_price_level_map_capacity k_empty_price px b.bid_map
find_level sell px b = FlatMap.find k_price_level_map_capacity k_empty_price px b.ask_map

-- `px` is the level's price and `l` the pointer to it.
unfoldable pub insert_level_into_map : Side → ℕ → ℕ → OrderBook → OrderBook
insert_level_into_map buy px l b = record b {
  bid_map = (FlatMap.insert k_price_level_map_capacity k_empty_price px (some l) b.bid_map).1;
  bid_level_count = inc64 b.bid_level_count;
}
insert_level_into_map sell px l b = record b {
  ask_map = (FlatMap.insert k_price_level_map_capacity k_empty_price px (some l) b.ask_map).1;
  ask_level_count = inc64 b.ask_level_count;
}

unfoldable pub erase_level_from_map : Side → ℕ → OrderBook → OrderBook
erase_level_from_map buy px b = record b {
  bid_map = FlatMap.erase k_price_level_map_capacity k_empty_price px b.bid_map;
  bid_level_count = dec64 b.bid_level_count;
}
erase_level_from_map sell px b = record b {
  ask_map = FlatMap.erase k_price_level_map_capacity k_empty_price px b.ask_map;
  ask_level_count = dec64 b.ask_level_count;
}

abbrev pub best : Side → OrderBook → Ptr
best buy b = b.best_bid
best sell b = b.best_ask

abbrev pub set_best : Side → Ptr → OrderBook → OrderBook
set_best buy p b = record b { best_bid = p }
set_best sell p b = record b { best_ask = p }

abbrev pub level_count : Side → OrderBook → ℕ
level_count buy b = b.bid_level_count
level_count sell b = b.ask_level_count
