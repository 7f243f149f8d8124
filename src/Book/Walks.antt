-- ===== src/Book/Walks.antt =====
-- The methods of `OrderBook` (include/OrderBook.hpp) that walk its lists, and the reads of its top.
-- A walk takes as many rounds as the count that the book or the level keeps, and one more.
use itchparser.Prelude.{ℕ, zero, suc, ◌+◌, none, some, List, [], ◌∷◌, ◌++◌, add64}
use itchparser.Types.{Ptr}
use itchparser.Pool.{MemoryPool, release}
use itchparser.Level.{Orders}
use itchparser.FlatMap
use itchparser.Book.State.{k_price_level_map_capacity, k_empty_price, Levels, Arena, OrderBook}

unfoldable pub price_at : Ptr → Levels → ℕ
price_at none ls = 0
price_at (some l) ls = (ls l).price_cents

unfoldable pub shares_at : Ptr → Levels → ℕ
shares_at none ls = 0
shares_at (some l) ls = (ls l).total_shares

unfoldable pub best_bid_price : OrderBook → Levels → ℕ
unfolding price_at
best_bid_price b ls = price_at b.best_bid ls

unfoldable pub best_ask_price : OrderBook → Levels → ℕ
unfolding price_at
best_ask_price b ls = price_at b.best_ask ls

unfoldable pub best_bid_shares : OrderBook → Levels → ℕ
unfolding shares_at
best_bid_shares b ls = shares_at b.best_bid ls

unfoldable pub best_ask_shares : OrderBook → Levels → ℕ
unfolding shares_at
best_ask_shares b ls = shares_at b.best_ask ls

unfoldable pub live_levels : OrderBook → ℕ
live_levels b = add64 b.bid_level_count b.ask_level_count

-- The orders of one level, from its head.
unfoldable pub visit_orders : ℕ → Orders → Ptr → List ℕ
visit_orders zero os p = []
visit_orders (suc f) os none = []
visit_orders (suc f) os (some o) = o ∷ visit_orders f os (os o).next

-- The orders of the levels from `p` on.
unfoldable pub visit_levels : ℕ → Levels → Orders → Ptr → List ℕ
unfolding visit_orders
visit_levels zero ls os p = []
visit_levels (suc f) ls os none = []
visit_levels (suc f) ls os (some l) =
    visit_orders ((ls l).order_count + 1) os (ls l).head_order
    ++ visit_levels f ls os (ls l).next_level

-- `for_each_order`: the orders at which it calls its argument, in that order.
unfoldable pub for_each_order : OrderBook → Arena → List ℕ
unfolding visit_levels
for_each_order b m =
    visit_levels (b.bid_level_count + 1) m.levels m.orders b.best_bid
    ++ visit_levels (b.ask_level_count + 1) m.levels m.orders b.best_ask

-- One loop of `clear_levels`.
unfoldable pub release_levels : ℕ → Levels → Ptr → MemoryPool → MemoryPool
unfolding release
release_levels zero ls p pool = pool
release_levels (suc f) ls none pool = pool
release_levels (suc f) ls (some l) pool =
    release_levels f ls (ls l).next_level (release (some l) pool)

unfoldable pub clear_metadata : OrderBook → OrderBook
unfolding FlatMap.clear
clear_metadata b = record {
  bid_map = FlatMap.clear k_price_level_map_capacity k_empty_price b.bid_map;
  ask_map = FlatMap.clear k_price_level_map_capacity k_empty_price b.ask_map;
  best_bid = none;
  best_ask = none;
  bid_level_count = 0;
  ask_level_count = 0;
  live_order_count = 0;
}

unfoldable pub clear_levels : OrderBook → Arena → OrderBook × Arena
unfolding release_levels clear_metadata
clear_levels b m =
    let pool₁ = release_levels (b.bid_level_count + 1) m.levels b.best_bid m.level_pool in
    let pool₂ = release_levels (b.ask_level_count + 1) m.levels b.best_ask pool₁ in
    (clear_metadata b, record m { level_pool = pool₂ })

unfoldable pub clear_and_release : OrderBook → Arena → OrderBook × Arena
unfolding clear_levels
clear_and_release = clear_levels
