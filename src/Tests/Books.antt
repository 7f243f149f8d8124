-- ===== src/Tests/Books.antt =====
-- The visits and the clearing of a small book: bids at 102 and 100 and an ask at 105, with an order
-- each.
use itchparser.Prelude.{
  ℕ, ◌≤◌, ◌≡◌, refl, true, none, some, [], ◌∷◌, arith, ◌==◌, has, if◌then◌else◌,
}
use itchparser.Types.{make_order, Side, buy, sell, PriceLevel}
use itchparser.Level.{Orders, make_level, reset}
use itchparser.Level.Queue.{IsQueue, shares}
use itchparser.Pool.{MemoryPool, link_pool, acquire}
use itchparser.Pool.Ownership.{Owns, acquire-Owns}
use itchparser.Pool.Building.{count_down, link_pool-Owns}
use itchparser.Book.State.{Levels, Arena, OrderBook, make_book, k_empty_price}
use itchparser.Book.LevelList.{better}
use itchparser.Book.Walks.{best_bid_price, best_ask_price, for_each_order, clear_levels}
use itchparser.Book.Ladder.{IsLadder}
use itchparser.Book.Visits.{Rows, Queued, Attained, for_each_order_lem, best_prices_lem}
use itchparser.Book.Side.{side_map, IsSide}
use itchparser.Book.Clearing.{clear_levels-Owns}

abbrev orders : Orders
orders o = make_order o 1 100 10 buy 0 []

abbrev holding : ℕ → PriceLevel → PriceLevel
holding o v = record v {
  head_order = some o;
  tail_order = some o;
  order_count = 1;
  total_shares = 10;
}

abbrev levels : Levels
levels l =
    if l == 0
    then holding 3 (record (reset 102 buy make_level) { next_level = some 1 })
    else (if l == 1
        then holding 4 (record (reset 100 buy make_level) { prev_level = some 0 })
        else holding 5 (reset 105 sell make_level))

abbrev book : OrderBook
book = record make_book {
  best_bid = some 0;
  best_ask = some 2;
  bid_level_count = 2;
  ask_level_count = 1;
  live_order_count = 3;
}

abbrev pool : MemoryPool
pool = (acquire (acquire (acquire (link_pool 3 (λ _. none))).1).1).1

abbrev arena : Arena
arena = record { orders = orders; levels = levels; level_pool = pool }

abbrev bids : Rows
bids = (0, 3 ∷ []) ∷ (1, 4 ∷ []) ∷ []

abbrev asks : Rows
asks = (2, 5 ∷ []) ∷ []

book-IsLadder_buy : IsLadder buy book levels (0 ∷ 1 ∷ [])
unfolding reset better
book-IsLadder_buy = record {
  last = some 1;
  links = (refl, refl, (refl, refl, (refl, refl)));
  distinct = (refl, (refl, tt));
  sorted = ((refl, tt), (tt, tt));
}

book-IsLadder_sell : IsLadder sell book levels (2 ∷ [])
unfolding reset
book-IsLadder_sell = record {
  last = some 2;
  links = (refl, refl, (refl, refl));
  distinct = (refl, tt);
  sorted = (tt, tt);
}

single : (o : ℕ) (v : PriceLevel) → IsQueue (holding o v) orders (o ∷ [])
unfolding make_order shares
single o v = record {
  linked = record { links = (refl, refl, (refl, refl)); distinct = (refl, tt); count = refl };
  total = refl;
}

bids-Queued : Queued levels orders bids
bids-Queued = (single 3 (levels 0), omega arith, (single 4 (levels 1), omega arith, tt))

asks-Queued : Queued levels orders asks
asks-Queued = (single 5 (levels 2), omega arith, tt)

owned : Owns pool [] (0 ∷ 1 ∷ 2 ∷ [])
unfolding count_down
owned =
    let p₀ = link_pool 3 (λ _. none) in
    let p₁ = (acquire p₀).1 in
    let p₂ = (acquire p₁).1 in
    let o₀ : Owns p₀ (2 ∷ 1 ∷ 0 ∷ []) [] = link_pool-Owns 3 (λ _. none) in
    let o₁ = (acquire-Owns p₀ 2 (1 ∷ 0 ∷ []) [] o₀).1 in
    let o₂ = (acquire-Owns p₁ 1 (0 ∷ []) (2 ∷ []) o₁).1 in (acquire-Owns p₂ 0 [] (1 ∷ 2 ∷ []) o₂).1

for_each_order_lem_example : for_each_order book arena ≡ 3 ∷ 4 ∷ 5 ∷ []
for_each_order_lem_example =
    for_each_order_lem book arena bids asks book-IsLadder_buy book-IsLadder_sell bids-Queued
      asks-Queued (omega arith) (omega arith)

best_prices_lem_example :
    Attained levels (best_bid_price book levels) (0 ∷ 1 ∷ [])
    × ((y : ℕ) → has y (0 ∷ 1 ∷ []) ≡ true → (levels y).price_cents ≤ best_bid_price book levels)
    × Attained levels (best_ask_price book levels) (2 ∷ [])
    × ((y : ℕ) → has y (2 ∷ []) ≡ true → best_ask_price book levels ≤ (levels y).price_cents)
best_prices_lem_example =
    best_prices_lem book levels (0 ∷ 1 ∷ []) (2 ∷ []) book-IsLadder_buy book-IsLadder_sell

clear_levels-Owns_example :
    let r = clear_levels book arena in
    Owns r.1.level_pool (2 ∷ 1 ∷ 0 ∷ []) []
    × IsSide buy r.0 r.1.levels []
    × IsSide sell r.0 r.1.levels []
    × ((s : Side) (j : ℕ) → (side_map s r.0).keys j ≡ k_empty_price)
    × (r.0.live_order_count ≡ 0)
clear_levels-Owns_example =
    clear_levels-Owns book arena (0 ∷ 1 ∷ []) (2 ∷ []) [] (0 ∷ 1 ∷ 2 ∷ []) book-IsLadder_buy
      book-IsLadder_sell (omega arith) (omega arith) (refl, (refl, (refl, tt)))
      (refl, (refl, (refl, tt))) owned
