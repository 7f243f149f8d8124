-- ===== src/Engine/Cross.antt =====
-- `on_cross_trade` of include/MatchingEngine.hpp: the closing cross empties the book.
use itchparser.Prelude.{ℕ, ◌-◌, none, some, List, [], ◌∷◌, ◌==◌, leb, if◌then◌else◌, length, inc64}
use itchparser.Types.{cross_closing}
use itchparser.Book.State.{OrderBook}
use itchparser.Book.Walks.{live_levels, for_each_order, clear_levels}
use itchparser.Engine.State.{EngineStats, MatchingEngine, with_stats, book_of, put_book, free_order}
use itchparser.Engine.Reduce.{drop_id}

-- The loop over the snapshot.
unfoldable pub release_snapshot : List ℕ → MatchingEngine → MatchingEngine
unfolding drop_id free_order
release_snapshot [] e = e
release_snapshot (o ∷ rest) e =
    release_snapshot rest (free_order o (drop_id (e.arena.orders o).order_id e))

-- `x >= y ? x - y : 0`, as the two counters are lowered
unfoldable pub lower_by : ℕ → ℕ → ℕ
lower_by x y = if leb y x then x - y else 0

unfoldable pub count_cleared : ℕ → ℕ → EngineStats → EngineStats
unfolding lower_by
count_cleared orders levels st = record st {
  live_orders = lower_by st.live_orders orders;
  live_levels = lower_by st.live_levels levels;
}

unfoldable pub clear_book : ℕ → OrderBook → MatchingEngine → MatchingEngine
unfolding live_levels for_each_order release_snapshot count_cleared clear_levels put_book
clear_book locate b e =
    let snapshot = for_each_order b e.arena in
    let e₁ =
      with_stats (count_cleared (length snapshot) (live_levels b)) (release_snapshot snapshot e) in
    let cleared = clear_levels b e₁.arena in
    record e₁ { instruments = put_book locate cleared.0 e₁.instruments; arena = cleared.1 }

unfoldable pub on_cross_trade : ℕ → ℕ → MatchingEngine → MatchingEngine
unfolding book_of clear_book
on_cross_trade locate xtype e =
    let e₁ = with_stats (λ st. record st { cross_trades = inc64 st.cross_trades }) e in
    if xtype == cross_closing
    then elim (book_of (e.instruments.slots locate)) [ none ↦ e₁ | some b ↦ clear_book locate b e₁ ]
    else e₁
