-- ===== src/Engine/Reduce.antt =====
-- The handlers of include/MatchingEngine.hpp that reduce or remove one order: `on_order_executed`,
-- `on_order_executed_with_price`, `on_order_cancel` and `on_order_delete`. The first three have one
-- body, written out three times in the source, and differ in the counter that they advance.
use itchparser.Prelude.{ℕ, none, some, ◌==◌, if◌then◌else◌, inc64}
use itchparser.Book.State.{OrderBook}
use itchparser.Book.Orders.{
  FillResult, level_missing, partial, filled, filled_last, RemoveResult, not_found, removed,
  removed_last, execute_order, cancel_order, remove_order,
}
use itchparser.Book.State.{Arena}
use itchparser.Index
use itchparser.Engine.State.{
  EngineStats, MatchingEngine, with_stats, count_unknown, count_level_missing, lower_orders,
  lower_levels, book_of, put_book, free_order,
}

-- `if (o->locate != locate)`: the mismatch is counted, and the order's own locate code is used.
unfoldable pub count_mismatch : ℕ → ℕ → EngineStats → EngineStats
count_mismatch own locate st =
    if own == locate then st else record st { locate_mismatches = inc64 st.locate_mismatches }

-- `order_index_.erase(id)`
unfoldable pub drop_id : ℕ → MatchingEngine → MatchingEngine
unfolding Index.erase
drop_id id e = record e { order_index = (Index.erase id e.order_index e.arena.orders).1 }

-- The index, the pool and the counters after an order left its book.
unfoldable pub retire : ℕ → ℕ → MatchingEngine → MatchingEngine
unfolding drop_id free_order lower_orders
retire id o e = with_stats lower_orders (free_order o (drop_id id e))

-- What follows `execute_order`; `accept` advances the counter of the handler.
unfoldable pub after_fill :
    (EngineStats → EngineStats) → FillResult → ℕ → ℕ → MatchingEngine → MatchingEngine
unfolding retire count_level_missing lower_levels
after_fill accept level_missing id o e = with_stats count_level_missing e
after_fill accept partial id o e = with_stats accept e
after_fill accept filled id o e = retire id o (with_stats accept e)
after_fill accept filled_last id o e = with_stats lower_levels (retire id o (with_stats accept e))

-- The body of the three handlers with a quantity, from the order `o` on.
unfoldable pub fill_order :
    (EngineStats → EngineStats)
    → (ℕ → ℕ → OrderBook → Arena → FillResult × (OrderBook × Arena))
    → ℕ
    → ℕ
    → ℕ
    → ℕ
    → MatchingEngine
    → MatchingEngine
unfolding count_mismatch count_unknown book_of put_book after_fill
fill_order accept apply locate id qty o e =
    let own = (e.arena.orders o).locate in
    let e₁ = with_stats (count_mismatch own locate) e in
    elim (book_of (e.instruments.slots own)) [
      | none ↦ with_stats count_unknown e₁
      | some b ↦
          let done = apply o qty b e.arena in
          after_fill accept done.0 id o
            (record e₁ { instruments = put_book own done.1.0 e.instruments; arena = done.1.1 })
    ]

unfoldable pub count_executed : EngineStats → EngineStats
count_executed st = record st { order_executed = inc64 st.order_executed }

unfoldable pub count_executed_with_price : EngineStats → EngineStats
count_executed_with_price st = record st {
  order_executed_with_price = inc64 st.order_executed_with_price;
}

unfoldable pub count_cancel : EngineStats → EngineStats
count_cancel st = record st { order_cancel = inc64 st.order_cancel }

unfoldable pub on_order_executed : ℕ → ℕ → ℕ → MatchingEngine → MatchingEngine
unfolding Index.find fill_order count_executed count_unknown execute_order
on_order_executed locate id qty e = elim (Index.find id e.order_index e.arena.orders) [
  | none ↦ with_stats count_unknown e
  | some o ↦ fill_order count_executed execute_order locate id qty o e
]

unfoldable pub on_order_executed_with_price : ℕ → ℕ → ℕ → MatchingEngine → MatchingEngine
unfolding Index.find fill_order count_executed_with_price count_unknown execute_order
on_order_executed_with_price locate id qty e = elim (Index.find id e.order_index e.arena.orders) [
  | none ↦ with_stats count_unknown e
  | some o ↦ fill_order count_executed_with_price execute_order locate id qty o e
]

unfoldable pub on_order_cancel : ℕ → ℕ → ℕ → MatchingEngine → MatchingEngine
unfolding Index.find fill_order count_cancel count_unknown cancel_order
on_order_cancel locate id qty e = elim (Index.find id e.order_index e.arena.orders) [
  | none ↦ with_stats count_unknown e
  | some o ↦ fill_order count_cancel cancel_order locate id qty o e
]

unfoldable pub count_delete : EngineStats → EngineStats
count_delete st = record st { order_delete = inc64 st.order_delete }

-- What follows `remove_order` in `on_order_delete`.
unfoldable pub after_remove : RemoveResult → ℕ → ℕ → MatchingEngine → MatchingEngine
unfolding retire count_level_missing lower_levels count_delete
after_remove not_found id o e = with_stats count_level_missing e
after_remove removed id o e = with_stats count_delete (retire id o e)
after_remove removed_last id o e = with_stats count_delete (with_stats lower_levels (retire id o e))

-- The body of `on_order_delete` from the order `o` on.
unfoldable pub delete_order : ℕ → ℕ → ℕ → MatchingEngine → MatchingEngine
unfolding count_mismatch count_unknown book_of put_book after_remove remove_order
delete_order locate id o e =
    let own = (e.arena.orders o).locate in
    let e₁ = with_stats (count_mismatch own locate) e in
    elim (book_of (e.instruments.slots own)) [
      | none ↦ with_stats count_unknown e₁
      | some b ↦
          let done = remove_order o b e.arena in
          after_remove done.0 id o
            (record e₁ { instruments = put_book own done.1.0 e.instruments; arena = done.1.1 })
    ]

unfoldable pub on_order_delete : ℕ → ℕ → MatchingEngine → MatchingEngine
unfolding Index.find delete_order count_unknown
on_order_delete locate id e = elim (Index.find id e.order_index e.arena.orders) [
  | none ↦ with_stats count_unknown e
  | some o ↦ delete_order locate id o e
]
