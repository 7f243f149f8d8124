-- ===== src/Book/Orders.antt =====
-- The methods of `OrderBook` (include/OrderBook.hpp) that add, reduce and remove an order. The
-- integer codes that they return are data types, each constructor being one code.
use itchparser.Prelude.{
  ℕ, Bool, true, false, none, some, leb, if◌then◌else◌, update, inc64, dec64, sub64,
}
use itchparser.Types.{Side, reduce}
use itchparser.Pool.{acquire, release}
use itchparser.Level.{make_level, reset, push_back, unlink, unlink_and_deduct, empty}
use itchparser.Book.State.{
  Arena, OrderBook, find_level, insert_level_into_map, erase_level_from_map,
}
use itchparser.Book.LevelList.{insert_level_sorted, remove_level_from_list}

-- The result of `add_order`: 0, 1 and 2.
pub data AddResult : Type 0 where
  no_level joined created : AddResult

-- `lvl->push_back(o)` and the count, at the end of `add_order`.
unfoldable pub append_order : ℕ → ℕ → OrderBook → Arena → OrderBook × Arena
unfolding push_back
append_order o l b m =
    let pushed = push_back o (m.levels l) m.orders in
    (
      record b { live_order_count = inc64 b.live_order_count },
      record m { orders = pushed.1; levels = update m.levels l pushed.0 },
    )

-- The creation of a level for `add_order`, in a slot that the pool gave.
unfoldable pub create_level : Side → ℕ → ℕ → OrderBook → Arena → OrderBook × Arena
unfolding insert_level_sorted insert_level_into_map make_level reset
create_level s px l b m =
    let ls₁ = update m.levels l (reset px s make_level) in
    let sorted = insert_level_sorted s l b ls₁ in
    (insert_level_into_map s (sorted.1 l).price_cents l sorted.0, record m { levels = sorted.1 })

unfoldable pub add_order : ℕ → OrderBook → Arena → AddResult × (OrderBook × Arena)
unfolding find_level append_order create_level acquire
add_order o b m =
    let s = (m.orders o).side in
    let px = (m.orders o).price_cents in
    elim (find_level s px b) [
      | some l ↦ (joined, append_order o l b m)
      | none ↦
          let taken = acquire m.level_pool in
          elim taken.0 [
            | none ↦ (no_level, (b, m))
            | some l ↦
                let made = create_level s px l b (record m { level_pool = taken.1 }) in
                (created, append_order o l made.0 made.1)
          ]
    ]

-- The end of `execute_order` and `remove_order`: a level that is now empty goes out of the list
-- and the map, and back to the pool. The Boolean says whether it went.
unfoldable pub drop_if_empty : Side → ℕ → OrderBook → Arena → Bool × (OrderBook × Arena)
unfolding empty remove_level_from_list erase_level_from_map release
drop_if_empty s l b m =
    if empty (m.levels l)
    then (let cut = remove_level_from_list s l b m.levels in
        (
          true,
          (
            erase_level_from_map s (cut.1 l).price_cents cut.0,
            record m { levels = cut.1; level_pool = release (some l) m.level_pool },
          ),
        ))
    else (false, (b, m))

-- The result of `execute_order` and `cancel_order`: -1, 0, 1 and 2.
pub data FillResult : Type 0 where
  level_missing partial filled filled_last : FillResult

-- What `execute_order` does at the level that it found.
unfoldable pub fill_at : ℕ → ℕ → ℕ → OrderBook → Arena → FillResult × (OrderBook × Arena)
unfolding reduce unlink drop_if_empty
fill_at o qty l b m =
    let ord = m.orders o in
    let done = if leb ord.shares_remaining qty then ord.shares_remaining else qty in
    let lvl = m.levels l in
    let lvl₁ = record lvl { total_shares = sub64 lvl.total_shares done } in
    let reduced = reduce qty ord in
    let os₁ = update m.orders o reduced.1 in
    if reduced.0
    then (let cut = unlink o lvl₁ os₁ in
        let dropped =
          drop_if_empty ord.side l (record b { live_order_count = dec64 b.live_order_count })
            (record m { orders = cut.1; levels = update m.levels l cut.0 }) in
        (if dropped.0 then filled_last else filled, dropped.1))
    else (partial, (b, record m { orders = os₁; levels = update m.levels l lvl₁ }))

unfoldable pub execute_order : ℕ → ℕ → OrderBook → Arena → FillResult × (OrderBook × Arena)
unfolding find_level fill_at
execute_order o qty b m = elim (find_level (m.orders o).side (m.orders o).price_cents b) [
  | none ↦ (level_missing, (b, m))
  | some l ↦ fill_at o qty l b m
]

unfoldable pub cancel_order : ℕ → ℕ → OrderBook → Arena → FillResult × (OrderBook × Arena)
unfolding execute_order
cancel_order = execute_order

-- The result of `remove_order`: 0, 1 and 2.
pub data RemoveResult : Type 0 where
  not_found removed removed_last : RemoveResult

-- What `remove_order` does at the level that it found.
unfoldable pub remove_at : ℕ → ℕ → OrderBook → Arena → RemoveResult × (OrderBook × Arena)
unfolding unlink_and_deduct drop_if_empty
remove_at o l b m =
    let cut = unlink_and_deduct o (m.levels l) m.orders in
    let dropped =
      drop_if_empty (cut.1 o).side l (record b { live_order_count = dec64 b.live_order_count })
        (record m { orders = cut.1; levels = update m.levels l cut.0 }) in
    (if dropped.0 then removed_last else removed, dropped.1)

unfoldable pub remove_order : ℕ → OrderBook → Arena → RemoveResult × (OrderBook × Arena)
unfolding find_level remove_at
remove_order o b m = elim (find_level (m.orders o).side (m.orders o).price_cents b) [
  | none ↦ (not_found, (b, m))
  | some l ↦ remove_at o l b m
]
