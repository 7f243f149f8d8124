-- ===== src/Engine/Steady.antt =====
-- The counters across the executions, deletions, replacements and crosses of `MatchingEngine`
-- (include/MatchingEngine.hpp), and across a message of any type.
use itchparser.Prelude.{
  ℕ, List, [], ◌∷◌, arith, inl, inr, ◌==◌, update, inc64, length, Bool-cases, Option-cases,
}
use itchparser.Types.{Side, make_order, cross_closing}
use itchparser.Book.State.{OrderBook}
use itchparser.Book.Orders.{
  AddResult, no_level, joined, created, RemoveResult, not_found, removed, removed_last, add_order,
  remove_order, execute_order, cancel_order,
}
use itchparser.Book.Walks.{live_levels, for_each_order}
use itchparser.Index
use itchparser.Pool.{acquire}
use itchparser.Engine.State.{with_stats, book_of, free_order}
use itchparser.Engine.Add.{count_created, count_dropped}
use itchparser.Engine.Reduce.{
  count_mismatch, drop_id, retire, count_executed, count_executed_with_price, count_cancel,
  on_order_executed, on_order_executed_with_price, on_order_cancel, on_order_delete,
}
use itchparser.Engine.Replace.{
  NewFields, index_replacement, after_readd, add_replacement, after_old, replace_in_slot,
  replace_at, on_order_replace,
}
use itchparser.Engine.Cross.{release_snapshot, clear_book, on_cross_trade}
use itchparser.Engine.Counters.{
  IsSound, count_unknown-Keeps, count_duplicate-Keeps, count_level_missing-Keeps,
  count_no_level-Keeps, raise_orders-Keeps, count_created-Keeps, count_dropped-Keeps,
  count_mismatch-Keeps, count_cleared-Keeps,
}
use itchparser.Engine.Sound.{Steady, retire-Steady, fill_order-Steady, delete_order-Steady}

pub on_order_executed-Steady : (locate id qty : ℕ) → Steady (on_order_executed locate id qty)
unfolding on_order_executed count_executed
on_order_executed-Steady locate id qty e v =
    elim (Option-cases (Index.find id e.order_index e.arena.orders)) [
      | inl h ↦ rw (on_order_executed, h) (count_unknown-Keeps e.stats v)
      | inr (o, h) ↦
          rw (on_order_executed, h)
            (fill_order-Steady count_executed execute_order locate id qty o
              (λ st w. record { exhausted = w.exhausted; orders = w.orders; levels = w.levels }) e
              v)
    ]

pub on_order_executed_with_price-Steady :
    (locate id qty : ℕ) → Steady (on_order_executed_with_price locate id qty)
unfolding on_order_executed_with_price count_executed_with_price
on_order_executed_with_price-Steady locate id qty e v =
    elim (Option-cases (Index.find id e.order_index e.arena.orders)) [
      | inl h ↦ rw (on_order_executed_with_price, h) (count_unknown-Keeps e.stats v)
      | inr (o, h) ↦
          rw (on_order_executed_with_price, h)
            (fill_order-Steady count_executed_with_price execute_order locate id qty o
              (λ st w. record { exhausted = w.exhausted; orders = w.orders; levels = w.levels }) e
              v)
    ]

pub on_order_cancel-Steady : (locate id qty : ℕ) → Steady (on_order_cancel locate id qty)
unfolding on_order_cancel count_cancel
on_order_cancel-Steady locate id qty e v =
    elim (Option-cases (Index.find id e.order_index e.arena.orders)) [
      | inl h ↦ rw (on_order_cancel, h) (count_unknown-Keeps e.stats v)
      | inr (o, h) ↦
          rw (on_order_cancel, h)
            (fill_order-Steady count_cancel cancel_order locate id qty o
              (λ st w. record { exhausted = w.exhausted; orders = w.orders; levels = w.levels }) e
              v)
    ]

pub on_order_delete-Steady : (locate id : ℕ) → Steady (on_order_delete locate id)
unfolding on_order_delete
on_order_delete-Steady locate id e v =
    elim (Option-cases (Index.find id e.order_index e.arena.orders)) [
      | inl h ↦ rw (on_order_delete, h) (count_unknown-Keeps e.stats v)
      | inr (o, h) ↦ rw (on_order_delete, h) (delete_order-Steady locate id o e v)
    ]

index_replacement-Steady :
    (locate id o : ℕ) (b : OrderBook) → Steady (index_replacement locate id o b)
unfolding index_replacement free_order
index_replacement-Steady locate id o b e v =
    elim (Bool-cases (Index.insert id o e.order_index e.arena.orders).0) [
      | inl h ↦
          let w = raise_orders-Keeps e.stats v in
          rw (index_replacement, h)
            (record { exhausted = w.exhausted; orders = w.orders; levels = w.levels })
      | inr h ↦
          rw (index_replacement, h)
            (count_dropped-Keeps (remove_order o b e.arena).0
              (record e.stats { duplicate_adds = inc64 e.stats.duplicate_adds })
              (record { exhausted = v.exhausted; orders = v.orders; levels = v.levels }))
    ]

after_readd-Steady :
    (c : AddResult) (locate id o : ℕ) (b : OrderBook) → Steady (after_readd c locate id o b)
unfolding after_readd free_order
after_readd-Steady no_level locate id o b e v = count_no_level-Keeps e.stats v
after_readd-Steady joined locate id o b e v =
    index_replacement-Steady locate id o b (with_stats (count_created joined) e)
      (count_created-Keeps joined e.stats v)
after_readd-Steady created locate id o b e v =
    index_replacement-Steady locate id o b (with_stats (count_created created) e)
      (count_created-Keeps created e.stats v)

add_replacement-Steady :
    (locate : ℕ) (n : NewFields) (side : Side) (mpid : List ℕ) (o : ℕ) (b : OrderBook)
    → Steady (add_replacement locate n side mpid o b)
unfolding add_replacement
add_replacement-Steady locate n side mpid o b e v =
    let made = make_order n.id locate n.px n.qty side n.ts mpid in
    let added = add_order o b (record e.arena { orders = update e.arena.orders o made }) in
    after_readd-Steady added.0 locate n.id o added.1.0 (record e { arena = added.1.1 }) v

after_old-Steady :
    (c : RemoveResult) (locate old_id : ℕ) (n : NewFields) (side : Side) (mpid : List ℕ) (old o : ℕ)
    (b : OrderBook)
    → Steady (after_old c locate old_id n side mpid old o b)
unfolding after_old free_order
after_old-Steady not_found locate old_id n side mpid old o b e v =
    count_level_missing-Keeps e.stats v
after_old-Steady removed locate old_id n side mpid old o b e v =
    add_replacement-Steady locate n side mpid o b
      (with_stats (count_dropped removed) (retire old_id old e))
      (count_dropped-Keeps removed (retire old_id old e).stats (retire-Steady old_id old e v))
after_old-Steady removed_last locate old_id n side mpid old o b e v =
    add_replacement-Steady locate n side mpid o b
      (with_stats (count_dropped removed_last) (retire old_id old e))
      (count_dropped-Keeps removed_last (retire old_id old e).stats (retire-Steady old_id old e v))

replace_in_slot-Steady :
    (locate old_id : ℕ) (n : NewFields) (old o : ℕ) (b : OrderBook)
    → Steady (replace_in_slot locate old_id n old o b)
unfolding replace_in_slot
replace_in_slot-Steady locate old_id n old o b e v =
    let cut = remove_order old b e.arena in
    after_old-Steady cut.0 locate old_id n (e.arena.orders old).side (e.arena.orders old).mpid old o
      cut.1.0 (record e { arena = cut.1.1 }) v

replace_at-Steady :
    (locate old_id : ℕ) (n : NewFields) (old : ℕ) → Steady (replace_at locate old_id n old)
unfolding replace_at
replace_at-Steady locate old_id n old e v =
    elim (Option-cases (book_of (e.instruments.slots locate))) [
      | inl h ↦ rw (replace_at, h) (count_unknown-Keeps e.stats v)
      | inr (b, h) ↦
          let taken = acquire e.order_pool in
          elim (Option-cases taken.0) [
            | inl t ↦
                rw (replace_at, h, t)
                  (record {
                    exhausted = omega (arith, v.exhausted);
                    orders = v.orders;
                    levels = v.levels;
                  })
            | inr (o, t) ↦
                rw (replace_at, h, t)
                  (replace_in_slot-Steady locate old_id n old o b
                    (record e { order_pool = taken.1 }) v)
          ]
    ]

pub on_order_replace-Steady :
    (locate old_id : ℕ) (n : NewFields) → Steady (on_order_replace locate old_id n)
unfolding on_order_replace
on_order_replace-Steady locate old_id n e v =
    elim (Option-cases (Index.find old_id e.order_index e.arena.orders)) [
      | inl h ↦ rw (on_order_replace, h) (count_unknown-Keeps e.stats v)
      | inr (old, h) ↦
          let own = (e.arena.orders old).locate in
          let e₁ = with_stats (count_mismatch own locate) e in
          let w = count_mismatch-Keeps own locate e.stats v in
          elim (Option-cases (Index.find n.id e.order_index e.arena.orders)) [
            | inl t ↦ rw (on_order_replace, h, t) (replace_at-Steady own old_id n old e₁ w)
            | inr (x, t) ↦ rw (on_order_replace, h, t) (count_duplicate-Keeps e₁.stats w)
          ]
    ]

release_snapshot-Steady : (os : List ℕ) → Steady (release_snapshot os)
unfolding release_snapshot drop_id free_order
release_snapshot-Steady [] e v = v
release_snapshot-Steady (o ∷ os) e v =
    release_snapshot-Steady os (free_order o (drop_id (e.arena.orders o).order_id e)) v

clear_book-Steady : (locate : ℕ) (b : OrderBook) → Steady (clear_book locate b)
unfolding clear_book
clear_book-Steady locate b e v =
    let snapshot = for_each_order b e.arena in
    count_cleared-Keeps (length snapshot) (live_levels b) (release_snapshot snapshot e).stats
      (release_snapshot-Steady snapshot e v)

pub on_cross_trade-Steady : (locate xtype : ℕ) → Steady (on_cross_trade locate xtype)
unfolding on_cross_trade
on_cross_trade-Steady locate xtype e v =
    let e₁ = with_stats (λ st. record st { cross_trades = inc64 st.cross_trades }) e in
    let w : IsSound e₁.stats = record {
      exhausted = v.exhausted;
      orders = v.orders;
      levels = v.levels;
    } in
    elim (Bool-cases (xtype == cross_closing)) [
      | inl h ↦ elim (Option-cases (book_of (e.instruments.slots locate))) [
        | inl t ↦ rw (on_cross_trade, h, t) w
        | inr (b, t) ↦ rw (on_cross_trade, h, t) (clear_book-Steady locate b e₁ w)
      ]
      | inr h ↦ rw (on_cross_trade, h) w
    ]
