-- ===== src/Engine/Replace.antt =====
-- `on_order_replace` of include/MatchingEngine.hpp. The new slot is taken before the old order
-- goes, but the new order's level only afterwards.
use itchparser.Prelude.{ℕ, none, some, List, if◌then◌else◌, update, inc64}
use itchparser.Types.{Side, make_order}
use itchparser.Pool.{acquire}
use itchparser.Book.State.{OrderBook}
use itchparser.Book.Orders.{
  AddResult, no_level, joined, created, RemoveResult, not_found, removed, removed_last, add_order,
  remove_order,
}
use itchparser.Index
use itchparser.Engine.State.{
  MatchingEngine, with_stats, count_unknown, count_duplicate, count_level_missing, count_no_level,
  raise_orders, book_of, put_book, free_order,
}
use itchparser.Engine.Add.{count_created, count_dropped}
use itchparser.Engine.Reduce.{count_mismatch, retire}

-- The new order: its id, quantity, price and time, and what it takes over from the old one.
pub record NewFields : Type 0 where
  pub id : ℕ
  pub qty : ℕ
  pub px : ℕ
  pub ts : ℕ

-- From the insertion into the index on. Here a refusal counts as a duplicate only.
unfoldable pub index_replacement : ℕ → ℕ → ℕ → OrderBook → MatchingEngine → MatchingEngine
unfolding Index.insert remove_order count_dropped put_book free_order raise_orders
index_replacement locate id o b e =
    let put_in = Index.insert id o e.order_index e.arena.orders in
    if put_in.0
    then (let st = raise_orders e.stats in
        record e {
          instruments = put_book locate b e.instruments;
          order_index = put_in.1;
          stats = record st { order_replace = inc64 st.order_replace };
        })
    else (let undone = remove_order o b e.arena in
        free_order o (record e {
          instruments = put_book locate undone.1.0 e.instruments;
          arena = undone.1.1;
          stats =
              count_dropped undone.0
                (record e.stats { duplicate_adds = inc64 e.stats.duplicate_adds });
        }))

unfoldable pub after_readd : AddResult → ℕ → ℕ → ℕ → OrderBook → MatchingEngine → MatchingEngine
unfolding index_replacement count_created count_no_level free_order put_book
after_readd no_level locate id o b e =
    free_order o
      (record e { instruments = put_book locate b e.instruments; stats = count_no_level e.stats })
after_readd joined locate id o b e =
    index_replacement locate id o b (with_stats (count_created joined) e)
after_readd created locate id o b e =
    index_replacement locate id o b (with_stats (count_created created) e)

-- The construction of the new order in slot `o`, and its way into the book `b`.
unfoldable pub add_replacement :
    ℕ → NewFields → Side → List ℕ → ℕ → OrderBook → MatchingEngine → MatchingEngine
unfolding make_order add_order after_readd
add_replacement locate n side mpid o b e =
    let made = make_order n.id locate n.px n.qty side n.ts mpid in
    let added = add_order o b (record e.arena { orders = update e.arena.orders o made }) in
    after_readd added.0 locate n.id o added.1.0 (record e { arena = added.1.1 })

-- After `remove_order` of the old order `old`, with the new slot `o`.
unfoldable pub after_old :
    RemoveResult
    → ℕ
    → ℕ
    → NewFields
    → Side
    → List ℕ
    → ℕ
    → ℕ
    → OrderBook
    → MatchingEngine
    → MatchingEngine
unfolding retire count_level_missing count_dropped free_order add_replacement put_book
after_old not_found locate old_id n side mpid old o b e = free_order o (record e {
  instruments = put_book locate b e.instruments;
  stats = count_level_missing e.stats;
})
after_old removed locate old_id n side mpid old o b e =
    add_replacement locate n side mpid o b
      (with_stats (count_dropped removed) (retire old_id old e))
after_old removed_last locate old_id n side mpid old o b e =
    add_replacement locate n side mpid o b
      (with_stats (count_dropped removed_last) (retire old_id old e))

-- With the slot `o` that the order pool gave for the new order.
unfoldable pub replace_in_slot :
    ℕ → ℕ → NewFields → ℕ → ℕ → OrderBook → MatchingEngine → MatchingEngine
unfolding remove_order after_old
replace_in_slot locate old_id n old o b e =
    let side = (e.arena.orders old).side in
    let mpid = (e.arena.orders old).mpid in
    let cut = remove_order old b e.arena in
    after_old cut.0 locate old_id n side mpid old o cut.1.0 (record e { arena = cut.1.1 })

-- Behind the checks on the ids: the book, and the slot for the new order.
unfoldable pub replace_at : ℕ → ℕ → NewFields → ℕ → MatchingEngine → MatchingEngine
unfolding book_of count_unknown acquire replace_in_slot
replace_at locate old_id n old e = elim (book_of (e.instruments.slots locate)) [
  | none ↦ with_stats count_unknown e
  | some b ↦
      let taken = acquire e.order_pool in
      elim taken.0 [
        | none ↦
            with_stats
              (λ st. record st {
                replace_rejected_pool_exhausted = inc64 st.replace_rejected_pool_exhausted;
                pool_exhausted = inc64 st.pool_exhausted;
              })
              e
        | some o ↦ replace_in_slot locate old_id n old o b (record e { order_pool = taken.1 })
      ]
]

unfoldable pub on_order_replace : ℕ → ℕ → NewFields → MatchingEngine → MatchingEngine
unfolding Index.find count_mismatch count_unknown count_duplicate replace_at
on_order_replace locate old_id n e = elim (Index.find old_id e.order_index e.arena.orders) [
  | none ↦ with_stats count_unknown e
  | some old ↦
      let own = (e.arena.orders old).locate in
      let e₁ = with_stats (count_mismatch own locate) e in
      elim (Index.find n.id e.order_index e.arena.orders) [
        | some _ ↦ with_stats count_duplicate e₁
        | none ↦ replace_at own old_id n old e₁
      ]
]
