-- ===== src/Engine/Add.antt =====
-- `on_add_order` of include/MatchingEngine.hpp.
use itchparser.Prelude.{ℕ, Bool, none, some, List, [], ◌∷◌, if◌then◌else◌, update, inc64}
use itchparser.Types.{to_side, make_order}
use itchparser.Pool.{acquire}
use itchparser.Book.State.{OrderBook}
use itchparser.Book.Orders.{
  AddResult, no_level, joined, created, RemoveResult, not_found, removed, removed_last, add_order,
  remove_order,
}
use itchparser.Index
use itchparser.Instruments.{Instrument, InstrumentMap, ensure_book, put, get_or_create}
use itchparser.Engine.State.{
  EngineStats, MatchingEngine, with_stats, count_duplicate, count_no_level, raise_orders,
  raise_levels, lower_levels, put_book, free_order,
}

-- The arguments of `on_add_order` behind the locate code and the order id.
pub record AddFields : Type 0 where
  pub bsi : ℕ
  pub qty : ℕ
  pub px : ℕ
  pub ts : ℕ
  pub mpid : List ℕ
  pub attributed : Bool

abbrev pub no_mpid : List ℕ
no_mpid = b' ' ∷ b' ' ∷ b' ' ∷ b' ' ∷ []

-- The instrument, which an add creates, with its book, which the first order creates.
unfoldable pub open_book : ℕ → InstrumentMap → OrderBook × InstrumentMap
unfolding get_or_create ensure_book put
open_book locate im =
    let got : Instrument × InstrumentMap = elim (im.slots locate) [
      | some inst ↦ (inst, im)
      | none ↦ get_or_create locate im
    ] in
    let ensured = ensure_book got.0 in (ensured.0, put locate ensured.1 got.1)

-- `if (add_rc == 2)` and its body
unfoldable pub count_created : AddResult → EngineStats → EngineStats
unfolding raise_levels
count_created created st = raise_levels st
count_created joined st = st
count_created no_level st = st

-- `if (rm == 2 && stats_.live_levels > 0) --stats_.live_levels`
unfoldable pub count_dropped : RemoveResult → EngineStats → EngineStats
unfolding lower_levels
count_dropped removed_last st = lower_levels st
count_dropped removed st = st
count_dropped not_found st = st

-- From the insertion into the index on; `b` is the book that holds the order at `o`.
unfoldable pub index_new :
    ℕ → ℕ → ℕ → (attributed : Bool) → OrderBook → MatchingEngine → MatchingEngine
unfolding Index.insert remove_order count_dropped count_duplicate put_book free_order raise_orders
index_new locate id o attributed b e =
    let put_in = Index.insert id o e.order_index e.arena.orders in
    if put_in.0
    then (let st = raise_orders e.stats in
        record e {
          instruments = put_book locate b e.instruments;
          order_index = put_in.1;
          stats =
              if attributed
              then record st { add_orders_with_mpid = inc64 st.add_orders_with_mpid }
              else record st { add_orders = inc64 st.add_orders };
        })
    else (let undone = remove_order o b e.arena in
        free_order o (record e {
          instruments = put_book locate undone.1.0 e.instruments;
          arena = undone.1.1;
          stats = count_dropped undone.0 (count_duplicate e.stats);
        }))

-- After the book took the order in, or refused it.
unfoldable pub after_add :
    AddResult → ℕ → ℕ → ℕ → (attributed : Bool) → OrderBook → MatchingEngine → MatchingEngine
unfolding index_new count_created count_no_level free_order put_book
after_add no_level locate id o attributed b e =
    free_order o
      (record e { instruments = put_book locate b e.instruments; stats = count_no_level e.stats })
after_add joined locate id o attributed b e =
    index_new locate id o attributed b (with_stats (count_created joined) e)
after_add created locate id o attributed b e =
    index_new locate id o attributed b (with_stats (count_created created) e)

-- With the slot `o` that the order pool gave.
unfoldable pub add_in_slot : ℕ → ℕ → ℕ → AddFields → OrderBook → MatchingEngine → MatchingEngine
unfolding make_order to_side add_order after_add
add_in_slot locate id o a b e =
    let made =
      make_order id locate a.px a.qty (to_side a.bsi) a.ts
        (if a.attributed then a.mpid else no_mpid) in
    let added = add_order o b (record e.arena { orders = update e.arena.orders o made }) in
    after_add added.0 locate id o a.attributed added.1.0 (record e { arena = added.1.1 })

unfoldable pub on_add_order : ℕ → ℕ → AddFields → MatchingEngine → MatchingEngine
unfolding Index.find open_book acquire add_in_slot count_duplicate
on_add_order locate id a e = elim (Index.find id e.order_index e.arena.orders) [
  | some _ ↦ with_stats count_duplicate e
  | none ↦
      let opened = open_book locate e.instruments in
      let taken = acquire e.order_pool in
      let e₁ = record e { instruments = opened.1; order_pool = taken.1 } in
      elim taken.0 [
        | none ↦
            with_stats
              (λ st. record st {
                add_rejected_pool_exhausted = inc64 st.add_rejected_pool_exhausted;
                pool_exhausted = inc64 st.pool_exhausted;
              })
              e₁
        | some o ↦ add_in_slot locate id o a opened.0 e₁
      ]
]
