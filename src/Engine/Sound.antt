-- ===== src/Engine/Sound.antt =====
-- Each handler of `MatchingEngine` (include/MatchingEngine.hpp) keeps its counters consistent.
use itchparser.Prelude.{ℕ, Bool, arith, inl, inr, if◌then◌else◌, update, Bool-cases, Option-cases}
use itchparser.Types.{make_order, to_side}
use itchparser.Book.State.{OrderBook, Arena}
use itchparser.Book.Orders.{
  AddResult, no_level, joined, created, RemoveResult, not_found, removed, removed_last, FillResult,
  level_missing, partial, filled, filled_last, add_order, remove_order,
}
use itchparser.Index
use itchparser.Pool.{acquire}
use itchparser.Engine.State.{EngineStats, MatchingEngine, with_stats, book_of, put_book, free_order}
use itchparser.Engine.Add.{
  AddFields, count_created, index_new, after_add, add_in_slot, on_add_order, open_book, no_mpid,
}
use itchparser.Engine.Reduce.{
  count_mismatch, drop_id, retire, after_fill, fill_order, count_delete, after_remove, delete_order,
}
use itchparser.Engine.Counters.{
  IsSound, Keeps, count_unknown-Keeps, count_duplicate-Keeps, count_level_missing-Keeps,
  count_no_level-Keeps, raise_orders-Keeps, lower_orders-Keeps, lower_levels-Keeps,
  count_created-Keeps, count_dropped-Keeps, count_mismatch-Keeps,
}

-- A change of the engine that keeps its counters consistent.
abbrev pub Steady : (MatchingEngine → MatchingEngine) → Type 0
Steady f = (e : MatchingEngine) → IsSound e.stats → IsSound (f e).stats

index_new-Steady :
    (locate id o : ℕ) (attributed : Bool) (b : OrderBook)
    → Steady (index_new locate id o attributed b)
unfolding index_new free_order
index_new-Steady locate id o attributed b e v =
    elim (Bool-cases (Index.insert id o e.order_index e.arena.orders).0) [
      | inl h ↦ rw h (
          let w = raise_orders-Keeps e.stats v in
          elim (Bool-cases attributed) [
            | inl t ↦
                rw t (record { exhausted = w.exhausted; orders = w.orders; levels = w.levels })
            | inr t ↦
                rw t (record { exhausted = w.exhausted; orders = w.orders; levels = w.levels })
          ])
      | inr h ↦ rw h (count_dropped-Keeps _ _ (count_duplicate-Keeps e.stats v))
    ]

after_add-Steady :
    (c : AddResult) (locate id o : ℕ) (attributed : Bool) (b : OrderBook)
    → Steady (after_add c locate id o attributed b)
unfolding after_add free_order
after_add-Steady no_level locate id o attributed b e v = count_no_level-Keeps e.stats v
after_add-Steady joined locate id o attributed b e v =
    index_new-Steady locate id o attributed b (with_stats (count_created joined) e)
      (count_created-Keeps joined e.stats v)
after_add-Steady created locate id o attributed b e v =
    index_new-Steady locate id o attributed b (with_stats (count_created created) e)
      (count_created-Keeps created e.stats v)

add_in_slot-Steady :
    (locate id o : ℕ) (a : AddFields) (b : OrderBook) → Steady (add_in_slot locate id o a b)
unfolding add_in_slot
add_in_slot-Steady locate id o a b e v =
    let made =
      make_order id locate a.px a.qty (to_side a.bsi) a.ts
        (if a.attributed then a.mpid else no_mpid) in
    let added = add_order o b (record e.arena { orders = update e.arena.orders o made }) in
    after_add-Steady added.0 locate id o a.attributed added.1.0 (record e { arena = added.1.1 }) v

-- `on_add_order` keeps the counters consistent on every branch.
pub on_add_order-Steady : (locate id : ℕ) (a : AddFields) → Steady (on_add_order locate id a)
unfolding on_add_order
on_add_order-Steady locate id a e v =
    let opened = open_book locate e.instruments in
    let taken = acquire e.order_pool in
    let e₁ = record e { instruments = opened.1; order_pool = taken.1 } in
    elim (Option-cases (Index.find id e.order_index e.arena.orders)) [
      | inl h ↦ elim (Option-cases taken.0) [
        | inl t ↦
            rw (on_add_order, h, t)
              (record {
                exhausted = omega (arith, v.exhausted);
                orders = v.orders;
                levels = v.levels;
              })
        | inr (o, t) ↦ rw (on_add_order, h, t) (add_in_slot-Steady locate id o a opened.0 e₁ v)
      ]
      | inr (o, h) ↦ rw (on_add_order, h) (count_duplicate-Keeps e.stats v)
    ]

pub retire-Steady : (id o : ℕ) → Steady (retire id o)
unfolding retire free_order drop_id
retire-Steady id o e v = lower_orders-Keeps e.stats v

-- The counters that the fills advance are not among those compared.
after_fill-Steady :
    (accept : EngineStats → EngineStats) (c : FillResult) (id o : ℕ)
    → Keeps accept
    → Steady (after_fill accept c id o)
unfolding after_fill
after_fill-Steady accept level_missing id o k e v = count_level_missing-Keeps e.stats v
after_fill-Steady accept partial id o k e v = k e.stats v
after_fill-Steady accept filled id o k e v = retire-Steady id o (with_stats accept e) (k e.stats v)
after_fill-Steady accept filled_last id o k e v =
    lower_levels-Keeps (retire id o (with_stats accept e)).stats
      (retire-Steady id o (with_stats accept e) (k e.stats v))

pub fill_order-Steady :
    (accept : EngineStats → EngineStats)
    (apply : ℕ → ℕ → OrderBook → Arena → FillResult × (OrderBook × Arena)) (locate id qty o : ℕ)
    → Keeps accept
    → Steady (fill_order accept apply locate id qty o)
unfolding fill_order
fill_order-Steady accept apply locate id qty o k e v =
    let own = (e.arena.orders o).locate in
    let e₁ = with_stats (count_mismatch own locate) e in
    let w = count_mismatch-Keeps own locate e.stats v in
    elim (Option-cases (book_of (e.instruments.slots own))) [
      | inl h ↦ rw (fill_order, h) (count_unknown-Keeps e₁.stats w)
      | inr (b, h) ↦
          let done = apply o qty b e.arena in
          rw (fill_order, h)
            (after_fill-Steady accept done.0 id o k
              (record e₁ { instruments = put_book own done.1.0 e.instruments; arena = done.1.1 }) w)
    ]

after_remove-Steady : (c : RemoveResult) (id o : ℕ) → Steady (after_remove c id o)
unfolding after_remove count_delete
after_remove-Steady not_found id o e v = count_level_missing-Keeps e.stats v
after_remove-Steady removed id o e v =
    let w = retire-Steady id o e v in
    record { exhausted = w.exhausted; orders = w.orders; levels = w.levels }
after_remove-Steady removed_last id o e v =
    let w = lower_levels-Keeps (retire id o e).stats (retire-Steady id o e v) in
    record { exhausted = w.exhausted; orders = w.orders; levels = w.levels }

pub delete_order-Steady : (locate id o : ℕ) → Steady (delete_order locate id o)
unfolding delete_order
delete_order-Steady locate id o e v =
    let own = (e.arena.orders o).locate in
    let e₁ = with_stats (count_mismatch own locate) e in
    let w = count_mismatch-Keeps own locate e.stats v in
    elim (Option-cases (book_of (e.instruments.slots own))) [
      | inl h ↦ rw (delete_order, h) (count_unknown-Keeps e₁.stats w)
      | inr (b, h) ↦
          let done = remove_order o b e.arena in
          rw (delete_order, h)
            (after_remove-Steady done.0 id o
              (record e₁ { instruments = put_book own done.1.0 e.instruments; arena = done.1.1 }) w)
    ]
