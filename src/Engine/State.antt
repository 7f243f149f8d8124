-- ===== src/Engine/State.antt =====
-- The state of `MatchingEngine` and `EngineStats` (include/MatchingEngine.hpp). The engine never
-- calls its logger, which is left out.
use itchparser.Prelude.{ℕ, Bool, Option, none, some, ltb, if◌then◌else◌, inc64, dec64}
use itchparser.Types.{Ptr, order_bytes, level_bytes}
use itchparser.Pool.{MemoryPool, Built, bad_alloc, overrun, built, make_pool, release}
use itchparser.Level.{Orders}
use itchparser.Book.State.{Levels, Arena, OrderBook}
use itchparser.Index.{DirectOrderIndex, make_index}
use itchparser.Instruments.{Instrument, InstrumentMap, make_instruments, put}

pub record EngineStats : Type 0 where
  pub add_orders : ℕ
  pub add_orders_with_mpid : ℕ
  pub order_executed : ℕ
  pub order_executed_with_price : ℕ
  pub order_cancel : ℕ
  pub order_delete : ℕ
  pub order_replace : ℕ
  pub non_cross_trades : ℕ
  pub cross_trades : ℕ
  pub broken_trades : ℕ
  pub instruments_registered : ℕ
  pub add_rejected_pool_exhausted : ℕ
  pub add_rejected_level_pool_exhausted : ℕ
  pub replace_rejected_pool_exhausted : ℕ
  pub duplicate_adds : ℕ
  pub locate_mismatches : ℕ
  pub level_missing : ℕ
  pub unknown_order_events : ℕ
  pub live_orders : ℕ
  pub live_levels : ℕ
  pub peak_live_orders : ℕ
  pub peak_live_levels : ℕ
  pub pool_exhausted : ℕ

unfoldable pub make_stats : EngineStats
make_stats = record {
  add_orders = 0;
  add_orders_with_mpid = 0;
  order_executed = 0;
  order_executed_with_price = 0;
  order_cancel = 0;
  order_delete = 0;
  order_replace = 0;
  non_cross_trades = 0;
  cross_trades = 0;
  broken_trades = 0;
  instruments_registered = 0;
  add_rejected_pool_exhausted = 0;
  add_rejected_level_pool_exhausted = 0;
  replace_rejected_pool_exhausted = 0;
  duplicate_adds = 0;
  locate_mismatches = 0;
  level_missing = 0;
  unknown_order_events = 0;
  live_orders = 0;
  live_levels = 0;
  peak_live_orders = 0;
  peak_live_levels = 0;
  pool_exhausted = 0;
}

-- `++stats_.unknown_order_events`
unfoldable pub count_unknown : EngineStats → EngineStats
count_unknown st = record st { unknown_order_events = inc64 st.unknown_order_events }

-- `++stats_.duplicate_adds; ++stats_.unknown_order_events`
unfoldable pub count_duplicate : EngineStats → EngineStats
count_duplicate st = record st {
  duplicate_adds = inc64 st.duplicate_adds;
  unknown_order_events = inc64 st.unknown_order_events;
}

-- `++stats_.level_missing; ++stats_.unknown_order_events`
unfoldable pub count_level_missing : EngineStats → EngineStats
count_level_missing st = record st {
  level_missing = inc64 st.level_missing;
  unknown_order_events = inc64 st.unknown_order_events;
}

-- `++stats_.add_rejected_level_pool_exhausted; ++stats_.pool_exhausted`
unfoldable pub count_no_level : EngineStats → EngineStats
count_no_level st = record st {
  add_rejected_level_pool_exhausted = inc64 st.add_rejected_level_pool_exhausted;
  pool_exhausted = inc64 st.pool_exhausted;
}

-- `++stats_.live_orders`, and the peak
unfoldable pub raise_orders : EngineStats → EngineStats
raise_orders st =
    let n = inc64 st.live_orders in
    record st {
      live_orders = n;
      peak_live_orders = if ltb st.peak_live_orders n then n else st.peak_live_orders;
    }

-- `++stats_.live_levels`, and the peak
unfoldable pub raise_levels : EngineStats → EngineStats
raise_levels st =
    let n = inc64 st.live_levels in
    record st {
      live_levels = n;
      peak_live_levels = if ltb st.peak_live_levels n then n else st.peak_live_levels;
    }

-- `if (stats_.live_orders > 0) --stats_.live_orders`
unfoldable pub lower_orders : EngineStats → EngineStats
lower_orders st =
    if ltb 0 st.live_orders then record st { live_orders = dec64 st.live_orders } else st

-- `if (stats_.live_levels > 0) --stats_.live_levels`
unfoldable pub lower_levels : EngineStats → EngineStats
lower_levels st =
    if ltb 0 st.live_levels then record st { live_levels = dec64 st.live_levels } else st

pub record MatchingEngine : Type 0 where
  pub instruments : InstrumentMap
  pub arena : Arena
  pub order_pool : MemoryPool
  pub order_index : DirectOrderIndex
  pub stats : EngineStats

-- The engine with the pools; `os` and `ls` are what their blocks hold.
unfoldable pub engine_with : (order_pool level_pool : MemoryPool) → Orders → Levels → MatchingEngine
unfolding make_index make_stats make_instruments
engine_with order_pool level_pool os ls = record {
  instruments = make_instruments;
  arena = record { orders = os; levels = ls; level_pool = level_pool };
  order_pool = order_pool;
  order_index = make_index;
  stats = make_stats;
}

-- The constructor, which makes the pool of orders first. `allocate` says which blocks `operator new[]`
-- gives, and the last four arguments are what they hold.
unfoldable pub make_engine :
    (allocate : ℕ → Bool) → ℕ → ℕ → Orders → Levels → (ℕ → Ptr) → (ℕ → Ptr) → Built MatchingEngine
unfolding make_pool engine_with
make_engine allocate order_pool_size level_pool_size os ls raw_orders raw_levels =
    elim (make_pool allocate order_bytes order_pool_size raw_orders) [
      | bad_alloc ↦ bad_alloc
      | overrun ↦ overrun
      | built order_pool ↦ elim (make_pool allocate level_bytes level_pool_size raw_levels) [
        | bad_alloc ↦ bad_alloc
        | overrun ↦ overrun
        | built level_pool ↦ built (engine_with order_pool level_pool os ls)
      ]
    ]

-- A change of the counters alone.
abbrev pub with_stats : (EngineStats → EngineStats) → MatchingEngine → MatchingEngine
with_stats f e = record e { stats = f e.stats }

-- `inst->book` where the instrument and its book are there.
unfoldable pub book_of : Option Instrument → Option OrderBook
book_of none = none
book_of (some inst) = inst.book

-- The book of an instrument after a method of it.
unfoldable pub put_book : ℕ → OrderBook → InstrumentMap → InstrumentMap
unfolding put
put_book locate b im = elim (im.slots locate) [
  | none ↦ im
  | some inst ↦ put locate (record inst { book = some b }) im
]

-- `order_pool_.release(o)`
unfoldable pub free_order : ℕ → MatchingEngine → MatchingEngine
unfolding release
free_order o e = record e { order_pool = release (some o) e.order_pool }
