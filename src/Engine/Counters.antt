-- ===== src/Engine/Counters.antt =====
-- The counters of `EngineStats` (include/MatchingEngine.hpp) across the handlers of the engine.
use itchparser.Prelude.{ℕ, ◌+◌, ◌%◌, ◌^◌, ◌≤◌, ◌≡◌, refl, arith, inl, inr, ltb, ◌==◌, Bool-cases}
use itchparser.Book.Orders.{
  AddResult, no_level, joined, created, RemoveResult, not_found, removed, removed_last,
}
use itchparser.Engine.State.{
  EngineStats, make_stats, count_unknown, count_duplicate, count_level_missing, count_no_level,
  raise_orders, raise_levels, lower_orders, lower_levels,
}
use itchparser.Engine.Add.{count_created, count_dropped}
use itchparser.Engine.Reduce.{count_mismatch}
use itchparser.Engine.Cross.{lower_by, count_cleared}

-- The counter of exhausted pools is the sum of the three counters that say what was rejected, and
-- no count of what is live is above its peak.
pub record IsSound (st : EngineStats) : Type 0 where
  pub exhausted :
      st.pool_exhausted
      ≡ (st.add_rejected_pool_exhausted + st.add_rejected_level_pool_exhausted
          + st.replace_rejected_pool_exhausted)
        % 2 ^ 64
  pub orders : st.live_orders ≤ st.peak_live_orders
  pub levels : st.live_levels ≤ st.peak_live_levels

abbrev pub Keeps : (EngineStats → EngineStats) → Type 0
Keeps f = (st : EngineStats) → IsSound st → IsSound (f st)

-- A change of the counters that the invariant does not read.
module _ (st st' : EngineStats) (v : IsSound st) where
  rebuild :
      st'.pool_exhausted ≡ st.pool_exhausted
      → st'.add_rejected_pool_exhausted ≡ st.add_rejected_pool_exhausted
      → st'.add_rejected_level_pool_exhausted ≡ st.add_rejected_level_pool_exhausted
      → st'.replace_rejected_pool_exhausted ≡ st.replace_rejected_pool_exhausted
      → st'.live_orders ≤ st'.peak_live_orders
      → st'.live_levels ≤ st'.peak_live_levels
      → IsSound st'
  rebuild a b c d o l = record { exhausted = rw (a, b, c, d) v.exhausted; orders = o; levels = l }

pub make_stats-IsSound : IsSound make_stats
unfolding make_stats
make_stats-IsSound = record { exhausted = refl; orders = omega arith; levels = omega arith }

pub count_unknown-Keeps : Keeps count_unknown
unfolding count_unknown
count_unknown-Keeps st v = record { exhausted = v.exhausted; orders = v.orders; levels = v.levels }

pub count_duplicate-Keeps : Keeps count_duplicate
unfolding count_duplicate
count_duplicate-Keeps st v = record {
  exhausted = v.exhausted;
  orders = v.orders;
  levels = v.levels;
}

pub count_level_missing-Keeps : Keeps count_level_missing
unfolding count_level_missing
count_level_missing-Keeps st v = record {
  exhausted = v.exhausted;
  orders = v.orders;
  levels = v.levels;
}

pub count_no_level-Keeps : Keeps count_no_level
unfolding count_no_level
count_no_level-Keeps st v = record {
  exhausted = omega (arith, v.exhausted);
  orders = v.orders;
  levels = v.levels;
}

pub raise_orders-Keeps : Keeps raise_orders
unfolding raise_orders
raise_orders-Keeps st v = rebuild st (raise_orders st) v refl refl refl refl (ground arith) v.levels

pub raise_levels-Keeps : Keeps raise_levels
unfolding raise_levels
raise_levels-Keeps st v = rebuild st (raise_levels st) v refl refl refl refl v.orders (ground arith)

pub lower_orders-Keeps : Keeps lower_orders
unfolding lower_orders
lower_orders-Keeps st v = elim (Bool-cases (ltb 0 st.live_orders)) [
  | inl e ↦
      rw e
        (record { exhausted = v.exhausted; orders = ground (arith, v.orders); levels = v.levels })
  | inr e ↦ rw e v
]

pub lower_levels-Keeps : Keeps lower_levels
unfolding lower_levels
lower_levels-Keeps st v = elim (Bool-cases (ltb 0 st.live_levels)) [
  | inl e ↦
      rw e
        (record { exhausted = v.exhausted; orders = v.orders; levels = ground (arith, v.levels) })
  | inr e ↦ rw e v
]

pub count_created-Keeps : (c : AddResult) → Keeps (count_created c)
unfolding count_created
count_created-Keeps no_level st v = v
count_created-Keeps joined st v = v
count_created-Keeps created st v = raise_levels-Keeps st v

pub count_dropped-Keeps : (c : RemoveResult) → Keeps (count_dropped c)
unfolding count_dropped
count_dropped-Keeps not_found st v = v
count_dropped-Keeps removed st v = v
count_dropped-Keeps removed_last st v = lower_levels-Keeps st v

pub count_mismatch-Keeps : (own locate : ℕ) → Keeps (count_mismatch own locate)
unfolding count_mismatch
count_mismatch-Keeps own locate st v = elim (Bool-cases (own == locate)) [
  | inl e ↦ rw e v
  | inr e ↦ rw e (record { exhausted = v.exhausted; orders = v.orders; levels = v.levels })
]

pub count_cleared-Keeps : (orders levels : ℕ) → Keeps (count_cleared orders levels)
unfolding count_cleared lower_by
count_cleared-Keeps orders levels st v = record {
  exhausted = v.exhausted;
  orders = ground (arith, v.orders);
  levels = ground (arith, v.levels);
}
