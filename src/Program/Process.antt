-- ===== src/Program/Process.antt =====
-- What `main` of src/main.cpp is given beside its arguments, the descriptor of the log that
-- include/Logger.hpp opens and closes, and how the process ends.
use itchparser.Prelude.{
  ℕ, ◌-◌, ◌*◌, ◌^◌, ◌<◌, ◌∷◌, arith, Bool, true, false, Option, none, some, List, [], ◌++◌, ◌⊎◌,
  inl, inr, length, drop, ltb, if◌then◌else◌, ◌≡◌, refl,
}
use itchparser.Types.{Ptr, order_bytes, level_bytes}
use itchparser.Pool.{bad_alloc, built}
use itchparser.Pool.Building.{make_pool-Owns}
use itchparser.Endian.{Bytes}
use itchparser.Level.{Orders}
use itchparser.Book.State.{Levels}
use itchparser.Engine.State.{MatchingEngine, engine_with, make_engine}
use itchparser.Engine.Counters.{IsSound, make_stats-IsSound}
use itchparser.Parser.Handlers.{Session}
use itchparser.Mapping.{Event, opened, closed}
use itchparser.Mapping.Owners.{Resource, after}
use itchparser.Program.{Config, Outcome, help, go, same}

-- The two readings of the clock by `reset` and `finish`.
pub record Clock : Type 0 where
  pub start_time : ℕ
  pub end_time : ℕ

-- The blocks that `operator new[]` gives the pools, by their size in bytes, and what they hold. Every
-- other allocation, and the start of the thread of the log, is taken to succeed.
pub record Memory : Type 0 where
  pub allocate : ℕ → Bool
  pub orders : Orders
  pub levels : Levels
  pub raw_orders : ℕ → Ptr
  pub raw_levels : ℕ → Ptr

abbrev pub ends_with : Bytes → Bytes → Bool
ends_with s t = if ltb (length s) (length t) then false else same (drop (length s - length t) s) t

-- How the process ends: with an exit code, by an exception that nothing catches, or undefined.
pub data Ending : Type 0 where
  exits : (code : ℕ) → Ending
  aborts undefined : Ending

-- The end, the engine and the statistics after a run, if there was one, and the calls of the system.
pub record Ended : Type 0 where
  pub ending : Ending
  pub session : Option Session
  pub events : List Event

unfoldable pub stop_with : ℕ → Ended
stop_with code = record { ending = exits code; session = none; events = [] }

-- `start` of the logger, for the answer to its `open`: `fd_` where the thread runs, and the calls.
unfoldable pub start_log : ℕ ⊎ ℕ → Option ℕ × List Event
start_log (inl e) = (none, [])
start_log (inr fd) = (some fd, opened fd ∷ [])

-- The close in `stop` of the logger, which returns at once where no thread runs.
unfoldable pub stop_log : Option ℕ → List Event
stop_log none = []
stop_log (some fd) = closed fd ∷ []

pub start-stop :
    (answer : ℕ ⊎ ℕ) (r : List Resource)
    → after ((start_log answer).1 ++ stop_log (start_log answer).0) r ≡ some r
unfolding start_log stop_log
start-stop (inl e) r = refl
start-stop (inr fd) r = ground arith

-- The exit code of a run that parses no file.
abbrev pub refused_code : Outcome → ℕ
refused_code help = 0
refused_code _ = 1

-- The sizes of the pools in bytes fit a `std::size_t`.
abbrev pub Fits : Outcome → Type 0
Fits (go c) =
    (c.order_pool_size * order_bytes < 2 ^ 64) × (c.level_pool_size * level_bytes < 2 ^ 64)
Fits _ = Unit {0}

-- `operator new[]` refuses the block of one of the pools.
abbrev pub Refused : (ℕ → Bool) → Outcome → Type 0
Refused allocate (go c) =
    (allocate (c.order_pool_size * order_bytes) ≡ false)
    ⊎ (allocate (c.level_pool_size * level_bytes) ≡ false)
Refused allocate _ = true ≡ false

-- An engine, or the block that was refused.
pub make_engine-Sound :
    (mem : Memory) (c : Config)
    → Fits (go c)
    → let made =
        make_engine mem.allocate c.order_pool_size c.level_pool_size mem.orders mem.levels
          mem.raw_orders mem.raw_levels in
      ((made ≡ bad_alloc) × Refused mem.allocate (go c))
      ⊎ ((e : MatchingEngine) × (made ≡ built e) × IsSound e.stats)
unfolding make_engine engine_with
make_engine-Sound mem c fits =
    elim (make_pool-Owns mem.allocate order_bytes c.order_pool_size mem.raw_orders fits.0) [
      | inl (h, made) ↦ rw (make_engine, made) (inl (refl, inl h))
      | inr (h, order_pool, made, same, owns) ↦
          elim (make_pool-Owns mem.allocate level_bytes c.level_pool_size mem.raw_levels fits.1) [
            | inl (g, made') ↦ rw (make_engine, made, made') (inl (refl, inr g))
            | inr (g, level_pool, made', same', owns') ↦
                rw (make_engine, made, made')
                  (inr (
                    engine_with order_pool level_pool mem.orders mem.levels,
                    refl,
                    make_stats-IsSound,
                  ))
          ]
    ]
