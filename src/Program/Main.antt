-- ===== src/Program/Main.antt =====
-- `main` of src/main.cpp and `run` of include/ITCHProcessor.hpp: from the arguments to the exit code.
-- The engine never writes to the logger, of which `main` has the descriptor of the log alone; the
-- printed text is left out. The file's bytes are those of its mapping.
use itchparser.Prelude.{
  ℕ, Bool, true, false, Option, none, some, List, [], ◌++◌, ◌⊎◌, inl, inr, codes, if◌then◌else◌,
  ◌≡◌,
}
use itchparser.Pool.{Built, bad_alloc, overrun, built}
use itchparser.Endian.{Bytes}
use itchparser.RunStats.{reset, finish}
use itchparser.Engine.State.{MatchingEngine, make_engine}
use itchparser.Engine.Counters.{IsSound}
use itchparser.Parser.Handlers.{Session}
use itchparser.Parser.Run.{run}
use itchparser.Mapping.{MMapFile, Answers, Event, ErrorCode, open_file, move_from, release}
use itchparser.Mapping.Owners.{after}
use itchparser.Program.{Config, Outcome, help, go, configure}
use itchparser.Program.Process.{
  Clock, Memory, ends_with, exits, aborts, undefined, Ended, stop_with, start_log, stop_log,
  Refused,
}

module _ (little : Bool) where
  -- `reset`, the parser, `finish`.
  unfoldable parse : Clock → Bytes → MatchingEngine → Session
  unfolding reset finish
  parse clock contents e =
      let s = (run little contents (record { engine = e; stats = reset clock.start_time })).1 in
      record s { stats = finish clock.end_time s.stats }

  -- `ITCHProcessor::run` behind the call of `open`: whether it returns true, the engine and the
  -- statistics, and the calls. The log is open while the parser runs; `mmap` and `mapped` are
  -- destroyed at the end.
  unfoldable run_mapped :
      (log_answer : ℕ ⊎ ℕ)
      → Bytes
      → Clock
      → MatchingEngine
      → ErrorCode ⊎ MMapFile
      → List Event
      → Bool × Option Session × List Event
  unfolding parse move_from release start_log stop_log
  run_mapped log_answer contents clock e (inl ec) events = (false, none, events)
  run_mapped log_answer contents clock e (inr m) events =
      let (mmap, rest) = move_from m in
      let (fd, log_events) = start_log log_answer in
      (
        true,
        some (parse clock contents e),
        events ++ ((log_events ++ stop_log fd) ++ ((release mmap).1 ++ (release rest).1)),
      )

  unfoldable run_file :
      (log_answer : ℕ ⊎ ℕ)
      → Answers
      → Bytes
      → Clock
      → MatchingEngine
      → Bool × Option Session × List Event
  unfolding run_mapped open_file
  run_file log_answer a contents clock e =
      let (file, events) = open_file a in run_mapped log_answer contents clock e file events

  -- `main` behind the construction of the engine.
  unfoldable with_engine :
      (log_answer : ℕ ⊎ ℕ) → Answers → Bytes → Clock → Config → Built MatchingEngine → Ended
  unfolding stop_with run_file
  with_engine log_answer a contents clock c bad_alloc = record {
    ending = aborts;
    session = none;
    events = [];
  }
  with_engine log_answer a contents clock c overrun = record {
    ending = undefined;
    session = none;
    events = [];
  }
  with_engine log_answer a contents clock c (built e) = elim (ends_with c.path (codes ".gz")) [
    | true ↦ stop_with 1
    | false ↦
        let (ok, session, events) = run_file log_answer a contents clock e in
        record { ending = exits (if ok then 0 else 1); session = session; events = events }
  ]

  -- `main` from the construction of the engine on.
  unfoldable process : Memory → (log_answer : ℕ ⊎ ℕ) → Answers → Bytes → Clock → Config → Ended
  unfolding with_engine make_engine
  process mem log_answer a contents clock c = with_engine log_answer a contents clock c (
      make_engine mem.allocate c.order_pool_size c.level_pool_size mem.orders mem.levels
        mem.raw_orders mem.raw_levels)

  -- What follows on the arguments.
  unfoldable proceed : Memory → (log_answer : ℕ ⊎ ℕ) → Answers → Bytes → Clock → Outcome → Ended
  unfolding process
  proceed mem log_answer a contents clock (go c) = process mem log_answer a contents clock c
  proceed mem log_answer a contents clock help = stop_with 0
  proceed mem log_answer a contents clock _ = stop_with 1

  unfoldable pub main_ :
      (Bytes → ℕ × ℕ × Bool)
      → Memory
      → (log_answer : ℕ ⊎ ℕ) → Answers
      → Bytes
      → Clock
      → List Bytes
      → Ended
  unfolding proceed
  main_ strtoull mem log_answer a contents clock args =
      proceed mem log_answer a contents clock (configure strtoull args)

-- Nothing is held at the end, and the exit code says whether the file was parsed.
abbrev pub Clean : Ended → (refused : ℕ) → Type 0
Clean r refused =
    (after r.events [] ≡ some [])
    × (((r.session ≡ none) × (r.ending ≡ exits refused))
        ⊎ ((s : Session) × (r.session ≡ some s) × (r.ending ≡ exits 0) × IsSound s.engine.stats))

-- The process was refused the block of a pool and took nothing of the system.
abbrev pub Aborted : (ℕ → Bool) → Outcome → Ended → Type 0
Aborted allocate o r =
    Refused allocate o × (r.ending ≡ aborts) × (r.session ≡ none) × (r.events ≡ [])
