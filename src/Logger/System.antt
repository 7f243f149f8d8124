-- ===== src/Logger/System.antt =====
-- The class `LockFreeLogger` of include/Logger.hpp: the thread that logs and the thread that drains,
-- one access to the shared state at a time. The accesses are taken in one order, as the pairs of
-- `release` and `acquire` on `head_`, `tail_` and `running_` give it.
use itchparser.Prelude.{
  ℕ, suc, ◌+◌, ◌%◌, Bool, true, false, List, [], ◌∷◌, ◌++◌, ◌≡◌, take, drop, update, leb, ltb, ◌==◌,
  if◌then◌else◌, inc64, add64, sub64,
}
use itchparser.Endian.{Bytes}
use itchparser.Logger.{LogEntry, underlying, info, Call, fill_entry, append_entry}

-- What `::write` answers: how many bytes it took, `EINTR`, or another error.
pub data WriteResult : Type 0 where
  wrote : ℕ → WriteResult
  interrupted failed : WriteResult

-- The loop of `write_batch` over what is left, with the answers of the calls: the bytes that went to
-- the file, and whether the loop ended.
unfoldable pub write_from : List WriteResult → Bytes → Bytes × Bool
write_from rs [] = ([], true)
write_from [] (x ∷ s) = ([], false)
write_from (wrote n ∷ rs) (x ∷ s) =
    let rest = write_from rs (drop n (x ∷ s)) in (take n (x ∷ s) ++ rest.0, rest.1)
write_from (interrupted ∷ rs) (x ∷ s) = write_from rs (x ∷ s)
write_from (failed ∷ rs) (x ∷ s) = ([], true)

unfoldable pub write_batch : (fd_open : Bool) → List WriteResult → Bytes → Bytes × Bool
unfolding write_from
write_batch false rs data_ = ([], true)
write_batch true rs data_ = write_from rs data_

-- Where the thread that logs stands, with its local variables.
pub data Producer : Type 0 where
  idle : Producer
  called : Call → Producer  -- before the load of `min_level_`
  passed : Call → Producer  -- before the load of `head_`
  got_head : Call → (h : ℕ) → Producer  -- before the load of `tail_`
  got_both : Call → (h t : ℕ) → Producer  -- before the test and the writes to the slot
  filled : (h : ℕ) → Producer  -- before the store to `head_`
  joining : Producer  -- in `join` of `stop`

-- Where `drain_loop` stands. `final` says that it is in the second loop.
pub data Consumer : Type 0 where
  absent : Consumer  -- no thread yet
  polling : Consumer  -- before the load of `running_`
  looking : (final : Bool) → Consumer  -- before the load of `head_`
  seen : (final : Bool) → (h : ℕ) → Consumer  -- before the load of `tail_` and the tests
  reading : (final : Bool) → (t n i : ℕ) → (out : Bytes) → Consumer  -- before round `i` of `n`
  writing : (final : Bool) → (t n : ℕ) → (out : Bytes) → Consumer  -- before `write_batch`
  storing : (final : Bool) → (t n : ℕ) → Consumer  -- before the store to `tail_`
  done : Consumer  -- the thread has ended

-- The last six fields are the history: the entries published, in their order and how many; how many
-- of them were taken out before the last `start` and how many since; and since then the text handed to
-- `write_batch` and how many writes failed.
pub record System : Type 0 where
  pub ring : ℕ → LogEntry
  pub head : ℕ
  pub tail : ℕ
  pub dropped : ℕ
  pub min_level : ℕ
  pub running : Bool
  pub fd_open : Bool
  pub file : Bytes
  pub producer : Producer
  pub consumer : Consumer
  pub sent : ℕ → LogEntry
  pub count : ℕ
  pub since : ℕ
  pub drained : ℕ
  pub handed : Bytes
  pub failures : ℕ

-- The constructor, with what the ring and the file hold.
unfoldable pub make_logger : (ℕ → LogEntry) → System
make_logger slots = record {
  ring = slots;
  head = 0;
  tail = 0;
  dropped = 0;
  min_level = underlying info;
  running = false;
  fd_open = false;
  file = [];
  producer = idle;
  consumer = absent;
  sent = slots;
  count = 0;
  since = 0;
  drained = 0;
  handed = [];
  failures = 0;
}

-- `start`, with whether `::open` gave a file. The thread begins at its first load.
unfoldable pub start : (opened : Bool) → System → System
start opened s =
    if s.running
    then s
    else (if opened
        then record s {
          running = true;
          fd_open = true;
          file = [];
          consumer = polling;
          since = s.since + s.drained;
          drained = 0;
          handed = [];
          failures = 0;
        }
        else record s { fd_open = false })

-- `stop` up to the `join`. Of a logger that is not running it is nothing.
unfoldable pub stop : System → System
stop s = if s.running then record s { running = false; producer = joining } else s

unfoldable pub set_min_level : ℕ → System → System
set_min_level l s = record s { min_level = l }

abbrev pub ended : Consumer → Bool
ended done = true
ended _ = false

-- The failed writes among the answers.
abbrev pub failed_in : List WriteResult → ℕ
failed_in [] = 0
failed_in (wrote n ∷ rs) = failed_in rs
failed_in (interrupted ∷ rs) = failed_in rs
failed_in (failed ∷ rs) = suc (failed_in rs)

-- The batch that `drain_loop` takes.
abbrev pub batch : ℕ → ℕ
batch n = if ltb n 64 then n else 64

module _ (capacity : ℕ) where
  -- One access of `log`, and of `stop` from the `join` on; `now` is the clock. `& mask_` is
  -- `% capacity`, since the constructor wants a power of two.
  unfoldable pub log_step : Producer → (now : ℕ) → System → System
  log_step idle now s = s
  log_step (called c) now s =
      if ltb (underlying c.level) s.min_level
      then record s { producer = idle }
      else record s { producer = passed c }
  log_step (passed c) now s = record s { producer = got_head c s.head }
  log_step (got_head c h) now s = record s { producer = got_both c h s.tail }
  log_step (got_both c h t) now s =
      if leb capacity (sub64 h t)
      then record s { dropped = inc64 s.dropped; producer = idle }
      else record s {
        ring = update s.ring (h % capacity) (fill_entry now c (s.ring (h % capacity)));
        producer = filled h;
      }
  log_step (filled h) now s = record s {
    head = inc64 h;
    producer = idle;
    sent = update s.sent s.count (s.ring (h % capacity));
    count = suc s.count;
  }
  log_step joining now s =
      if ended s.consumer then record s { fd_open = false; producer = idle } else s

  -- One access of `drain_loop`, with the answers of the system to the writes.
  unfoldable pub drain_step : Consumer → List WriteResult → System → System
  unfolding write_batch append_entry
  drain_step absent rs s = s
  drain_step polling rs s =
      if s.running
      then record s { consumer = looking false }
      else record s { consumer = looking true }
  drain_step (looking final) rs s = record s { consumer = seen final s.head }
  drain_step (seen final h) rs s =
      if s.tail == h
      then record s { consumer = if final then done else polling }
      else record s { consumer = reading final s.tail (batch (sub64 h s.tail)) 0 [] }
  drain_step (reading final t n i out) rs s =
      if ltb i n
      then record s {
        consumer = reading final t n (suc i) (out ++ append_entry (s.ring (add64 t i % capacity)));
      }
      else record s { consumer = writing final t n out }
  drain_step (writing final t n out) rs s = record s {
    file = s.file ++ (write_batch s.fd_open rs out).0;
    consumer = storing final t n;
    handed = s.handed ++ out;
    failures = s.failures + failed_in rs;
  }
  drain_step (storing final t n) rs s = record s {
    tail = add64 t n;
    drained = s.drained + n;
    consumer = if final then looking true else polling;
  }
  drain_step done rs s = s

  -- `write_batch` has ended with these answers.
  abbrev pub Returned : Consumer → List WriteResult → System → Type 0
  Returned (writing final t n out) rs s = (write_batch s.fd_open rs out).1 ≡ true
  Returned _ rs s = Unit {0}

  -- The thread that logs also starts and stops the logger, as `main` does; either thread may move
  -- next.
  pub data Step (s : System) : System → Type 0 where
    call : (c : Call) → s.producer ≡ idle → Step s (record s { producer = called c })
    begin : (opened : Bool) → s.producer ≡ idle → Step s (start opened s)
    halt : s.producer ≡ idle → Step s (stop s)
    level : (l : ℕ) → s.producer ≡ idle → Step s (set_min_level l s)
    logs : (now : ℕ) → Step s (log_step s.producer now s)
    drains :
        (rs : List WriteResult) → Returned s.consumer rs s → Step s (drain_step s.consumer rs s)

  pub data Reach (slots : ℕ → LogEntry) : System → Type 0 where
    fresh : Reach slots (make_logger slots)
    later : {s t : System} → Reach slots s → Step s t → Reach slots t
