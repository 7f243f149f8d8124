-- ===== src/Tests/Logging.antt =====
-- Runs of the log with a ring of two slots.
use itchparser.Prelude.{
  subst, sym, ℕ, zero, suc, ◌%◌, ◌^◌, ◌<◌, ◌≤◌, ◌≡◌, ◌≢◌, ◌⊎◌, refl, Bool, true, false, List, [],
  ◌∷◌, arith, codes, length, drop,
}
use itchparser.Endian.{Bytes}
use itchparser.Logger.{LogEntry, Call, info, underlying, append_entry, fill_entry}
use itchparser.Logger.System.{
  WriteResult, wrote, write_from, write_batch, Consumer, writing, System, make_logger, start, stop,
  log_step, drain_step, called, Returned, reading, absent, polling, looking, seen, storing, done,
  Reach, fresh, later, begin, call, halt, logs, drains,
}
use itchparser.Logger.Text.{wanted, append_entry-fill_entry}
use itchparser.Logger.Invariant.{lines}
use itchparser.Logger.Safety.{text_in_order, no_race}
use itchparser.Logger.Stopping.{drain_run, Emptied, stop_ends}

abbrev blank : LogEntry
blank = record { timestamp_ns = 0; level = info; tag = []; message = [] }

abbrev slots : ℕ → LogEntry
slots _ = blank

abbrev hello : Call
hello = record { level = info; tag = codes "main"; msg = codes "hello" }

-- Each write takes all of its bytes.
abbrev answer : Consumer → List WriteResult
answer (writing f t n out) = wrote (length out) ∷ []
answer _ = []

abbrev answers : System → List WriteResult
answers s = answer s.consumer

drop-length : (s : Bytes) → drop (length s) s ≡ []
drop-length [] = refl
drop-length (x ∷ s) = drop-length s

written : (open_ : Bool) (out : Bytes) → (write_batch open_ (wrote (length out) ∷ []) out).1 ≡ true
unfolding write_batch write_from
written false out = refl
written true [] = refl
written true (x ∷ out) = subst (λ d. (write_from [] d).1 ≡ true) (sym (drop-length out)) refl

returns_at : (c : Consumer) (s : System) → Returned 2 c (answer c) s
returns_at (writing f t n out) s = written s.fd_open out
returns_at absent s = tt
returns_at polling s = tt
returns_at (looking f) s = tt
returns_at (seen f h) s = tt
returns_at (reading f t n i out) s = tt
returns_at (storing f t n) s = tt
returns_at done s = tt

returns : (s : System) → Returned 2 s.consumer (answers s) s
returns s = returns_at s.consumer s

-- Moves of one thread, `n` at a time.
abbrev log_moves : ℕ → System → System
log_moves zero s = s
log_moves (suc n) s = log_moves n (log_step 2 s.producer 5 s)

abbrev drain_moves : ℕ → System → System
drain_moves zero s = s
drain_moves (suc n) s = drain_moves n (drain_step 2 s.consumer (answers s) s)

log_moves-Reach : (n : ℕ) (s : System) → Reach 2 slots s → Reach 2 slots (log_moves n s)
log_moves-Reach zero s r = r
log_moves-Reach (suc n) s r = log_moves-Reach n (log_step 2 s.producer 5 s) (later r (logs 5))

drain_moves-Reach : (n : ℕ) (s : System) → Reach 2 slots s → Reach 2 slots (drain_moves n s)
drain_moves-Reach zero s r = r
drain_moves-Reach (suc n) s r =
    drain_moves-Reach n (drain_step 2 s.consumer (answers s) s)
      (later r (drains (answers s) (returns s)))

abbrev calling : System → System
calling s = record s { producer = called hello }

-- Started, with one entry published.
abbrev one_entry : System
one_entry = log_moves 5 (calling (start true (make_logger slots)))

one_entry-Reach : Reach 2 slots one_entry
unfolding start make_logger
one_entry-Reach =
    log_moves-Reach 5 (calling (start true (make_logger slots)))
      (later (later fresh (begin true refl)) (call hello refl))

-- The entry is being written to the file, and a second one to the ring.
abbrev both_busy : System
both_busy = log_moves 3 (calling (drain_moves 3 one_entry))

both_busy-Reach : Reach 2 slots both_busy
unfolding start make_logger log_step drain_step underlying
both_busy-Reach =
    log_moves-Reach 3 (calling (drain_moves 3 one_entry))
      (later (drain_moves-Reach 3 one_entry one_entry-Reach) (call hello refl))

-- Both entries are published, and `stop` waits.
abbrev stopping : System
stopping = stop (log_moves 2 both_busy)

stopping-Reach : Reach 2 slots stopping
unfolding start make_logger log_step drain_step underlying
stopping-Reach = later (log_moves-Reach 2 both_busy both_busy-Reach) (halt refl)

text_in_order_example :
    ((drain_moves 3 stopping).handed ≡ lines (drain_moves 3 stopping).sent 0 1)
    × (1 ≤ 2)
    × ((0 < (drain_moves 3 stopping).failures)
        ⊎ ((drain_moves 3 stopping).file ≡ (drain_moves 3 stopping).handed))
unfolding start make_logger log_step drain_step underlying stop write_batch write_from
text_in_order_example =
    text_in_order 2 (2 ^ 63) refl (omega arith) slots (drain_moves 3 stopping)
      (drain_moves-Reach 3 stopping stopping-Reach)

no_race_example : (1 % 2 ≢ 0 % 2) × (both_busy.ring 0 ≡ both_busy.sent 0)
unfolding start make_logger log_step drain_step underlying
no_race_example =
    no_race 2 (2 ^ 63) refl (omega arith) slots both_busy hello 1 0 0 1 0 false [] both_busy-Reach
      refl refl refl (omega arith)

stop_ends_example : (k : ℕ) × Emptied 2 slots stopping (drain_run 2 answers k stopping)
unfolding start make_logger log_step drain_step underlying stop
stop_ends_example =
    stop_ends 2 (2 ^ 63) refl (omega arith) slots answers returns stopping stopping-Reach refl

ne : (n : ℕ) → suc n ≢ 0
ne n e = omega arith

append_entry-fill_entry_example : append_entry (fill_entry 5 hello blank) ≡ wanted 5 hello
append_entry-fill_entry_example =
    append_entry-fill_entry 5 hello blank (ne 108, (ne 96, (ne 104, (ne 109, tt))))
      (ne 103, (ne 100, (ne 107, (ne 107, (ne 110, tt)))))
