-- ===== src/Logger/Invariant.antt =====
-- What holds of the log of include/Logger.hpp whenever either thread is about to move.
use itchparser.Prelude.{
  ℕ, zero, suc, ◌+◌, ◌%◌, ◌^◌, ◌≤◌, ◌<◌, Bool, true, false, ◌||◌, [], ◌++◌, ◌≡◌, leb, sub64, refl,
  arith,
}
use itchparser.Endian.{Bytes}
use itchparser.Logger.{LogEntry, append_entry}
use itchparser.Logger.System.{
  Producer, got_head, got_both, filled, joining, Consumer, absent, looking, seen, reading, writing,
  storing, done, System, ended, make_logger,
}

-- The text of the entries `f a` to `f (a + n - 1)`.
abbrev pub lines : (ℕ → LogEntry) → ℕ → ℕ → Bytes
lines f a zero = []
lines f a (suc n) = lines f a n ++ append_entry (f (a + n))

-- How many entries were taken out.
abbrev pub taken : System → ℕ
taken s = s.since + s.drained

-- Entries that were written to the file but not yet given back to the ring.
abbrev pub pending : Consumer → ℕ
pending (storing _ _ n) = n
pending _ = 0

abbrev pub is_joining : Producer → Bool
is_joining joining = true
is_joining _ = false

-- A drain thread is running.
abbrev pub active : Consumer → Bool
active absent = false
active done = false
active _ = true

abbrev pub started : Consumer → Bool
started absent = false
started _ = true

-- The drain thread has left the first loop.
abbrev pub in_final : Consumer → Bool
in_final (looking f) = f
in_final (seen f _) = f
in_final (reading f _ _ _ _) = f
in_final (writing f _ _ _) = f
in_final (storing f _ _) = f
in_final _ = false

-- What the locals of `drain_loop` say about it, with the entries taken out so far.
abbrev pub ConsumerOk : Consumer → (ℕ → LogEntry) → (count out tail : ℕ) → Type 0
ConsumerOk (seen f h) sent count o tail =
    (h < 2 ^ 64) × (o + sub64 h tail ≤ count) × (f ≡ true → o + sub64 h tail ≡ count)
ConsumerOk (reading f t n i text) sent count o tail =
    (t ≡ o % 2 ^ 64) × (i ≤ n) × (0 < n) × (o + n ≤ count) × (text ≡ lines sent o i)
ConsumerOk (writing f t n text) sent count o tail =
    (t ≡ o % 2 ^ 64) × (0 < n) × (o + n ≤ count) × (text ≡ lines sent o n)
ConsumerOk (storing f t n) sent count o tail = (t ≡ o % 2 ^ 64) × (0 < n) × (o + n ≤ count)
ConsumerOk _ sent count o tail = Unit {0}

module _ (capacity : ℕ) where
  -- What the locals of the thread that logs say about the ring.
  abbrev pub ProducerOk : Producer → (count out : ℕ) → (running : Bool) → Type 0
  ProducerOk (got_head c h) count out running = h ≡ count % 2 ^ 64
  ProducerOk (got_both c h t) count out running =
      (h ≡ count % 2 ^ 64) × (leb capacity (sub64 h t) ≡ false → count < out + capacity)
  ProducerOk (filled h) count out running = (h ≡ count % 2 ^ 64) × (count < out + capacity)
  ProducerOk joining count out running = running ≡ false
  ProducerOk _ count out running = Unit {0}

  pub record Inv (p : Producer) (c : Consumer) (s : System) : Type 0 where
    pub head_is : s.head ≡ s.count % 2 ^ 64
    pub tail_is : s.tail ≡ taken s % 2 ^ 64
    pub order : taken s ≤ s.count
    pub room : s.count ≤ taken s + capacity
    pub stored : (j : ℕ) → taken s ≤ j → j < s.count → s.ring (j % capacity) ≡ s.sent j
    pub producer_ok : ProducerOk p s.count (taken s) s.running
    pub consumer_ok : ConsumerOk c s.sent s.count (taken s) s.tail
    pub handed_is : s.handed ≡ lines s.sent s.since (s.drained + pending c)
    pub file_is : s.failures ≡ 0 → s.file ≡ s.handed
    pub fd_is : active c ≡ true → s.fd_open ≡ true
    pub settled : in_final c ≡ true → is_joining p ≡ true
    pub runs : s.running ≡ true → active c ≡ true
    pub wanted : active c ≡ true → (s.running || is_joining p) ≡ true
    pub joins : is_joining p ≡ true → started c ≡ true
    pub emptied : ended c ≡ true → is_joining p ≡ true → taken s ≡ s.count

  abbrev pub Good : System → Type 0
  Good s = Inv s.producer s.consumer s

  pub make_logger-Good : (slots : ℕ → LogEntry) → Good (make_logger slots)
  unfolding make_logger
  make_logger-Good slots = record {
    head_is = refl;
    tail_is = refl;
    order = omega arith;
    room = omega arith;
    stored = λ j a b. absurd (omega arith);
    producer_ok = tt;
    consumer_ok = tt;
    handed_is = refl;
    file_is = λ e. refl;
    fd_is = λ e. e;
    settled = λ e. e;
    runs = λ e. e;
    wanted = λ e. e;
    joins = λ e. e;
    emptied = λ e j. refl;
  }
