-- ===== src/Logger/Batches.antt =====
-- The moves of `drain_loop` of include/Logger.hpp, one at a time.
use itchparser.Prelude.{
  [], if◌then◌else◌, ℕ, ◌+◌, ◌*◌, ◌%◌, ◌^◌, ◌<◌, Bool, true, false, ◌≡◌, refl, sym, ap, ◌∙◌, arith,
  ◌==◌, sub64, eq_of_==, ne_of_==, List, ◌++◌, add64,
}
use mathlib.Core.Bool.{true≢false, false≢true}
use itchparser.Logger.System.{
  Consumer, System, seen, reading, writing, storing, polling, looking, done, WriteResult,
  write_batch, failed_in, batch,
}
use native.Mathlib.Nat.{add-zero, add_assoc}
use itchparser.Logger.Slots.{sub64_wrap, add64_wrap}
use itchparser.Logger.Invariant.{
  lines, taken, pending, active, in_final, is_joining, ConsumerOk, Inv, Good,
}
use itchparser.Endian.{Bytes}
use itchparser.Logger.Frames.{
  at_end, active-started, write_batch_all, lines-add, joined_stopped, ProducerOk-more, reads_slot,
  batch_bounds,
}

module _ (capacity : ℕ) {s : System} where
  -- The drain thread moves on within its loops.
  pub turn :
      (c d : Consumer)
      → active c ≡ true
      → active d ≡ true
      → pending c ≡ 0
      → pending d ≡ 0
      → (in_final d ≡ true → is_joining s.producer ≡ true)
      → ConsumerOk d s.sent s.count (taken s) s.tail
      → Inv capacity s.producer c s
      → Good capacity (record s { consumer = d })
  turn c d ac ad pc pd f ok inv = record {
    head_is = inv.head_is;
    tail_is = inv.tail_is;
    order = inv.order;
    room = inv.room;
    stored = inv.stored;
    producer_ok = inv.producer_ok;
    consumer_ok = ok;
    handed_is = inv.handed_is ∙ ap (λ n. lines s.sent s.since (s.drained + n)) (pc ∙ sym pd);
    file_is = inv.file_is;
    fd_is = λ y. inv.fd_is ac;
    settled = f;
    runs = λ y. ad;
    wanted = λ y. inv.wanted ac;
    joins = λ y. active-started d ad;
    emptied = λ y. absurd (true≢false (sym ad ∙ (at_end d y).0));
  }

  drained_all :
      (h : ℕ)
      → s.tail ≡ h
      → Inv capacity s.producer (seen true h) s
      → Good capacity (record s { consumer = done })
  drained_all h e inv = record {
    head_is = inv.head_is;
    tail_is = inv.tail_is;
    order = inv.order;
    room = inv.room;
    stored = inv.stored;
    producer_ok = inv.producer_ok;
    consumer_ok = tt;
    handed_is = inv.handed_is;
    file_is = inv.file_is;
    fd_is = λ y. absurd (false≢true y);
    settled = λ y. absurd (false≢true y);
    runs = λ y. absurd (
        true≢false (
          sym y
          ∙ joined_stopped capacity s.producer s.count (taken s) s.running (inv.settled refl)
              inv.producer_ok));
    wanted = λ y. absurd (false≢true y);
    joins = λ y. refl;
    emptied = λ y j. omega (arith, inv.consumer_ok.2 refl);
  }

  -- Round `i` reads the entry that was published at that position.
  module _ (w : ℕ) (fits : capacity * w ≡ 2 ^ 64) (small : capacity < 2 ^ 64) where
    pub reads :
        (f : Bool) (t n i : ℕ) (out : Bytes)
        → i < n
        → Inv capacity s.producer (reading f t n i out) s
        → s.ring (add64 t i % capacity) ≡ s.sent (taken s + i)
    reads f t n i out le inv =
        let (is_t, a, b, k, g) = inv.consumer_ok in
        ap s.ring (reads_slot capacity w fits t i (taken s) is_t)
        ∙ inv.stored (taken s + i) (omega arith) (omega (arith, k))

    pub looks :
        (f : Bool) → Inv capacity s.producer (looking f) s → taken s + sub64 s.head s.tail ≡ s.count
    looks f inv =
        rw (inv.head_is, inv.tail_is)
          (sub64_wrap s.count (taken s) inv.order (omega (arith, inv.room)))

  -- The loop ends at an empty ring.
  pub ends :
      (f : Bool) (h : ℕ)
      → s.tail == h ≡ true
      → Inv capacity s.producer (seen f h) s
      → Good capacity (record s { consumer = if f then done else polling })
  ends true h e inv = drained_all h (eq_of_== s.tail h e) inv
  ends false h e inv =
      turn (seen false h) polling refl refl refl refl (λ y. absurd (false≢true y)) tt inv

  pub takes :
      {f : Bool} (h : ℕ)
      → s.tail == h ≡ false
      → Inv capacity s.producer (seen f h) s
      → ConsumerOk (reading f s.tail (batch (sub64 h s.tail)) 0 []) s.sent s.count (taken s) s.tail
  takes h e inv =
      let d = sub64 h s.tail in
      let some_ : 0 < d = omega (arith, ne_of_== s.tail h e, inv.tail_is, inv.consumer_ok) in
      let (low, high) = batch_bounds d some_ in
      (inv.tail_is, omega arith, low, omega (arith, inv.consumer_ok), refl)

  pub writes :
      (f : Bool) (t n : ℕ) (out : Bytes) (rs : List WriteResult)
      → (write_batch s.fd_open rs out).1 ≡ true
      → Inv capacity s.producer (writing f t n out) s
      → Good capacity (record s {
        file = s.file ++ (write_batch s.fd_open rs out).0;
        consumer = storing f t n;
        handed = s.handed ++ out;
        failures = s.failures + failed_in rs;
      })
  writes f t n out rs back inv = record {
    head_is = inv.head_is;
    tail_is = inv.tail_is;
    order = inv.order;
    room = inv.room;
    stored = inv.stored;
    producer_ok = inv.producer_ok;
    consumer_ok = (inv.consumer_ok.0, inv.consumer_ok.1, inv.consumer_ok.2);
    handed_is =
        ap (λ h. h ++ out) inv.handed_is
        ∙ ap (λ r. lines s.sent s.since (s.drained + 0) ++ r) inv.consumer_ok.3
        ∙ ap (λ k. lines s.sent s.since k ++ lines s.sent (taken s) n) (add-zero s.drained)
        ∙ sym (lines-add s.sent s.since s.drained n);
    file_is = λ e.
        ap (λ h. h ++ (write_batch s.fd_open rs out).0) (inv.file_is (omega arith))
        ∙ ap (λ r. s.handed ++ r)
            (write_batch_all s.fd_open rs out (inv.fd_is refl) (omega arith) back);
    fd_is = inv.fd_is;
    settled = inv.settled;
    runs = inv.runs;
    wanted = inv.wanted;
    joins = inv.joins;
    emptied = λ y. absurd (false≢true y);
  }

  pub stores :
      (f : Bool) (t n : ℕ) (d : Consumer)
      → active d ≡ true
      → pending d ≡ 0
      → in_final d ≡ f
      → ((tail : ℕ) → ConsumerOk d s.sent s.count (s.since + (s.drained + n)) tail)
      → Inv capacity s.producer (storing f t n) s
      → Good capacity (record s { tail = add64 t n; drained = s.drained + n; consumer = d })
  stores f t n d ad pd fd ok inv = record {
    head_is = inv.head_is;
    tail_is = rw (inv.consumer_ok.0, ← add_assoc s.since s.drained n) (add64_wrap (taken s) n);
    order = omega (arith, inv.consumer_ok.2);
    room = omega (arith, inv.room);
    stored = λ j a b. inv.stored j (omega arith) b;
    producer_ok =
        rw (← add_assoc s.since s.drained n)
          (ProducerOk-more capacity s.producer s.count (taken s) n s.running inv.producer_ok);
    consumer_ok = ok (add64 t n);
    handed_is = inv.handed_is ∙ rw (pd, add-zero (s.drained + n)) refl;
    file_is = inv.file_is;
    fd_is = λ y. inv.fd_is refl;
    settled = λ y. inv.settled (sym fd ∙ y);
    runs = λ y. ad;
    wanted = λ y. inv.wanted refl;
    joins = λ y. active-started d ad;
    emptied = λ y. absurd (true≢false (sym ad ∙ (at_end d y).0));
  }
