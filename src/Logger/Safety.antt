-- ===== src/Logger/Safety.antt =====
-- What every run of the log of include/Logger.hpp keeps: the two threads never touch one slot, and
-- the file gets the entries in their order, each once.
use itchparser.Prelude.{
  ℕ, ◌+◌, ◌*◌, ◌%◌, ◌^◌, ◌≤◌, ◌<◌, Bool, false, ◌≡◌, ◌≢◌, refl, sym, ap, ◌∙◌, subst, arith, leb,
  add64, sub64, ◌==◌, Bool-cases, inl, inr, ◌⊎◌, eq_of_==, ne_of_==,
}
use itchparser.Endian.{Bytes}
use itchparser.Logger.{LogEntry, Call}
use itchparser.Logger.System.{
  called, got_both, reading, System, set_min_level, call, begin, halt, level, logs, drains, Reach,
  fresh, later,
}
use itchparser.Logger.Slots.{slot_ne, slot_wrap}
use itchparser.Logger.Invariant.{
  lines, taken, pending, is_joining, ProducerOk, Inv, Good, make_logger-Good,
}
use itchparser.Logger.Frames.{within, reads_slot}
use itchparser.Logger.Producing.{move, log_step-Good}
use itchparser.Logger.Starting.{start-Good, stop-Good}
use itchparser.Logger.Batches.{reads}
use itchparser.Logger.Draining.{drain_step-Good}

pub written_or_failed :
    {capacity : ℕ} {s : System} → Good capacity s → (0 < s.failures) ⊎ (s.file ≡ s.handed)
written_or_failed {capacity} {s} g = elim (Bool-cases (s.failures == 0)) [
  | inl e ↦ inr (g.file_is (eq_of_== s.failures 0 e))
  | inr e ↦ inl (omega (arith, ne_of_== s.failures 0 e))
]

module _ (capacity w : ℕ) (fits : capacity * w ≡ 2 ^ 64) (small : capacity < 2 ^ 64)
    (slots : ℕ → LogEntry) where
  pub Reach-Good : {s : System} → Reach capacity slots s → Good capacity s
  unfolding set_min_level
  Reach-Good fresh = make_logger-Good capacity slots
  Reach-Good (later {s} r (call c is)) =
      move capacity s.producer (called c) s.dropped s.min_level s (ap is_joining is) refl tt
        (Reach-Good r)
  Reach-Good (later {s} r (begin opened is)) = start-Good capacity opened s is (Reach-Good r)
  Reach-Good (later {s} r (halt is)) = stop-Good capacity s is (Reach-Good r)
  Reach-Good (later {s} r (level l is)) =
      let g = Reach-Good r in
      move capacity s.producer s.producer s.dropped l s (ap is_joining is) (ap is_joining is)
        g.producer_ok g
  Reach-Good (later {s} r (logs now)) =
      log_step-Good capacity w fits small s.producer now s refl (Reach-Good r)
  Reach-Good (later {s} r (drains rs back)) =
      drain_step-Good capacity w fits small s.consumer rs s refl back (Reach-Good r)

  -- For a capacity that divides 2 ^ 64 and is less, in every state that a thread that logs and a
  -- drain thread can reach, whichever moves when, `head_` and `tail_` are the numbers of entries
  -- published and taken out, modulo 2 ^ 64, and at most `capacity` entries stand in the ring.
  ring_bounds :
      (s : System)
      → Reach capacity slots s
      → (s.head ≡ s.count % 2 ^ 64)
        × (s.tail ≡ (s.since + s.drained) % 2 ^ 64)
        × (s.since + s.drained ≤ s.count)
        × (s.count ≤ s.since + s.drained + capacity)
  ring_bounds s r = let g = Reach-Good r in (g.head_is, g.tail_is, g.order, g.room)

  -- For a capacity that divides 2 ^ 64 and is less, in every reachable state the text given to
  -- `write_batch` since the last `start` is the lines of the entries published from there on, in
  -- their order, each once, up to what has been drained; and the file holds that text, or some
  -- write has failed.
  pub text_in_order :
      (s : System)
      → Reach capacity slots s
      → (s.handed ≡ lines s.sent s.since (s.drained + pending s.consumer))
        × (s.since + (s.drained + pending s.consumer) ≤ s.count)
        × ((0 < s.failures) ⊎ (s.file ≡ s.handed))
  text_in_order s r =
      let g = Reach-Good r in
      let published = within s.consumer s.sent s.count (taken s) s.tail g.order g.consumer_ok in
      (g.handed_is, omega arith, written_or_failed g)

  -- For a capacity that divides 2 ^ 64 and is less, when one thread is about to write to a slot,
  -- since the ring was not full, and the other is about to read one for the file, the two slots
  -- are different, and the one that is read holds the entry that was published at that position.
  pub no_race :
      (s : System) (c : Call) (h t u n i : ℕ) (f : Bool) (out : Bytes)
      → Reach capacity slots s
      → s.producer ≡ got_both c h t
      → leb capacity (sub64 h t) ≡ false
      → s.consumer ≡ reading f u n i out
      → i < n
      → (h % capacity ≢ add64 u i % capacity)
        × (s.ring (add64 u i % capacity) ≡ s.sent (s.since + s.drained + i))
  no_race s c h t u n i f out r is_p free is_c le =
      let g = subst (λ k. Inv capacity s.producer k s) is_c (Reach-Good r) in
      let (is_h, room) =
        subst (λ p. ProducerOk capacity p s.count (taken s) s.running) is_p g.producer_ok in
      let (is_u, a, b, k, d) = g.consumer_ok in
      let more = room free in
      let written : h % capacity ≡ s.count % capacity =
        ap (λ j. j % capacity) is_h ∙ slot_wrap capacity w fits s.count in
      let read : add64 u i % capacity ≡ (taken s + i) % capacity =
        reads_slot capacity w fits u i (taken s) is_u in
      let apart = slot_ne (taken s + i) s.count capacity (omega arith) (omega arith) in
      (λ e. apart (sym read ∙ sym e ∙ written), reads capacity w fits small f u n i out le g)
