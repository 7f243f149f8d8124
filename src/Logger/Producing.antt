-- ===== src/Logger/Producing.antt =====
-- The moves of `log` in include/Logger.hpp keep the invariant.
use itchparser.Prelude.{
  ℕ, suc, ◌+◌, ◌*◌, ◌%◌, ◌^◌, ◌≤◌, ◌<◌, ◌||◌, true, false, ◌≡◌, ◌≢◌, refl, sym, ap, ◌∙◌, subst,
  arith, update, leb, ltb, ◌==◌, inc64, sub64, Bool-cases, inl, inr, ==_ne, eq_of_==, ne_of_==,
}
use mathlib.Core.Bool.{true≢false, false≢true}
use itchparser.Logger.{LogEntry, Call, fill_entry, underlying}
use itchparser.Logger.System.{
  Producer, idle, called, passed, got_head, got_both, filled, joining, System, ended, log_step,
}
use itchparser.Logger.Slots.{slot_ne, slot_wrap, sub64_wrap}
use itchparser.Logger.Invariant.{taken, pending, in_final, is_joining, ProducerOk, Inv, Good}
use itchparser.Logger.Frames.{
  lines-update, publish-ConsumerOk, within, lt_of_ne, at_end, not_true, more,
}

module _ (capacity : ℕ) where
  publish-stored :
      (ring sent : ℕ → LogEntry) (j m slot : ℕ)
      → slot ≡ m % capacity
      → (j < m → ring (j % capacity) ≡ sent j)
      → j < suc m
      → ring (j % capacity) ≡ update sent m (ring slot) j
  publish-stored ring sent j m slot is old le = elim (Bool-cases (j == m)) [
    | inl e ↦ let here = eq_of_== j m e in rw e (ap ring (ap (λ k. k % capacity) here ∙ sym is))
    | inr e ↦ rw e (old (lt_of_ne j m le (ne_of_== j m e)))
  ]

  -- The thread that logs moves on, outside `join`.
  pub move :
      (p q : Producer) (d l : ℕ) (s : System)
      → is_joining p ≡ false
      → is_joining q ≡ false
      → ProducerOk capacity q s.count (taken s) s.running
      → Inv capacity p s.consumer s
      → Inv capacity q s.consumer (record s { producer = q; dropped = d; min_level = l })
  move p q d l s jp jq ok inv = record {
    head_is = inv.head_is;
    tail_is = inv.tail_is;
    order = inv.order;
    room = inv.room;
    stored = inv.stored;
    producer_ok = ok;
    consumer_ok = inv.consumer_ok;
    handed_is = inv.handed_is;
    file_is = inv.file_is;
    fd_is = inv.fd_is;
    settled = λ e. let f = inv.settled e in cc;
    runs = inv.runs;
    wanted = λ e. ap (λ b. s.running || b) (jq ∙ sym jp) ∙ inv.wanted e;
    joins = λ e. absurd (true≢false (sym e ∙ jq));
    emptied = λ e j. absurd (true≢false (sym j ∙ jq));
  }

  module _ (w : ℕ) (fits : capacity * w ≡ 2 ^ 64) (small : capacity < 2 ^ 64) where
    -- `log` writes to a slot that holds no entry of the ring.
    fills :
        (c : Call) (h t : ℕ) (x : LogEntry) (s : System)
        → leb capacity (sub64 h t) ≡ false
        → Inv capacity (got_both c h t) s.consumer s
        → Inv capacity
            (filled h)
            s.consumer
            (record s { ring = update s.ring (h % capacity) x; producer = filled h })
    fills c h t x s e inv =
        let (is_h, free) = inv.producer_ok in
        let more = free e in
        record {
          head_is = inv.head_is;
          tail_is = inv.tail_is;
          order = inv.order;
          room = inv.room;
          stored = λ j a b.
              let slot : h % capacity ≡ s.count % capacity =
                ap (λ k. k % capacity) is_h ∙ slot_wrap capacity w fits s.count in
              let other = slot_ne j s.count capacity b (omega arith) in
              let apart : j % capacity ≢ h % capacity = λ g. other (g ∙ slot) in
              rw (==_ne (j % capacity) (h % capacity) apart) (inv.stored j a b);
          producer_ok = (is_h, more);
          consumer_ok = inv.consumer_ok;
          handed_is = inv.handed_is;
          file_is = inv.file_is;
          fd_is = inv.fd_is;
          settled = inv.settled;
          runs = inv.runs;
          wanted = inv.wanted;
          joins = inv.joins;
          emptied = inv.emptied;
        }

    publishes :
        (h : ℕ) (s : System)
        → Inv capacity (filled h) s.consumer s
        → Inv capacity idle s.consumer (record s {
          head = inc64 h;
          producer = idle;
          sent = update s.sent s.count (s.ring (h % capacity));
          count = suc s.count;
        })
    publishes h s inv =
        let (is_h, more) = inv.producer_ok in
        let e = s.ring (h % capacity) in
        let slot : h % capacity ≡ s.count % capacity =
          ap (λ k. k % capacity) is_h ∙ slot_wrap capacity w fits s.count in
        let within_since : s.since + (s.drained + pending s.consumer) ≤ s.count =
          omega
            (arith, within s.consumer s.sent s.count (taken s) s.tail inv.order inv.consumer_ok) in
        let early : in_final s.consumer ≡ false =
          not_true (in_final s.consumer) (λ y. false≢true (inv.settled y)) in
        record {
          head_is = omega arith;
          tail_is = inv.tail_is;
          order = omega (arith, inv.order);
          room = omega arith;
          stored = λ j a b.
              publish-stored (s.ring) (s.sent) j s.count (h % capacity) slot (inv.stored j a) b;
          producer_ok = tt;
          consumer_ok =
              publish-ConsumerOk s.consumer s.sent e s.count (taken s) s.tail early inv.consumer_ok;
          handed_is =
              inv.handed_is
              ∙ sym (
                  lines-update s.sent e s.count s.since (s.drained + pending s.consumer)
                    (within_since));
          file_is = inv.file_is;
          fd_is = inv.fd_is;
          settled = inv.settled;
          runs = inv.runs;
          wanted = inv.wanted;
          joins = inv.joins;
          emptied = λ y j. absurd (false≢true j);
        }

    -- `stop` ends when the drain thread has.
    joined :
        (s : System)
        → ended s.consumer ≡ true
        → Inv capacity joining s.consumer s
        → Inv capacity idle s.consumer (record s { fd_open = false; producer = idle })
    joined s e inv =
        let (rest, last) = at_end s.consumer e in
        record {
          head_is = inv.head_is;
          tail_is = inv.tail_is;
          order = inv.order;
          room = inv.room;
          stored = inv.stored;
          producer_ok = tt;
          consumer_ok = inv.consumer_ok;
          handed_is = inv.handed_is;
          file_is = inv.file_is;
          fd_is = λ y. absurd (true≢false (sym y ∙ rest));
          settled = λ y. absurd (true≢false (sym y ∙ last));
          runs = λ y. absurd (true≢false (sym y ∙ inv.producer_ok));
          wanted = λ y. absurd (true≢false (sym y ∙ rest));
          joins = λ y. absurd (false≢true y);
          emptied = λ y j. absurd (false≢true j);
        }

    -- A full ring is seen as full, or there is room.
    has_room :
        (h t count o : ℕ)
        → h ≡ count % 2 ^ 64
        → t ≡ o % 2 ^ 64
        → o ≤ count
        → count ≤ o + capacity
        → leb capacity (sub64 h t) ≡ false
        → count < o + capacity
    has_room h t count o is_h is_t order room e =
        let d : o + sub64 h t ≡ count = rw (is_h, is_t) (sub64_wrap count o order (omega arith)) in
        ground arith

    pub log_step-Good :
        (p : Producer) (now : ℕ) (s : System)
        → s.producer ≡ p
        → Good capacity s
        → Good capacity (log_step capacity p now s)
    unfolding log_step
    log_step-Good idle now s is g = g
    log_step-Good (called c) now s is g =
        let inv = subst (λ p. Inv capacity p s.consumer s) is g in
        elim (Bool-cases (ltb (underlying c.level) s.min_level)) [
          | inl e ↦ rw (log_step, e) (move (called c) idle s.dropped s.min_level s refl refl tt inv)
          | inr e ↦
              rw (log_step, e) (move (called c) (passed c) s.dropped s.min_level s refl refl tt inv)
        ]
    log_step-Good (passed c) now s is g =
        let inv = subst (λ p. Inv capacity p s.consumer s) is g in
        move (passed c) (got_head c s.head) s.dropped s.min_level s refl refl inv.head_is inv
    log_step-Good (got_head c h) now s is g =
        let inv = subst (λ p. Inv capacity p s.consumer s) is g in
        let free = λ (e : leb capacity (sub64 h s.tail) ≡ false).
          has_room h s.tail s.count (taken s) inv.producer_ok inv.tail_is inv.order inv.room e in
        move (got_head c h) (got_both c h s.tail) s.dropped s.min_level s refl refl
          (inv.producer_ok, free) inv
    log_step-Good (got_both c h t) now s is g =
        let inv = subst (λ p. Inv capacity p s.consumer s) is g in
        elim (Bool-cases (leb capacity (sub64 h t))) [
          | inl e ↦
              rw (log_step, e)
                (move (got_both c h t) idle (inc64 s.dropped) s.min_level s refl refl tt inv)
          | inr e ↦
              rw (log_step, e) (fills c h t (fill_entry now c (s.ring (h % capacity))) s e inv)
        ]
    log_step-Good (filled h) now s is g =
        publishes h s (subst (λ p. Inv capacity p s.consumer s) is g)
    log_step-Good joining now s is g =
        let inv = subst (λ p. Inv capacity p s.consumer s) is g in
        elim (Bool-cases (ended s.consumer)) [
          | inl e ↦ rw (log_step, e) (joined s e inv)
          | inr e ↦ rw (log_step, e) g
        ]
