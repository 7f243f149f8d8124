-- ===== src/Logger/Starting.antt =====
-- `start` and `stop` of include/Logger.hpp keep the invariant.
use itchparser.Prelude.{
  [], if◌then◌else◌, if_elim, ℕ, ◌+◌, ◌%◌, ◌^◌, Bool, ◌||◌, true, false, ◌≡◌, refl, sym, ap, ◌∙◌,
  subst, arith,
}
use mathlib.Core.Bool.{true≢false, false≢true}
use itchparser.Logger.System.{idle, joining, System, start, stop, polling}
use native.Mathlib.Nat.{add-zero}
use itchparser.Logger.Invariant.{taken, active, Inv, Good}
use itchparser.Logger.Frames.{at_end, active-started, not_true}

module _ (capacity : ℕ) where
  -- A logger with an idle thread and no flag set has no drain thread.
  rests :
      (s : System) → s.running ≡ false → Inv capacity idle s.consumer s → active s.consumer ≡ false
  rests s e inv =
      not_true (active s.consumer) (λ a. false≢true (sym (ap (λ b. b || false) e) ∙ inv.wanted a))

  opens :
      (s : System)
      → s.running ≡ false
      → Inv capacity idle s.consumer s
      → Inv capacity idle polling (record s {
        running = true;
        fd_open = true;
        file = [];
        consumer = polling;
        since = s.since + s.drained;
        drained = 0;
        handed = [];
        failures = 0;
      })
  opens s e inv = record {
    head_is = inv.head_is;
    tail_is = inv.tail_is ∙ ap (λ n. n % 2 ^ 64) (sym (add-zero (taken s)));
    order = omega (arith, inv.order);
    room = omega (arith, inv.room);
    stored = λ j x y. inv.stored j (omega arith) y;
    producer_ok = tt;
    consumer_ok = tt;
    handed_is = refl;
    file_is = λ y. refl;
    fd_is = λ y. refl;
    settled = λ y. y;
    runs = λ y. refl;
    wanted = λ y. refl;
    joins = λ y. refl;
    emptied = λ y j. absurd (false≢true j);
  }

  not_opened :
      (s : System)
      → s.running ≡ false
      → Inv capacity idle s.consumer s
      → Inv capacity idle s.consumer (record s { fd_open = false })
  not_opened s e inv = record {
    head_is = inv.head_is;
    tail_is = inv.tail_is;
    order = inv.order;
    room = inv.room;
    stored = inv.stored;
    producer_ok = tt;
    consumer_ok = inv.consumer_ok;
    handed_is = inv.handed_is;
    file_is = inv.file_is;
    fd_is = λ y. absurd (true≢false (sym y ∙ rests s e inv));
    settled = inv.settled;
    runs = inv.runs;
    wanted = inv.wanted;
    joins = inv.joins;
    emptied = inv.emptied;
  }

  halts :
      (s : System)
      → s.running ≡ true
      → Inv capacity idle s.consumer s
      → Inv capacity joining s.consumer (record s { running = false; producer = joining })
  halts s e inv =
      let on = inv.runs e in
      record {
        head_is = inv.head_is;
        tail_is = inv.tail_is;
        order = inv.order;
        room = inv.room;
        stored = inv.stored;
        producer_ok = refl;
        consumer_ok = inv.consumer_ok;
        handed_is = inv.handed_is;
        file_is = inv.file_is;
        fd_is = inv.fd_is;
        settled = λ y. refl;
        runs = λ y. absurd (false≢true y);
        wanted = λ y. refl;
        joins = λ y. active-started s.consumer on;
        emptied = λ y j. absurd (true≢false (sym on ∙ (at_end s.consumer y).0));
      }

  pub start-Good :
      (opened : Bool) (s : System)
      → s.producer ≡ idle
      → Good capacity s
      → Good capacity (start opened s)
  unfolding start
  start-Good opened s is g =
      let inv = subst (λ p. Inv capacity p s.consumer s) is g in
      let on = record s {
        running = true;
        fd_open = true;
        file = [];
        consumer = polling;
        since = s.since + s.drained;
        drained = 0;
        handed = [];
        failures = 0;
      } in
      let off = record s { fd_open = false } in
      if_elim (Good capacity) s.running s (if opened then on else off) (λ e. g)
        (λ e.
          if_elim (Good capacity) opened on off
            (λ o. subst (λ p. Inv capacity p polling on) (sym is) (opens s e inv))
            (λ o. subst (λ p. Inv capacity p s.consumer off) (sym is) (not_opened s e inv)))

  pub stop-Good : (s : System) → s.producer ≡ idle → Good capacity s → Good capacity (stop s)
  unfolding stop
  stop-Good s is g =
      let inv = subst (λ p. Inv capacity p s.consumer s) is g in
      if_elim (Good capacity) s.running (record s { running = false; producer = joining }) s
        (λ e. halts s e inv) (λ e. g)
