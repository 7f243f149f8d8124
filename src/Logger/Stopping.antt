-- ===== src/Logger/Stopping.antt =====
-- `stop` of include/Logger.hpp ends: the drain thread, left alone, empties the ring and ends too.
use itchparser.Prelude.{
  if_elim, ℕ, zero, suc, ◌+◌, ◌*◌, ◌-◌, ◌^◌, ◌≤◌, ◌<◌, true, false, List, ◌≡◌, refl, sym, ap, ◌∙◌,
  subst, arith, ltb, ◌==◌, lt_of_ltb, le_of_ltb, Bool-cases, inl, inr, ◌⊎◌,
}
use mathlib.Core.Bool.{true≢false, false≢true}
use native.Mathlib.Nat.{add-zero}
use itchparser.Logger.{LogEntry}
use itchparser.Logger.System.{
  WriteResult, joining, Consumer, System, ended, drain_step, Returned, seen, reading, writing,
  storing, absent, polling, looking, done, Reach, later, drains,
}
use itchparser.Logger.Invariant.{lines, taken, pending, ProducerOk, started, is_joining, Inv}
use itchparser.Logger.Batches.{takes}
use itchparser.Logger.Safety.{Reach-Good, written_or_failed}

-- A bound on the moves of `drain_loop` that are left, with `r` entries in the ring and the flag
-- cleared.
abbrev rank : Consumer → ℕ → ℕ
rank absent r = 0
rank done r = 0
rank (seen true h) r = 100 * r + 1
rank (looking true) r = 100 * r + 2
rank polling r = 100 * r + 3
rank (seen false h) r = 100 * r + 4
rank (looking false) r = 100 * r + 5
rank (storing f t n) r = 100 * (r - n) + 4
rank (writing f t n out) r = 100 * (r - n) + 5
rank (reading f t n i out) r = 100 * (r - n) + (n - i) + 6

abbrev left : System → ℕ
left s = rank s.consumer (s.count - taken s)

-- `drain_loop` for `k` moves, where the system answers the writes as `answers` says.
unfoldable pub drain_run : (capacity : ℕ) → (System → List WriteResult) → ℕ → System → System
drain_run capacity answers zero s = s
drain_run capacity answers (suc k) s =
    drain_run capacity answers k (drain_step capacity s.consumer (answers s) s)

at_end_pending : (c : Consumer) → ended c ≡ true → pending c ≡ 0
at_end_pending done e = refl
at_end_pending _ e = absurd (false≢true e)

module _ (capacity : ℕ) where
  -- What the drain thread leaves alone.
  abbrev Same : System → System → Type 0
  Same s t =
      (t.producer ≡ s.producer) × (t.sent ≡ s.sent) × (t.count ≡ s.count) × (t.since ≡ s.since)

  drain_step-Same :
      (c : Consumer) (rs : List WriteResult) (s : System) → Same s (drain_step capacity c rs s)
  unfolding drain_step
  drain_step-Same polling rs s =
      if_elim (Same s) s.running _ _ (λ e. (refl, refl, refl, refl)) (λ e. (refl, refl, refl, refl))
  drain_step-Same (seen f h) rs s =
      if_elim (Same s) (s.tail == h) _ _ (λ e. (refl, refl, refl, refl))
        (λ e. (refl, refl, refl, refl))
  drain_step-Same (reading f t n i out) rs s =
      if_elim (Same s) (ltb i n) _ _ (λ e. (refl, refl, refl, refl)) (λ e. (refl, refl, refl, refl))
  drain_step-Same _ rs s = (refl, refl, refl, refl)

  -- Each move leaves fewer.
  drain_step-left :
      (c : Consumer) (rs : List WriteResult) (s : System)
      → s.running ≡ false
      → started c ≡ true
      → ended c ≡ false
      → Inv capacity s.producer c s
      → left (drain_step capacity c rs s) < rank c (s.count - taken s)
  unfolding drain_step
  drain_step-left absent rs s off on more inv = absurd (false≢true on)
  drain_step-left done rs s off on more inv = absurd (true≢false more)
  drain_step-left polling rs s off on more inv =
      if_elim (λ (t : System). left t < rank polling (s.count - taken s)) s.running _ _
        (λ e. absurd (true≢false (sym e ∙ off))) (λ e. omega arith)
  drain_step-left (looking true) rs s off on more inv = omega arith
  drain_step-left (looking false) rs s off on more inv = omega arith
  drain_step-left (seen true h) rs s off on more inv =
      if_elim (λ (t : System). left t < rank (seen true h) (s.count - taken s)) (s.tail == h) _ _
        (λ e. omega arith) (λ e. let k = takes capacity h e inv in omega (arith, k.2, k.3))
  drain_step-left (seen false h) rs s off on more inv =
      if_elim (λ (t : System). left t < rank (seen false h) (s.count - taken s)) (s.tail == h) _ _
        (λ e. omega arith) (λ e. let k = takes capacity h e inv in omega (arith, k.2, k.3))
  drain_step-left (reading f t n i out) rs s off on more inv =
      if_elim (λ (u : System). left u < rank (reading f t n i out) (s.count - taken s)) (ltb i n) _
        _ (λ e. omega (arith, lt_of_ltb i n e)) (λ e. omega (arith, le_of_ltb i n e))
  drain_step-left (writing f t n out) rs s off on more inv = omega arith
  drain_step-left (storing true t n) rs s off on more inv = omega (arith, inv.consumer_ok.2)
  drain_step-left (storing false t n) rs s off on more inv = omega (arith, inv.consumer_ok.2)

  -- Where `stop` gets to when it waits in `s`: the thread has ended, nothing is left in the ring.
  abbrev pub Emptied : (ℕ → LogEntry) → System → System → Type 0
  Emptied slots s t =
      Reach capacity slots t
      × (ended t.consumer ≡ true)
      × (t.since + t.drained ≡ s.count)
      × (t.handed ≡ lines s.sent s.since t.drained)
      × ((0 < t.failures) ⊎ (t.file ≡ t.handed))

  Emptied-Same :
      (slots : ℕ → LogEntry) (s t u : System) → Same s t → Emptied slots t u → Emptied slots s u
  Emptied-Same slots s t u same g = (
    g.0,
    g.1,
    g.2 ∙ same.2,
    g.3 ∙ ap (λ f. lines f t.since u.drained) same.1 ∙ ap (λ a. lines s.sent a u.drained) same.3,
    g.4,
  )

  module _ (w : ℕ) (fits : capacity * w ≡ 2 ^ 64) (small : capacity < 2 ^ 64) (slots : ℕ → LogEntry)
      (answers : System → List WriteResult)
      (returns : (s : System) → Returned capacity s.consumer (answers s) s) where
    at_last :
        (s : System)
        → Reach capacity slots s
        → s.producer ≡ joining
        → ended s.consumer ≡ true
        → Emptied slots s s
    at_last s r is e =
        let g = Reach-Good capacity w fits small slots r in
        let none_ = at_end_pending s.consumer e in
        (
          r,
          e,
          g.emptied e (ap is_joining is),
          g.handed_is ∙ rw (none_, add-zero s.drained) refl,
          written_or_failed g,
        )

    next_ok :
        (s : System)
        → Reach capacity slots s
        → s.producer ≡ joining
        → ended s.consumer ≡ false
        → left (drain_step capacity s.consumer (answers s) s) < left s
    next_ok s r is e =
        let g = Reach-Good capacity w fits small slots r in
        let off = subst (λ p. ProducerOk capacity p s.count (taken s) s.running) is g.producer_ok in
        drain_step-left s.consumer (answers s) s off (g.joins (ap is_joining is)) e g

    ends_within :
        (m : ℕ) (s : System)
        → left s ≤ m
        → Reach capacity slots s
        → s.producer ≡ joining
        → (k : ℕ) × Emptied slots s (drain_run capacity answers k s)
    unfolding drain_run
    ends_within zero s le r is = elim (Bool-cases (ended s.consumer)) [
      | inl e ↦ (0, at_last s r is e)
      | inr e ↦ absurd (omega (arith, next_ok s r is e))
    ]
    ends_within (suc m) s le r is =
        let t = drain_step capacity s.consumer (answers s) s in
        let same = drain_step-Same s.consumer (answers s) s in
        let rest = λ (e : ended s.consumer ≡ false).
          ends_within m t (omega (arith, next_ok s r is e))
            (later r (drains (answers s) (returns s))) (same.0 ∙ is) in
        elim (Bool-cases (ended s.consumer)) [
          | inl e ↦ (0, at_last s r is e)
          | inr e ↦
              let (k, g) = rest e in
              (suc k, Emptied-Same slots s t (drain_run capacity answers k t) same g)
        ]

    -- For a capacity that divides 2 ^ 64 and is less, from every reachable state where `stop` has
    -- cleared the flag and waits for the drain thread, and if every `write_batch` returns whatever
    -- it is answered, the drain thread ends after finitely many moves; every entry that was
    -- published has then been taken out and its line given to the file, and the file has all of
    -- them since the last `start` unless a write failed.
    pub stop_ends :
        (s : System)
        → Reach capacity slots s
        → s.producer ≡ joining
        → (k : ℕ) × Emptied slots s (drain_run capacity answers k s)
    stop_ends s r is = ends_within (left s) s (omega arith) r is
