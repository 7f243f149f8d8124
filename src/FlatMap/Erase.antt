-- ===== src/FlatMap/Erase.antt =====
-- `erase` of `FlatHashMap` (include/OrderBook.hpp) on a table that has a free slot: the key goes, and
-- putting the run behind it back keeps every other key in reach.
use itchparser.Prelude.{
  ℕ, zero, suc, ◌-◌, ◌≤◌, ◌<◌, ◌≡◌, ◌≢◌, true, arith, ◌==◌, update, ◌↔◌, inl, inr, ap, ◌∙◌, sym,
  Bool-cases, ==_refl, ==_ne, ltb,
}
use itchparser.Types.{Ptr}
use itchparser.FlatMap.{FlatMap, home, write, vacate, insert, repair}
use itchparser.FlatMap.Probe.{steps, IsChained, home-lt, steps-lt, steps-suc}
use itchparser.FlatMap.Insert.{insert_from-free}
use itchparser.FlatMap.Gap.{Weak, Inv, Weak-Clear, Weak-vacate, landing, vacate-Inv, fill-Inv}

-- The table binds the key to the value.
abbrev pub Entry : ℕ → FlatMap → ℕ → Ptr → Type 0
Entry capacity m q v = (j : ℕ) × (j < capacity) × (m.keys j ≡ q) × (m.values j ≡ v)

module _ (capacity k_empty i e : ℕ) (li : i < capacity) (le : e < capacity) where
  -- The path on which the key `d` steps on is put back.
  path_back :
      (keys : ℕ → ℕ) (d : ℕ)
      → d < e
      → Inv capacity k_empty i e li le keys d
      → let j = steps capacity k_empty d i in
        (p : ℕ) × (p < capacity)
        × (steps capacity k_empty p (home capacity k_empty (keys j)) ≡ j)
        × Weak capacity k_empty i e li le
            (update keys j k_empty)
            (suc d)
            (keys j)
            p
            (home capacity k_empty (keys j))
  path_back keys d de v =
      let j = steps capacity k_empty d i in
      let lj = steps-lt capacity k_empty d i li in
      let used = v.run d (omega arith) de in
      let h = home capacity k_empty (keys j) in
      elim (v.reached j lj used) [
        | inl (p, lp, ends, c) ↦ (
          p,
          lp,
          ends,
          Weak-vacate capacity k_empty i e li le keys d (keys j) p h used
              (Weak-Clear capacity k_empty i e li le keys d (keys j) p h c),
        )
        | inr (_, (p, lp, ends, w)) ↦
            (p, lp, ends, Weak-vacate capacity k_empty i e li le keys d (keys j) p h used w)
      ]

  -- The entries of a table after the entry at `j` moved to the slot `s`, which was free.
  moved-Entry :
      (m : FlatMap) (j s : ℕ)
      → j < capacity
      → s < capacity
      → m.keys j ≢ k_empty
      → update m.keys j k_empty s ≡ k_empty
      → let m' = write capacity k_empty s (m.keys j) (m.values j) (vacate capacity k_empty j m) in
        (q : ℕ) (v : Ptr) → q ≢ k_empty → Entry capacity m q v ↔ Entry capacity m' q v
  moved-Entry m j s lj ls used free q v qe = (
    λ (a, la, ka, va). elim (Bool-cases (a == j)) [
      | inl h ↦ (s, ls, ground arith, ground arith)
      | inr f ↦ (a, la, ground arith, ground arith)
    ],
    λ (a, la, ka, va). elim (Bool-cases (a == s)) [
      | inl h ↦ (j, lj, ground arith, ground arith)
      | inr f ↦ (a, la, ground arith, ground arith)
    ],
  )

  -- One round of the loop.
  round-Inv :
      (m : FlatMap) (d : ℕ)
      → d < e
      → Inv capacity k_empty i e li le m.keys d
      → let j = steps capacity k_empty d i in
        let m' =
          (insert capacity k_empty (m.keys j) (m.values j) (vacate capacity k_empty j m)).1 in
        Inv capacity k_empty i e li le m'.keys (suc d)
        × ((q : ℕ) (v : Ptr) → q ≢ k_empty → Entry capacity m q v ↔ Entry capacity m' q v)
  unfolding insert
  round-Inv m d de v =
      let j = steps capacity k_empty d i in
      let lj = steps-lt capacity k_empty d i li in
      let r = m.keys j in
      let h = home capacity k_empty r in
      let used = v.run d (omega arith) de in
      let m₁ = vacate capacity k_empty j m in
      let v₁ = vacate-Inv capacity k_empty i e li le m.keys d de v in
      let gone : update m.keys j k_empty j ≡ k_empty = rw (==_refl j) in
      let (p, lp, ends, w) = path_back m.keys d de v in
      let (q, lq, c, free, passed) =
        landing capacity k_empty i e li le m₁.keys (suc d) r p h w (ap m₁.keys ends ∙ gone)
          (d, omega arith, sym ends) in
      let s = steps capacity k_empty q h in
      let qp : q < capacity = omega arith in
      rw (insert_from-free capacity k_empty capacity q h r (m.values j) m₁ qp c free) (
        fill-Inv capacity k_empty i e li le m₁.keys (suc d) r q de v₁ used
            (λ a la. ground (arith, v.unique a j la lj)) qp c free passed,
        moved-Entry m j s lj
            (steps-lt capacity k_empty q h (home-lt capacity k_empty r (omega arith))) used free,
      )

  -- The loop ends at the free slot behind the run, with every key in reach and every entry kept.
  pub repair-Inv :
      (f d : ℕ) (m : FlatMap)
      → d ≤ e
      → e - d < f
      → Inv capacity k_empty i e li le m.keys d
      → let m' = repair capacity k_empty f (steps capacity k_empty d i) m in
        IsChained capacity k_empty m'
        × ((q : ℕ) (v : Ptr) → q ≢ k_empty → Entry capacity m q v ↔ Entry capacity m' q v)
  unfolding repair
  repair-Inv zero d m de fuel v = absurd (omega arith)
  repair-Inv (suc f) d m de fuel v = elim (Bool-cases (ltb d e)) [
    | inl more ↦
        let lt : d < e = ground arith in
        let j = steps capacity k_empty d i in
        let (v₁, kept₁) = round-Inv m d lt v in
        let m' =
          (insert capacity k_empty (m.keys j) (m.values j) (vacate capacity k_empty j m)).1 in
        let (ch, kept) = repair-Inv f (suc d) m' (omega arith) (omega arith) v₁ in
        rw (repair, ==_ne _ _ (v.run d (omega arith) lt), steps-suc capacity k_empty d i)
          (
            ch,
            λ q x qe. (
              λ h. (kept q x qe).0 ((kept₁ q x qe).0 h),
              λ h. (kept₁ q x qe).1 ((kept q x qe).1 h),
            ),
          )
    | inr done ↦
        let at_end : d ≡ e = ground arith in
        let free : (m.keys (steps capacity k_empty d i) == k_empty) ≡ true =
          rw (at_end, v.stop) (==_refl k_empty) in
        rw (repair, free)
          (
            λ j lj used. elim (v.reached j lj used) [
              | inl r ↦ r
              | inr ((t, lo, hi, at), _) ↦ absurd (omega arith)
            ],
            λ q x qe. ((λ h. h), (λ h. h)),
          )
  ]
