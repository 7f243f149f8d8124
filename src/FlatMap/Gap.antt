-- ===== src/FlatMap/Gap.antt =====
-- The invariant of the loop by which `erase` of `FlatHashMap` (include/OrderBook.hpp) closes the gap
-- that it leaves. The gap is at slot `i`, the run of used slots behind it ends `e` steps on, and
-- the loop has come to the slot `d` steps behind `i`.
use itchparser.Prelude.{
  ℕ, zero, suc, ◌+◌, ◌-◌, ◌≤◌, ◌<◌, ◌≡◌, ◌≢◌, false, arith, ◌==◌, update, ◌⊎◌, inl, inr, ap, ◌∙◌,
  sym, Bool-cases, ==_ne, eq_of_==, ne_of_==, ltb,
}
use itchparser.FlatMap.{home, step}
use itchparser.FlatMap.Probe.{steps, Clear, Reached, steps-add, steps-injective}
use itchparser.FlatMap.Insert.{Clear-at, Clear-fill}

module _ (capacity k_empty i e : ℕ) (li : i < capacity) (le : e < capacity) where
  abbrev pub slot : ℕ → ℕ
  slot t = steps capacity k_empty t i

  -- A slot that the loop has passed, and may have left free.
  abbrev pub Passed : ℕ → ℕ → Type 0
  Passed d x = (t : ℕ) × (t < d) × (slot t ≡ x)

  -- `Clear`, but for slots that the loop has passed.
  abbrev pub Weak : (ℕ → ℕ) → ℕ → ℕ → ℕ → ℕ → Type 0
  Weak keys d k zero x = Unit {0}
  Weak keys d k (suc p) x =
      ((keys x ≢ k_empty) ⊎ Passed d x) × (keys x ≢ k) × Weak keys d k p (step capacity k_empty x)

  -- A key that the loop has still to put back.
  abbrev pub Ahead : (ℕ → ℕ) → ℕ → ℕ → Type 0
  Ahead keys d j =
      ((t : ℕ) × (d ≤ t) × (t < e) × (slot t ≡ j))
      × ((p : ℕ) × (p < capacity)
          × (steps capacity k_empty p (home capacity k_empty (keys j)) ≡ j)
          × Weak keys d (keys j) p (home capacity k_empty (keys j)))

  pub record Inv (keys : ℕ → ℕ) (d : ℕ) : Type 0 where
    pub run : (t : ℕ) → d ≤ t → t < e → keys (slot t) ≢ k_empty
    pub stop : keys (slot e) ≡ k_empty
    pub unique :
        (j j' : ℕ) → j < capacity → j' < capacity → keys j ≡ keys j' → keys j ≢ k_empty → j ≡ j'
    pub reached :
        (j : ℕ) → j < capacity → keys j ≢ k_empty → Reached capacity k_empty keys j ⊎ Ahead keys d j

  pub Weak-Clear :
      (keys : ℕ → ℕ) (d k p x : ℕ) → Clear capacity k_empty keys k p x → Weak keys d k p x
  Weak-Clear keys d k zero x c = tt
  Weak-Clear keys d k (suc p) x c =
      (inl c.0, c.1, Weak-Clear keys d k p (step capacity k_empty x) c.2)

  -- The slot `d` steps on is vacated.
  pub Weak-vacate :
      (keys : ℕ → ℕ) (d k p x : ℕ)
      → k ≢ k_empty
      → Weak keys d k p x
      → Weak (update keys (slot d) k_empty) (suc d) k p x
  Weak-vacate keys d k zero x ne w = tt
  Weak-vacate keys d k (suc p) x ne w =
      let rest = Weak-vacate keys d k p (step capacity k_empty x) ne w.2 in
      elim (Bool-cases (x == slot d)) [
        | inl s ↦ rw s (inr (d, omega arith, sym (eq_of_== x (slot d) s)), (λ h. ne (sym h)), rest)
        | inr f ↦
            rw f
              (elim w.0 [ inl u ↦ inl u | inr (t, lt, at) ↦ inr (t, omega arith, at) ], w.1, rest)
      ]

  -- A clear path stays clear, or comes by the vacated slot.
  Clear-vacate :
      (keys : ℕ → ℕ) (s k p x : ℕ)
      → Clear capacity k_empty keys k p x
      → Clear capacity k_empty (update keys s k_empty) k p x
        ⊎ ((q : ℕ) × (q < p) × (steps capacity k_empty q x ≡ s))
  unfolding steps
  Clear-vacate keys s k zero x c = inl tt
  Clear-vacate keys s k (suc p) x c = elim (Bool-cases (x == s)) [
    | inl h ↦ inr (0, omega arith, eq_of_== x s h)
    | inr f ↦ elim (Clear-vacate keys s k p (step capacity k_empty x) c.2) [
      | inl rest ↦ inl (rw f (c.0, c.1, rest))
      | inr (q, lq, at) ↦ inr (suc q, omega arith, at)
    ]
  ]

  -- A path by the slot `d` steps on, that ends at a used slot, ends in the run.
  ends_in_run :
      (keys : ℕ → ℕ) (d k p q x : ℕ)
      → d < e
      → keys (slot e) ≡ k_empty
      → keys (steps capacity k_empty p x) ≢ k_empty
      → Clear capacity k_empty keys k p x
      → q < p
      → steps capacity k_empty q x ≡ slot d
      → (t : ℕ) × (suc d ≤ t) × (t < e) × (slot t ≡ steps capacity k_empty p x)
  ends_in_run keys d k p q x de free used c qp at =
      let at_offset : (r : ℕ) → slot (d + r) ≡ steps capacity k_empty (q + r) x = λ r.
        sym (steps-add capacity k_empty r d i)
        ∙ ap (steps capacity k_empty r) (sym at)
        ∙ steps-add capacity k_empty r q x in
      let whole : q + (p - q) ≡ p = omega arith in
      let ends : slot (d + (p - q)) ≡ steps capacity k_empty p x =
        at_offset (p - q) ∙ ap (λ t. steps capacity k_empty t x) whole in
      let reach : d + (e - d) ≡ e = omega arith in
      let at_stop : keys (steps capacity k_empty (q + (e - d)) x) ≡ k_empty =
        ap keys (sym (at_offset (e - d)) ∙ ap slot reach) ∙ free in
      elim (Bool-cases (ltb (d + (p - q)) e)) [
        | inl inside ↦ (d + (p - q), omega arith, ground arith, ends)
        | inr outside ↦ elim (Bool-cases (ltb (q + (e - d)) p)) [
          | inl earlier ↦
              absurd
                ((Clear-at capacity k_empty keys k p (q + (e - d)) x c (ground arith)).0 at_stop)
          | inr last ↦
              let there : q + (e - d) ≡ p = ground arith in absurd (used (rw there at at_stop))
        ]
      ]

  -- One round, first half: the slot `d` steps on is vacated.
  pub vacate-Inv :
      (keys : ℕ → ℕ) (d : ℕ) → d < e → Inv keys d → Inv (update keys (slot d) k_empty) (suc d)
  vacate-Inv keys d de v = record {
    run = λ t lo hi.
        let other : (slot t == slot d) ≡ false = ==_ne _ _ (λ h. absurd (
          let s : t ≡ d = steps-injective capacity k_empty t d i li (omega arith) (omega arith) h in
          omega arith)) in
        rw other (v.run t (omega arith) hi);
    stop = ground (arith, v.stop);
    unique = λ j j' lj lj'. ground (arith, v.unique j j' lj lj');
    reached = λ j lj used. elim (Bool-cases (j == slot d)) [
      | inl h ↦ absurd (used (rw h))
      | inr f ↦
          let same : update keys (slot d) k_empty j ≡ keys j = rw f in
          let old : keys j ≢ k_empty = λ h. used (same ∙ h) in
          rw same (vacate-reached keys d de v j lj old (ne_of_== _ _ f))
    ];
  }
    where
      vacate-reached :
          (keys : ℕ → ℕ) (d : ℕ)
          → d < e
          → Inv keys d
          → (j : ℕ) → j < capacity
          → keys j ≢ k_empty
          → j ≢ slot d
          → ((p : ℕ) × (p < capacity)
              × (steps capacity k_empty p (home capacity k_empty (keys j)) ≡ j)
              × Clear capacity k_empty
                  (update keys (slot d) k_empty)
                  (keys j)
                  p
                  (home capacity k_empty (keys j)))
            ⊎ (((t : ℕ) × (suc d ≤ t) × (t < e) × (slot t ≡ j))
                × ((p : ℕ) × (p < capacity)
                    × (steps capacity k_empty p (home capacity k_empty (keys j)) ≡ j)
                    × Weak
                        (update keys (slot d) k_empty)
                        (suc d)
                        (keys j)
                        p
                        (home capacity k_empty (keys j))))
      vacate-reached keys d de v j lj used apart =
          let h = home capacity k_empty (keys j) in
          elim (v.reached j lj used) [
            | inl (p, lp, ends, c) ↦ elim (Clear-vacate keys (slot d) (keys j) p h c) [
              | inl c' ↦ inl (p, lp, ends, c')
              | inr (q, lq, at) ↦
                  let (t, lo, hi, there) =
                    ends_in_run keys d (keys j) p q h de v.stop (λ f. used (ap keys (sym ends) ∙ f))
                      c lq at in
                  inr (
                    (t, lo, hi, there ∙ ends),
                    (
                      p,
                      lp,
                      ends,
                      Weak-vacate keys d (keys j) p h used (Weak-Clear keys d (keys j) p h c),
                    ),
                  )
            ]
            | inr ((t, lo, hi, there), (p, lp, ends, w)) ↦
                let later : t ≢ d = λ same. apart (sym there ∙ ap slot same) in
                inr (
                  (t, omega arith, hi, there),
                  (p, lp, ends, Weak-vacate keys d (keys j) p h used w),
                )
          ]

  -- A weak path to a passed slot that is free stops, clear, at a passed slot that is free.
  pub landing :
      (keys : ℕ → ℕ) (d k p x : ℕ)
      → Weak keys d k p x
      → keys (steps capacity k_empty p x) ≡ k_empty
      → Passed d (steps capacity k_empty p x)
      → (q : ℕ) × (q ≤ p)
        × Clear capacity k_empty keys k q x
        × (keys (steps capacity k_empty q x) ≡ k_empty)
        × Passed d (steps capacity k_empty q x)
  unfolding steps
  landing keys d k zero x w free passed = (0, omega arith, tt, free, passed)
  landing keys d k (suc p) x w free passed = elim (Bool-cases (keys x == k_empty)) [
    | inl h ↦
        let at = eq_of_== _ _ h in
        elim w.0 [ inl used ↦ absurd (used at) | inr hole ↦ (0, omega arith, tt, at, hole) ]
    | inr f ↦
        let (q, lq, c, at, hole) = landing keys d k p (step capacity k_empty x) w.2 free passed in
        (suc q, omega arith, (ne_of_== _ _ f, w.1, c), at, hole)
  ]

  Weak-fill :
      (keys : ℕ → ℕ) (d k p x s r : ℕ)
      → r ≢ k_empty
      → r ≢ k
      → Weak keys d k p x
      → Weak (update keys s r) d k p x
  Weak-fill keys d k zero x s r re rk w = tt
  Weak-fill keys d k (suc p) x s r re rk w =
      let rest = Weak-fill keys d k p (step capacity k_empty x) s r re rk w.2 in
      elim (Bool-cases (x == s)) [ inl h ↦ rw h (inl re, rk, rest) | inr f ↦ rw f (w.0, w.1, rest) ]

  -- One round, second half: the key `r` that was taken out goes to the free slot that it lands on.
  pub fill-Inv :
      (keys : ℕ → ℕ) (d r q : ℕ)
      → d ≤ e
      → Inv keys d
      → r ≢ k_empty
      → ((j : ℕ) → j < capacity → keys j ≢ r)
      → q < capacity
      → Clear capacity k_empty keys r q (home capacity k_empty r)
      → keys (steps capacity k_empty q (home capacity k_empty r)) ≡ k_empty
      → Passed d (steps capacity k_empty q (home capacity k_empty r))
      → Inv (update keys (steps capacity k_empty q (home capacity k_empty r)) r) d
  fill-Inv keys d r q de v re new lq c free (t₀, lt₀, at₀) =
      let s = steps capacity k_empty q (home capacity k_empty r) in
      record {
        run = λ t lo hi.
            let other : (slot t == s) ≡ false = ==_ne _ _ (λ h. v.run t lo hi (ap keys h ∙ free)) in
            rw other (v.run t lo hi);
        stop =
            (let other : (slot e == s) ≡ false = ==_ne _ _ (λ h. absurd (
                let same : e ≡ t₀ =
                  steps-injective capacity k_empty e t₀ i li le (omega arith) (h ∙ sym at₀) in
                omega arith)) in
              rw other v.stop);
        unique = λ j j' lj lj'. ground (arith, v.unique j j' lj lj', new j lj, new j' lj');
        reached = λ j lj used. elim (Bool-cases (j == s)) [
          | inl h ↦
              let same : update keys s r j ≡ r = rw h in
              rw same (
                inl (
                  q,
                  lq,
                  sym (eq_of_== _ _ h),
                  Clear-fill capacity k_empty keys r q (home capacity k_empty r) s r free c,
                ))
          | inr f ↦
              let same : update keys s r j ≡ keys j = rw f in
              let x = home capacity k_empty (keys j) in
              rw same (elim (v.reached j lj (λ h. used (same ∙ h))) [
                | inl (p, lp, ends, cp) ↦
                    inl (p, lp, ends, Clear-fill capacity k_empty keys (keys j) p x s r free cp)
                | inr (ahead, (p, lp, ends, w)) ↦ inr (
                  ahead,
                  (p, lp, ends, Weak-fill keys d (keys j) p x s r re (λ h. new j lj (sym h)) w),
                )
              ])
        ];
      }
