-- ===== src/FlatMap/Remove.antt =====
-- The lookups of `FlatHashMap` (include/OrderBook.hpp) after `erase`.
use itchparser.Prelude.{
  ℕ, zero, suc, ◌*◌, ◌<◌, ◌≡◌, refl, ◌≢◌, false, none, arith, ◌==◌, if◌then◌else◌, ◌⊎◌, ◌↔◌, inl,
  inr, ap, ◌∙◌, sym, Bool-cases, eq_of_==, ne_of_==, ltb,
}
use itchparser.Types.{Ptr}
use itchparser.FlatMap.{FlatMap, home, step, vacate, find, repair, erase_from, erase}
use itchparser.FlatMap.Probe.{
  steps, Clear, IsChained, home-lt, find-stored, find-absent, steps-lt, steps-onto, steps-suc,
}
use itchparser.FlatMap.Insert.{Clear-at, stored}
use itchparser.FlatMap.Gap.{Inv, vacate-Inv}
use itchparser.FlatMap.Erase.{Entry, repair-Inv}

module _ (capacity k_empty : ℕ) where
  erase_from-hit :
      (n p x k : ℕ) (m : FlatMap)
      → p < n
      → k ≢ k_empty
      → Clear capacity k_empty m.keys k p x
      → m.keys (steps capacity k_empty p x) ≡ k
      → erase_from capacity k_empty n x k m
        ≡ repair capacity k_empty
            (2 * capacity)
            (steps capacity k_empty (suc p) x)
            (vacate capacity k_empty (steps capacity k_empty p x) m)
  unfolding erase_from steps
  erase_from-hit zero p x k m lt ne c at = absurd (omega arith)
  erase_from-hit (suc n) zero x k m lt ne c at = ground arith
  erase_from-hit (suc n) (suc p) x k m lt ne c at =
      ground (arith, erase_from-hit n p (step capacity k_empty x) k m (omega arith) ne c.2 at)

  erase_from-miss :
      (n x k : ℕ) (m : FlatMap)
      → x < capacity
      → ((j : ℕ) → j < capacity → m.keys j ≢ k)
      → erase_from capacity k_empty n x k m ≡ m
  unfolding erase_from steps
  erase_from-miss zero x k m lt absent = refl
  erase_from-miss (suc n) x k m lt absent = ground (
    arith,
    absent x lt,
    erase_from-miss n (step capacity k_empty x) k m (steps-lt capacity k_empty 1 x lt) absent,
  )

  -- The end of the run from a slot, if it ends within `n` slots.
  run_end :
      (keys : ℕ → ℕ) (i n : ℕ)
      → ((e : ℕ) × (e < n)
          × (keys (steps capacity k_empty e i) ≡ k_empty)
          × ((t : ℕ) → t < e → keys (steps capacity k_empty t i) ≢ k_empty))
        ⊎ ((t : ℕ) → t < n → keys (steps capacity k_empty t i) ≢ k_empty)
  run_end keys i zero = inr (λ t lt. absurd (omega arith))
  run_end keys i (suc n) = elim (run_end keys i n) [
    | inl (e, le, free, run) ↦ inl (e, omega arith, free, run)
    | inr run ↦ elim (Bool-cases (keys (steps capacity k_empty n i) == k_empty)) [
      | inl h ↦ inl (n, omega arith, eq_of_== _ _ h, run)
      | inr f ↦ inr (λ t lt. ground (arith, run t))
    ]
  ]

  -- Keys that are all in reach are all different.
  chained_unique :
      (m : FlatMap)
      → IsChained capacity k_empty m
      → (j j' : ℕ) → j < capacity
      → j' < capacity
      → m.keys j ≡ m.keys j'
      → m.keys j ≢ k_empty
      → j ≡ j'
  chained_unique m ch j j' lj lj' same used =
      let h = home capacity k_empty (m.keys j) in
      let (p, lp, ends, c) = ch j lj used in
      let (p', lp', ends', c') = rw (← same) at (ch j' lj' (λ z. used (same ∙ z))) in
      elim (Bool-cases (ltb p p')) [
        | inl lt ↦ absurd (
            (Clear-at capacity k_empty m.keys (m.keys j) p' p h c' (ground arith)).1
              (ap m.keys ends))
        | inr ge ↦ elim (Bool-cases (ltb p' p)) [
          | inl lt ↦ absurd (
              (Clear-at capacity k_empty m.keys (m.keys j) p p' h c (ground arith)).1
                (ap m.keys ends' ∙ sym same))
          | inr le ↦
              let level : p ≡ p' = ground arith in
              sym ends ∙ ap (λ t. steps capacity k_empty t h) level ∙ ends'
        ]
      ]

  -- The state of the table when the loop starts, at slot `i` itself.
  start-Inv :
      (m : FlatMap) (i e : ℕ) (li : i < capacity) (le : e < capacity)
      → IsChained capacity k_empty m
      → m.keys (steps capacity k_empty e i) ≡ k_empty
      → ((t : ℕ) → t < e → m.keys (steps capacity k_empty t i) ≢ k_empty)
      → Inv capacity k_empty i e li le m.keys 0
  start-Inv m i e li le ch free run = record {
    run = λ t lo hi. run t hi;
    stop = free;
    unique = chained_unique m ch;
    reached = λ j lj used. inl (ch j lj used);
  }

  -- The table after the loop, where the key was at slot `i`.
  module _ (m m' : FlatMap) (k i : ℕ) (ch : IsChained capacity k_empty m) (li : i < capacity)
      (at : m.keys i ≡ k) (ne : k ≢ k_empty) (ch' : IsChained capacity k_empty m')
      (kept : (q : ℕ) (v : Ptr)
        → q ≢ k_empty
        → Entry capacity (vacate capacity k_empty i m) q v ↔ Entry capacity m' q v) where
    gone-Entry : (v : Ptr) → Entry capacity m' k v → ⊥
    gone-Entry v y =
        let (a, la, ka, va) = (kept k v ne).1 y in
        elim (Bool-cases (a == i)) [
          | inl h ↦ ne (ground arith)
          | inr f ↦
              let old : m.keys a ≡ k = ground arith in
              let same : a ≡ i =
                chained_unique m ch a i la li (old ∙ sym at) (λ z. ne (sym old ∙ z)) in
              ne_of_== a i f same
        ]

    find-gone :
        (q : ℕ)
        → q ≢ k_empty
        → find capacity k_empty q m' ≡ (if q == k then none else find capacity k_empty q m)
    find-gone q qe = elim (Bool-cases (q == k)) [
      | inl h ↦ rw h (
          find-absent capacity k_empty m' q (omega arith)
            (λ a la ka. gone-Entry (m'.values a) (a, la, ka ∙ eq_of_== q k h, refl)))
      | inr f ↦ elim (stored capacity k_empty m.keys q capacity) [
        | inl (a, la, ka) ↦
            let other : (a == i) ≡ false = ground arith in
            let here : Entry capacity (vacate capacity k_empty i m) q (m.values a) =
              (a, la, ground arith, ground arith) in
            let (b, lb, kb, vb) = (kept q (m.values a) qe).0 here in
            rw (f, find-stored capacity k_empty m a q ch la qe ka)
              (find-stored capacity k_empty m' b q ch' lb qe kb ∙ vb)
        | inr out ↦
            rw (f, find-absent capacity k_empty m q (omega arith) out)
              (find-absent capacity k_empty m' q (omega arith) (λ b lb kb.
                let (a, la, ka, va) = (kept q (m'.values b) qe).1 (b, lb, kb, refl) in
                out a la (ground arith)))
      ]
    ]

-- On a table with a free slot in which every stored key is reached by its own probe sequence,
-- `erase` unbinds a key other than the empty mark: the keys that are left are all reached, and every
-- lookup of a key other than the empty mark is as before, but for the key, which is not found.
pub find-erase :
    (capacity k_empty : ℕ) (m : FlatMap) (k f : ℕ)
    → IsChained capacity k_empty m
    → k ≢ k_empty
    → f < capacity
    → m.keys f ≡ k_empty
    → IsChained capacity k_empty (erase capacity k_empty k m)
      × ((q : ℕ)
          → q ≢ k_empty
          → find capacity k_empty q (erase capacity k_empty k m)
            ≡ (if q == k then none else find capacity k_empty q m))
unfolding erase steps
find-erase capacity k_empty m k f ch ne lf free =
    let h = home capacity k_empty k in
    let lh = home-lt capacity k_empty k (omega arith) in
    elim (stored capacity k_empty m.keys k capacity) [
      | inr absent ↦ rw (erase_from-miss capacity k_empty capacity h k m lh absent) (
        ch,
        λ q qe. elim (Bool-cases (q == k)) [
          | inl h ↦ rw h (
              find-absent capacity k_empty m q (omega arith)
                (λ j lj kj. absent j lj (kj ∙ eq_of_== q k h)))
          | inr f ↦ rw f
        ],
      )
      | inl (i, li, at) ↦
          let (p, lp, ends, c) = rw at at (ch i li (λ z. ne (sym at ∙ z))) in
          let used : m.keys (steps capacity k_empty p h) ≡ k = ap m.keys ends ∙ at in
          elim (run_end capacity k_empty m.keys i capacity) [
            | inr full ↦
                let (t, lt, there) = steps-onto capacity k_empty i f li lf in
                absurd (full t lt (ap m.keys there ∙ free))
            | inl (e, le, stop, run) ↦
                let pos : e ≢ 0 = λ z. ne (sym at ∙ rw z at stop) in
                let v = start-Inv capacity k_empty m i e li le ch stop run in
                let m₁ = vacate capacity k_empty i m in
                let (ch', kept) =
                  repair-Inv capacity k_empty i e li le (2 * capacity) 1 m₁ (omega arith)
                    (omega arith)
                    (vacate-Inv capacity k_empty i e li le m.keys 0 (omega arith) v) in
                let hit : erase_from capacity k_empty capacity h k m
                    ≡ repair capacity k_empty (2 * capacity) (steps capacity k_empty 1 i) m₁ =
                  erase_from-hit capacity k_empty capacity p h k m lp ne c used
                  ∙ rw (← steps-suc capacity k_empty p h) (
                      ap
                        (λ x.
                          repair capacity k_empty (2 * capacity) (step capacity k_empty x)
                            (vacate capacity k_empty x m))
                        ends) in
                rw hit (
                  ch',
                  find-gone capacity k_empty m
                      (repair capacity k_empty (2 * capacity) (steps capacity k_empty 1 i) m₁) k i
                      ch li at ne ch' kept,
                )
          ]
    ]
