-- ===== src/FlatMap/Insert.antt =====
-- `insert` of `FlatHashMap` (include/OrderBook.hpp) on a table that has a free slot.
use itchparser.Prelude.{
  ℕ, zero, suc, ◌<◌, ◌≡◌, refl, ◌≢◌, true, false, arith, ◌==◌, if◌then◌else◌, update, ◌⊎◌, inl, inr,
  ap, ◌∙◌, sym, Bool-cases, ==_ne, eq_of_==, ne_of_==, inc64,
}
use itchparser.Types.{Ptr}
use itchparser.FlatMap.{FlatMap, home, step, write, insert_from, insert, find}
use itchparser.FlatMap.Probe.{
  steps, Clear, IsChained, home-lt, find-stored, find-absent, steps-lt, steps-onto,
}

module _ (capacity k_empty : ℕ) where
  -- Where the probe sequence stops, if it does within `n` slots.
  first_stop :
      (keys : ℕ → ℕ) (k n i : ℕ)
      → ((p : ℕ) × (p < n)
          × Clear capacity k_empty keys k p i
          × ((keys (steps capacity k_empty p i) ≡ k_empty)
              ⊎ (keys (steps capacity k_empty p i) ≡ k)))
        ⊎ Clear capacity k_empty keys k n i
  unfolding steps
  first_stop keys k zero i = inr tt
  first_stop keys k (suc n) i = elim (Bool-cases (keys i == k_empty)) [
    | inl e ↦ inl (0, omega arith, tt, inl (eq_of_== _ _ e))
    | inr f ↦ elim (Bool-cases (keys i == k)) [
      | inl e ↦ inl (0, omega arith, tt, inr (eq_of_== _ _ e))
      | inr g ↦ elim (first_stop keys k n (step capacity k_empty i)) [
        | inl (p, lt, c, s) ↦ inl (suc p, omega arith, (ne_of_== _ _ f, ne_of_== _ _ g, c), s)
        | inr c ↦ inr (ne_of_== _ _ f, ne_of_== _ _ g, c)
      ]
    ]
  ]

  pub Clear-at :
      (keys : ℕ → ℕ) (k n q i : ℕ)
      → Clear capacity k_empty keys k n i
      → q < n
      → (keys (steps capacity k_empty q i) ≢ k_empty) × (keys (steps capacity k_empty q i) ≢ k)
  unfolding steps
  Clear-at keys k zero q i c lt = absurd (omega arith)
  Clear-at keys k (suc n) zero i c lt = (c.0, c.1)
  Clear-at keys k (suc n) (suc q) i c lt =
      Clear-at keys k n q (step capacity k_empty i) c.2 (omega arith)

  -- Filling a free slot clears no path.
  pub Clear-fill :
      (keys : ℕ → ℕ) (k p i j v : ℕ)
      → keys j ≡ k_empty
      → Clear capacity k_empty keys k p i
      → Clear capacity k_empty (update keys j v) k p i
  Clear-fill keys k zero i j v free c = tt
  Clear-fill keys k (suc p) i j v free c =
      let other : (i == j) ≡ false = ==_ne i j (λ e. c.0 (ap keys e ∙ free)) in
      rw other (c.0, c.1, Clear-fill keys k p (step capacity k_empty i) j v free c.2)

  pub insert_from-free :
      (n p i k : ℕ) (v : Ptr) (m : FlatMap)
      → p < n
      → Clear capacity k_empty m.keys k p i
      → m.keys (steps capacity k_empty p i) ≡ k_empty
      → insert_from capacity k_empty n i k v m ≡ (
        true,
        record (write capacity k_empty (steps capacity k_empty p i) k v m) { size = inc64 m.size },
      )
  unfolding insert_from steps
  insert_from-free zero p i k v m lt c at = absurd (omega arith)
  insert_from-free (suc n) zero i k v m lt c at = ground arith
  insert_from-free (suc n) (suc p) i k v m lt c at =
      ground (arith, insert_from-free n p (step capacity k_empty i) k v m (omega arith) c.2 at)

  insert_from-held :
      (n p i k : ℕ) (v : Ptr) (m : FlatMap)
      → p < n
      → k ≢ k_empty
      → Clear capacity k_empty m.keys k p i
      → m.keys (steps capacity k_empty p i) ≡ k
      → insert_from capacity k_empty n i k v m
        ≡ (false, record m { values = update m.values (steps capacity k_empty p i) v })
  unfolding insert_from steps
  insert_from-held zero p i k v m lt ne c at = absurd (omega arith)
  insert_from-held (suc n) zero i k v m lt ne c at = ground arith
  insert_from-held (suc n) (suc p) i k v m lt ne c at =
      ground (arith, insert_from-held n p (step capacity k_empty i) k v m (omega arith) ne c.2 at)

  -- Whether a key is stored.
  pub stored :
      (keys : ℕ → ℕ) (k n : ℕ) → ((j : ℕ) × (j < n) × (keys j ≡ k)) ⊎ ((j : ℕ) → j < n → keys j ≢ k)
  stored keys k zero = inr (λ j lt. absurd (omega arith))
  stored keys k (suc n) = elim (Bool-cases (keys n == k)) [
    | inl e ↦ inl (n, omega arith, eq_of_== _ _ e)
    | inr f ↦ elim (stored keys k n) [
      | inl (j, lt, e) ↦ inl (j, omega arith, e)
      | inr out ↦ inr (λ j lt. ground (arith, out j))
    ]
  ]

  module _ (m : FlatMap) (k : ℕ) (v : Ptr) (ch : IsChained capacity k_empty m)
      (ne : k ≢ k_empty) where
    -- A table that differs from `m` at the slot `j` alone, which now holds `k`, looks up as `m` does.
    find-changed :
        (m' : FlatMap) (j q : ℕ)
        → j < capacity
        → IsChained capacity k_empty m'
        → (m.keys j ≡ k_empty) ⊎ (m.keys j ≡ k)
        → ((i : ℕ) → m'.keys i ≡ (if i == j then k else m.keys i))
        → ((i : ℕ) → m'.values i ≡ (if i == j then v else m.values i))
        → q ≢ k_empty
        → find capacity k_empty q m' ≡ (if q == k then v else find capacity k_empty q m)
    find-changed m' j q lt ch' before keys values qe = elim (Bool-cases (q == k)) [
      | inl e ↦ rw e (
          find-stored capacity k_empty m' j q ch' lt qe (ground (arith, keys j))
          ∙ ground (arith, values j))
      | inr f ↦ elim (stored m.keys q capacity) [
        | inl (i, li, at) ↦
            let other : (i == j) ≡ false = ground arith in
            rw (f, find-stored capacity k_empty m i q ch li qe at)
              (find-stored capacity k_empty m' i q ch' li qe (ground (arith, keys i))
                ∙ ground (arith, values i))
        | inr out ↦
            rw (f, find-absent capacity k_empty m q (omega arith) out)
              (find-absent capacity k_empty m' q (omega arith)
                (λ i li. ground (arith, keys i, out i)))
      ]
    ]

    IsChained-fill :
        (p : ℕ)
        → p < capacity
        → Clear capacity k_empty m.keys k p (home capacity k_empty k)
        → m.keys (steps capacity k_empty p (home capacity k_empty k)) ≡ k_empty
        → IsChained capacity k_empty
            (write capacity k_empty (steps capacity k_empty p (home capacity k_empty k)) k v m)
    IsChained-fill p lt c free i li full =
        let j = steps capacity k_empty p (home capacity k_empty k) in
        elim (Bool-cases (i == j)) [
          | inl e ↦
              let same : update m.keys j k i ≡ k = rw e in
              rw same (
                p,
                lt,
                sym (eq_of_== i j e),
                Clear-fill m.keys k p (home capacity k_empty k) j k free c,
              )
          | inr f ↦
              let same : update m.keys j k i ≡ m.keys i = rw f in
              let (q, lq, ends, cq) = ch i li (λ e. full (same ∙ e)) in
              rw same (
                q,
                lq,
                ends,
                Clear-fill m.keys (m.keys i) q (home capacity k_empty (m.keys i)) j k free cq,
              )
        ]

-- On a table with a free slot in which every stored key is reached by its own probe sequence,
-- `insert` binds a key other than the empty mark to the value: the stored keys are still all
-- reached, and every lookup of a key other than the empty mark is as before, but for the key.
pub find-insert :
    (capacity k_empty : ℕ) (m : FlatMap) (k : ℕ) (v : Ptr) (e : ℕ)
    → IsChained capacity k_empty m
    → k ≢ k_empty
    → e < capacity
    → m.keys e ≡ k_empty
    → IsChained capacity k_empty (insert capacity k_empty k v m).1
      × ((q : ℕ)
          → q ≢ k_empty
          → find capacity k_empty q (insert capacity k_empty k v m).1
            ≡ (if q == k then v else find capacity k_empty q m))
unfolding insert
find-insert capacity k_empty m k v e ch ne le free =
    let h = home capacity k_empty k in
    let lh = home-lt capacity k_empty k (omega arith) in
    elim (first_stop capacity k_empty m.keys k capacity h) [
      | inl (p, lp, c, inl at) ↦
          let j = steps capacity k_empty p h in
          let ch' = IsChained-fill capacity k_empty m k v ch ne p lp c at in
          rw (insert_from-free capacity k_empty capacity p h k v m lp c at) (
            ch',
            λ q qe.
                find-changed capacity k_empty m k v ch ne
                  (record (write capacity k_empty j k v m) { size = inc64 m.size }) j q
                  (steps-lt capacity k_empty p h lh) ch' (inl at) (λ i. refl) (λ i. refl) qe,
          )
      | inl (p, lp, c, inr at) ↦
          let j = steps capacity k_empty p h in
          rw (insert_from-held capacity k_empty capacity p h k v m lp ne c at) (
            ch,
            λ q qe.
                find-changed capacity k_empty m k v ch ne
                  (record m { values = update m.values j v }) j q (steps-lt capacity k_empty p h lh)
                  ch (inr at) (λ i. ground arith) (λ i. refl) qe,
          )
      | inr c ↦
          let (p, lp, ends) = steps-onto capacity k_empty h e lh le in
          absurd ((Clear-at capacity k_empty m.keys k capacity p h c lp).0 (ap m.keys ends ∙ free))
    ]
