-- ===== src/FlatMap/Probe.antt =====
-- The probe sequence of `FlatHashMap` (include/OrderBook.hpp), and what `find` makes of a slot that
-- the sequence of a key reaches.
use itchparser.Prelude.{
  ℕ, zero, suc, ◌+◌, ◌-◌, ◌%◌, ◌<◌, ◌≡◌, refl, ◌≢◌, none, arith, if◌then◌else◌, inl, inr, ap, ◌∙◌,
  sym, leb, ltb, Bool-cases,
}
use native.Mathlib.Nat.{add-zero, add-mod_right, mod-lt, mod-eq_of_lt, mod-add-mod, mod-eq-sub-mod}
use itchparser.FlatMap.{FlatMap, home, step, find_from, find}

module _ (capacity k_empty : ℕ) where
  -- The slot `p` steps behind `i`.
  unfoldable pub steps : ℕ → ℕ → ℕ
  steps zero i = i
  steps (suc p) i = steps p (step capacity k_empty i)

  -- None of the first `p` slots from `i` is free or holds `k`.
  abbrev pub Clear : (ℕ → ℕ) → ℕ → ℕ → ℕ → Type 0
  Clear keys k zero i = Unit {0}
  Clear keys k (suc p) i =
      (keys i ≢ k_empty) × (keys i ≢ k) × Clear keys k p (step capacity k_empty i)

  find_from-hit :
      (n p i k : ℕ) (m : FlatMap)
      → p < n
      → k ≢ k_empty
      → Clear m.keys k p i
      → m.keys (steps p i) ≡ k
      → find_from capacity k_empty n i k m ≡ m.values (steps p i)
  unfolding find_from steps
  find_from-hit zero p i k m lt ne c at = absurd (omega arith)
  find_from-hit (suc n) zero i k m lt ne c at = ground arith
  find_from-hit (suc n) (suc p) i k m lt ne c at =
      ground (arith, find_from-hit n p (step capacity k_empty i) k m (omega arith) ne c.2 at)

  find_from-miss :
      (n i k : ℕ) (m : FlatMap)
      → 0 < capacity
      → i < capacity
      → ((j : ℕ) → j < capacity → m.keys j ≢ k)
      → find_from capacity k_empty n i k m ≡ none
  unfolding find_from
  find_from-miss zero i k m pos lt absent = refl
  find_from-miss (suc n) i k m pos lt absent = ground (
    arith,
    absent i lt,
    find_from-miss n (step capacity k_empty i) k m pos (mod-lt (i + 1) pos) absent,
  )

  -- Every stored key is reached by its own probe sequence.
  abbrev pub Reached : (ℕ → ℕ) → ℕ → Type 0
  Reached keys j =
      (p : ℕ) × (p < capacity)
      × (steps p (home capacity k_empty (keys j)) ≡ j)
      × Clear keys (keys j) p (home capacity k_empty (keys j))

  abbrev pub IsChained : FlatMap → Type 0
  IsChained m = (j : ℕ) → j < capacity → m.keys j ≢ k_empty → Reached m.keys j

  pub home-lt : (k : ℕ) → 0 < capacity → home capacity k_empty k < capacity
  unfolding home
  home-lt k pos = mod-lt _ pos

  find-key :
      (m : FlatMap) (j : ℕ)
      → IsChained m
      → j < capacity
      → m.keys j ≢ k_empty
      → find capacity k_empty (m.keys j) m ≡ m.values j
  unfolding find
  find-key m j ch lt ne =
      let (p, small, ends, c) = ch j lt ne in
      find_from-hit capacity p (home capacity k_empty (m.keys j)) (m.keys j) m small ne c
        (ap m.keys ends)
      ∙ ap m.values ends

  pub find-stored :
      (m : FlatMap) (j k : ℕ)
      → IsChained m
      → j < capacity
      → k ≢ k_empty
      → m.keys j ≡ k
      → find capacity k_empty k m ≡ m.values j
  find-stored m j k ch lt ne at = rw (← at) (find-key m j ch lt (λ e. ne (sym at ∙ e)))

  pub find-absent :
      (m : FlatMap) (k : ℕ)
      → 0 < capacity
      → ((j : ℕ) → j < capacity → m.keys j ≢ k)
      → find capacity k_empty k m ≡ none
  unfolding find
  find-absent m k pos absent = find_from-miss capacity _ k m pos (home-lt k pos) absent

  steps-eq : (p i : ℕ) → i < capacity → steps p i ≡ (i + p) % capacity
  unfolding steps
  steps-eq zero i lt = sym (ap (λ t. t % capacity) (add-zero i) ∙ mod-eq_of_lt lt)
  steps-eq (suc p) i lt =
      steps-eq p (step capacity k_empty i) (mod-lt (i + 1) (omega arith))
      ∙ mod-add-mod (i + 1) capacity p
      ∙ ap (λ t. t % capacity) (omega arith)

  pub steps-lt : (p i : ℕ) → i < capacity → steps p i < capacity
  steps-lt p i lt = rw (steps-eq p i lt) (mod-lt (i + p) (omega arith))

  -- The sequence from any slot comes to every slot within a round.
  pub steps-onto :
      (i e : ℕ) → i < capacity → e < capacity → (p : ℕ) × (p < capacity) × (steps p i ≡ e)
  steps-onto i e li le = elim (Bool-cases (leb i e)) [
    | inl up ↦ (
      e - i,
      omega arith,
      steps-eq (e - i) i li ∙ ap (λ t. t % capacity) (ground arith) ∙ mod-eq_of_lt le,
    )
    | inr down ↦
        let p = capacity - i + e in
        let wraps : i + p ≡ e + capacity = omega arith in
        (
          p,
          ground arith,
          steps-eq p i li
              ∙ ap (λ t. t % capacity) wraps
              ∙ add-mod_right e capacity
              ∙ mod-eq_of_lt le,
        )
  ]

  pub steps-suc : (p i : ℕ) → step capacity k_empty (steps p i) ≡ steps (suc p) i
  unfolding steps
  steps-suc zero i = refl
  steps-suc (suc p) i = steps-suc p (step capacity k_empty i)

  pub steps-add : (p q i : ℕ) → steps p (steps q i) ≡ steps (q + p) i
  unfolding steps
  steps-add p zero i = let z : p ≡ 0 + p = omega arith in ap (λ t. steps t i) z
  steps-add p (suc q) i =
      steps-add p q (step capacity k_empty i)
      ∙ ap (λ t. steps t i) (let e : suc (q + p) ≡ suc q + p = omega arith in e)

  wrap :
      (x : ℕ)
      → x < capacity + capacity
      → x % capacity ≡ (if ltb x capacity then x else x - capacity)
  wrap x lt = elim (Bool-cases (ltb x capacity)) [
    | inl small ↦ rw small (mod-eq_of_lt (ground arith))
    | inr big ↦
        rw big (mod-eq-sub-mod {n = x} {m = capacity} (ground arith) ∙ mod-eq_of_lt (ground arith))
  ]

  -- Within a round no slot is visited twice.
  pub steps-injective :
      (p q i : ℕ) → i < capacity → p < capacity → q < capacity → steps p i ≡ steps q i → p ≡ q
  steps-injective p q i li lp lq e =
      let same : (i + p) % capacity ≡ (i + q) % capacity =
        sym (steps-eq p i li) ∙ e ∙ steps-eq q i li in
      ground (arith, wrap (i + p), wrap (i + q))
