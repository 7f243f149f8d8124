-- ===== src/Report/Rows.antt =====
-- The sort of `print_report` in include/Stats.hpp only permutes the rows, and puts the highest
-- counts first.
use itchparser.Prelude.{
  ℕ, zero, suc, ◌+◌, ◌≤◌, ◌<◌, true, ◌≡◌, ◌≢◌, refl, sym, ap, ◌∙◌, subst, arith, ltb, ◌==◌,
  if◌then◌else◌, if_elim, Bool-cases, inl, inr, eq_of_==, ne_of_==, lt_of_ltb, le_of_ltb,
}
use native.Mathlib.Nat.{add-zero}
use itchparser.Report.{Row, fill_rows, best_from, swap_rows, sort_from}

-- The rows below `m` are those of the `m` types, each in one place, with its counter.
pub record IsTable (m : ℕ) (per_type : ℕ → ℕ) (rows : ℕ → Row) : Type 0 where
  pub below : (i : ℕ) → i < m → (rows i).type < m
  pub counted : (i : ℕ) → (rows i).count ≡ per_type (rows i).type
  pub once : (i j : ℕ) → i < m → j < m → (rows i).type ≡ (rows j).type → i ≡ j
  pub each : (t : ℕ) → t < m → (i : ℕ) × (i < m) × ((rows i).type ≡ t)

pub fill_rows-IsTable : (m : ℕ) (per_type : ℕ → ℕ) → IsTable m per_type (fill_rows per_type)
unfolding fill_rows
fill_rows-IsTable m per_type = record {
  below = λ i h. h;
  counted = λ i. refl;
  once = λ i j a b e. e;
  each = λ t h. (t, h, refl);
}

-- Positions `i` and `b`, exchanged.
abbrev turned : (i b k : ℕ) → ℕ
turned i b k = if k == b then i else (if k == i then b else k)

swap_rows_lem : (rows : ℕ → Row) (i b k : ℕ) → swap_rows rows i b k ≡ rows (turned i b k)
unfolding swap_rows
swap_rows_lem rows i b k = elim (Bool-cases (k == b)) [
  | inl e ↦ rw (swap_rows, e) refl
  | inr e ↦ elim (Bool-cases (k == i)) [
    | inl g ↦ rw (swap_rows, e, g) refl
    | inr g ↦ rw (swap_rows, e, g) refl
  ]
]

turned_twice : (i b k : ℕ) → turned i b (turned i b k) ≡ k
turned_twice i b k = ground arith

turned_below : (i b k m : ℕ) → i < m → b < m → k < m → turned i b k < m
turned_below i b k m x y z = ground arith

swap_rows-IsTable :
    (m : ℕ) (per_type : ℕ → ℕ) (rows : ℕ → Row) (i b : ℕ)
    → i < m
    → b < m
    → IsTable m per_type rows
    → IsTable m per_type (swap_rows rows i b)
swap_rows-IsTable m per_type rows i b x y t =
    let is = swap_rows_lem rows i b in
    let move = turned i b in
    record {
      below = λ k h. rw (is k) (t.below (move k) (turned_below i b k m x y h));
      counted = λ k. rw (is k) (t.counted (move k));
      once = λ k l g h e.
          let e' : (rows (move k)).type ≡ (rows (move l)).type =
            ap (λ r. r.type) (sym (is k)) ∙ e ∙ ap (λ r. r.type) (is l) in
          let same =
            t.once (move k) (move l) (turned_below i b k m x y g) (turned_below i b l m x y h) e' in
          sym (turned_twice i b k) ∙ ap move same ∙ turned_twice i b l;
      each = λ c h.
          let (k, g, e) = t.each c h in
          (
            move k,
            turned_below i b k m x y g,
            ap (λ r. r.type) (is (move k)) ∙ ap (λ j. (rows j).type) (turned_twice i b k) ∙ e,
          );
    }

-- The search gives a position it has seen, and no count that it has seen is higher.
best_from_start :
    (rows : ℕ → Row) (n j best : ℕ) → (rows best).count ≤ (rows (best_from rows n j best)).count
unfolding best_from
best_from_start rows zero j best = omega arith
best_from_start rows (suc n) j best = elim (Bool-cases (ltb (rows best).count (rows j).count)) [
  | inl e ↦
      rw (best_from, e)
        (omega
          (arith, best_from_start rows n (j + 1) j, lt_of_ltb (rows best).count (rows j).count e))
  | inr e ↦ rw (best_from, e) (best_from_start rows n (j + 1) best)
]

best_from_lem :
    (rows : ℕ → Row) (n j best k : ℕ)
    → j ≤ k
    → k < j + n
    → (rows k).count ≤ (rows (best_from rows n j best)).count
unfolding best_from
best_from_lem rows zero j best k a b = absurd (omega arith)
best_from_lem rows (suc n) j best k a b =
    let next =
      λ (d : ℕ) (x : j ≢ k). best_from_lem rows n (j + 1) d k (omega arith) (omega arith) in
    elim (Bool-cases (ltb (rows best).count (rows j).count)) [
      | inl e ↦ elim (Bool-cases (j == k)) [
        | inl g ↦ rw (best_from, e, ← eq_of_== j k g) (best_from_start rows n (j + 1) j)
        | inr g ↦ rw (best_from, e) (next j (ne_of_== j k g))
      ]
      | inr e ↦ elim (Bool-cases (j == k)) [
        | inl g ↦
            rw (best_from, e, ← eq_of_== j k g)
              (omega (
                arith,
                best_from_start rows n (j + 1) best,
                le_of_ltb (rows best).count (rows j).count e,
              ))
        | inr g ↦ rw (best_from, e) (next best (ne_of_== j k g))
      ]
    ]

best_from_seen :
    (rows : ℕ → Row) (n j best : ℕ)
    → best < j
    → (best ≤ best_from rows n j best) × (best_from rows n j best < j + n)
unfolding best_from
best_from_seen rows zero j best h = (omega arith, omega arith)
best_from_seen rows (suc n) j best h = elim (Bool-cases (ltb (rows best).count (rows j).count)) [
  | inl e ↦
      let k = best_from_seen rows n (j + 1) j (omega arith) in
      rw (best_from, e) (omega (arith, k.0), omega (arith, k.1))
  | inr e ↦
      let k = best_from_seen rows n (j + 1) best (omega arith) in
      rw (best_from, e) (omega (arith, k.0), omega (arith, k.1))
]

-- The rows before `i` are in their places: no later count is higher.
abbrev pub Placed : (m i : ℕ) → (ℕ → Row) → Type 0
Placed m i rows = (a b : ℕ) → a < i → a < b → b < m → (rows b).count ≤ (rows a).count

turned_late : (i best b : ℕ) → i < b → i ≤ best → i ≤ turned i best b
turned_late i best b x y = ground arith

turned_after : (i best a b : ℕ) → a < i → a < b → i ≤ best → a < turned i best b
turned_after i best a b x y z = ground arith

-- A round of the sort, for a position `best` of a row with the highest count of those from `i` on.
place :
    (m i best : ℕ) (rows : ℕ → Row)
    → i ≤ best
    → best < m
    → ((k : ℕ) → i ≤ k → k < m → (rows k).count ≤ (rows best).count)
    → Placed m i rows
    → Placed m (i + 1) (swap_rows rows i best)
place m i best rows x y top p a b ha hab hb =
    let is = swap_rows_lem rows i best in
    let within : turned i best b < m = turned_below i best b m (omega arith) y hb in
    elim (Bool-cases (a == i)) [
      | inl e ↦
          let here : turned i best a ≡ best = ground arith in
          let after : i ≤ turned i best b =
            turned_late i best b (omega (arith, eq_of_== a i e)) x in
          rw (is a, is b, here) (top (turned i best b) after within)
      | inr e ↦
          let before : a < i = omega (arith, ne_of_== a i e) in
          let here : turned i best a ≡ a = ground arith in
          rw (is a, is b, here)
            (p a (turned i best b) before (turned_after i best a b before hab x) within)
    ]

best_of :
    (rows : ℕ → Row) (n i k : ℕ)
    → i ≤ k
    → k < i + 1 + n
    → (rows k).count ≤ (rows (best_from rows n (i + 1) i)).count
best_of rows n i k a b = elim (Bool-cases (k == i)) [
  | inl e ↦ rw (eq_of_== k i e) (best_from_start rows n (i + 1) i)
  | inr e ↦ best_from_lem rows n (i + 1) i k (omega (arith, ne_of_== k i e)) b
]

keep_placed :
    (m i : ℕ) (rows : ℕ → Row)
    → Placed m i rows
    → ((k : ℕ) → i ≤ k → k < m → (rows k).count ≤ (rows i).count)
    → Placed m (i + 1) rows
keep_placed m i rows p top a b ha hab hb = elim (Bool-cases (a == i)) [
  | inl e ↦ rw (eq_of_== a i e) (top b (omega (arith, eq_of_== a i e)) hb)
  | inr e ↦ p a b (omega (arith, ne_of_== a i e)) hab hb
]

pub sort_from_lem :
    (m : ℕ) (per_type : ℕ → ℕ) (n i : ℕ) (rows : ℕ → Row)
    → i + n ≡ m
    → IsTable m per_type rows
    → Placed m i rows
    → IsTable m per_type (sort_from n i rows) × Placed m m (sort_from n i rows)
unfolding sort_from
sort_from_lem m per_type zero i rows e t p =
    (t, subst (λ k. Placed m k rows) (sym (add-zero i) ∙ e) p)
sort_from_lem m per_type (suc n) i rows e t p =
    let best = best_from rows n (i + 1) i in
    let seen = best_from_seen rows n (i + 1) i (omega arith) in
    let top = λ (k : ℕ) (a : i ≤ k) (b : k < m). best_of rows n i k a (omega arith) in
    let same = λ (g : best == i ≡ true). keep_placed m i rows p (
      subst (λ b. (k : ℕ) → i ≤ k → k < m → (rows k).count ≤ (rows b).count) (eq_of_== best i g)
        top) in
    if_elim
      (λ (r : ℕ → Row).
        IsTable m per_type (sort_from n (i + 1) r) × Placed m m (sort_from n (i + 1) r))
      (best == i) rows (swap_rows rows i best)
      (λ g. sort_from_lem m per_type n (i + 1) rows (omega arith) t (same g))
      (λ g.
        sort_from_lem m per_type n (i + 1) (swap_rows rows i best) (omega arith)
          (swap_rows-IsTable m per_type rows i best (omega arith) (omega (arith, seen)) t)
          (place m i best rows seen.0 (omega (arith, seen)) top p))
