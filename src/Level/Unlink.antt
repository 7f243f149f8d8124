-- ===== src/Level/Unlink.antt =====
-- `unlink` and `unlink_and_deduct` of include/PriceLevel.hpp take an order out of the queue.
use itchparser.Prelude.{
  ◌↔◌, ◌<◌, Bool-cases, inl, inr, ◌-◌, ℕ, ◌+◌, ◌%◌, ◌^◌, ◌≤◌, ◌≡◌, refl, ◌≢◌, true, false, none,
  some, List, [], ◌∷◌, ◌++◌, arith, if◌then◌else◌, has, Distinct, length, length-append, ne_of_has,
  not_has-append, Distinct-parts, Distinct-drop,
}
use itchparser.Types.{PriceLevel}
use itchparser.Links.{
  Seg, points_at, redirect, Seg-append, Seg-split, Seg-retarget, Seg-rebase, Seg-points_last,
  Seg-points_first,
}
use itchparser.Level.{Orders, unlink, unlink_and_deduct, empty}
use itchparser.Level.Queue.{
  prev_of, next_of, shares, contents, IsLinked, IsQueue, shares_congr, shares-append,
}

module _ (o : ℕ) (lvl : PriceLevel) (os : Orders) where
  -- What `unlink` does to the links, slot by slot.
  module _ (p : points_at (os o).prev o ≡ false) (n : points_at (os o).next o ≡ false) where
    unlink-prev :
        (a : ℕ)
        → a ≢ o
        → prev_of (unlink o lvl os).1 a
          ≡ (if points_at (os o).next a then (os o).prev else prev_of os a)
    unfolding unlink
    unlink-prev a ne = ground arith

    unlink-next :
        (a : ℕ)
        → a ≢ o
        → next_of (unlink o lvl os).1 a
          ≡ (if points_at (os o).prev a then (os o).next else next_of os a)
    unfolding unlink
    unlink-next a ne = ground arith

    unlink-fields :
        ((unlink o lvl os).0.head_order ≡ redirect (os o).prev (os o).next lvl.head_order)
        × ((unlink o lvl os).0.tail_order ≡ redirect (os o).next (os o).prev lvl.tail_order)
        × ((unlink o lvl os).0.total_shares ≡ lvl.total_shares)
        × ((unlink o lvl os).0.order_count ≡ (lvl.order_count + 2 ^ 32 - 1) % 2 ^ 32)
    unfolding unlink
    unlink-fields = ground arith

  unlink-contents : (a : ℕ) → contents ((unlink o lvl os).1 a) ≡ contents (os a)
  unfolding unlink
  unlink-contents a = ground arith

module _ (o : ℕ) (lvl : PriceLevel) (os : Orders) (xs ys : List ℕ)
    (q : IsLinked lvl os (xs ++ o ∷ ys)) where
  -- The order at `o` has its neighbours, or null, on both sides.
  abbrev parts :
      Distinct xs
      × Distinct ys
      × (has o xs ≡ false)
      × (has o ys ≡ false)
      × ((a : ℕ) → has a xs ≡ true → has a ys ≡ false)
  parts = Distinct-parts o xs ys q.distinct

  abbrev halves :
      Seg (prev_of os) (next_of os) none lvl.head_order (os o).prev (some o) xs
      × Seg (prev_of os) (next_of os) (some o) (os o).next lvl.tail_order none ys
  halves =
      Seg-split (prev_of os) (next_of os) none lvl.head_order lvl.tail_order none xs o ys q.links

  prev-apart : (a : ℕ) → has a xs ≡ false → points_at (os o).prev a ≡ false
  prev-apart a =
      Seg-points_last (prev_of os) (next_of os) lvl.head_order (os o).prev (some o) a xs halves.0

  next-apart : (a : ℕ) → has a ys ≡ false → points_at (os o).next a ≡ false
  next-apart a =
      Seg-points_first (prev_of os) (next_of os) (some o) (os o).next lvl.tail_order a ys halves.1

  pub unlink-links :
      let r = unlink o lvl os in
      Seg (prev_of r.1) (next_of r.1) none r.0.head_order r.0.tail_order none (xs ++ ys)
  unlink-links =
      let r = unlink o lvl os in
      let (dx, dy, ox, oy, apart) = parts in
      let po = prev-apart o ox in
      let no = next-apart o oy in
      let fields = unlink-fields o lvl os po no in
      let front =
        Seg-retarget (prev_of os) (next_of os) (prev_of r.1) (next_of r.1) lvl.head_order
          (os o).prev (some o) (os o).next xs dx
          (λ a i.
            rw (unlink-prev o lvl os po no a (ne_of_has a o xs i ox), next-apart a (apart a i)))
          (λ a i. unlink-next o lvl os po no a (ne_of_has a o xs i ox)) halves.0 in
      let back =
        Seg-rebase (prev_of os) (next_of os) (prev_of r.1) (next_of r.1) (some o) (os o).prev
          (os o).next lvl.tail_order ys dy
          (λ a i.
            rw (unlink-next o lvl os po no a (ne_of_has a o ys i oy), prev-apart a (not_front a i)))
          (λ a i. unlink-prev o lvl os po no a (ne_of_has a o ys i oy)) halves.1 in
      rw (fields.0, fields.1)
        (Seg-append (prev_of r.1) (next_of r.1) none
          (redirect (os o).prev (os o).next lvl.head_order) (os o).prev (os o).next
          (redirect (os o).next (os o).prev lvl.tail_order) none xs ys front back)
    where
      not_front : (a : ℕ) → has a ys ≡ true → has a xs ≡ false
      not_front a i = elim (Bool-cases (has a xs)) [
        | inl h ↦ absurd (let f : has a ys ≡ false = parts.4 a h in cc)
        | inr h ↦ h
      ]

  -- Slots outside the queue are not touched.
  pub unlink-frame : (a : ℕ) → has a (xs ++ o ∷ ys) ≡ false → (unlink o lvl os).1 a ≡ os a
  unfolding unlink
  unlink-frame a away =
      let (not_in, rest) = not_has-append a xs (o ∷ ys) away in
      ground (
        arith,
        prev-apart a not_in,
        next-apart a (ground arith),
        prev-apart o parts.2,
        next-apart o parts.3,
      )

  pub unlink-shares :
      shares (unlink o lvl os).1 (xs ++ ys) + (os o).shares_remaining ≡ shares os (xs ++ o ∷ ys)
  unfolding shares
  unlink-shares = omega (
    arith,
    shares_congr os (unlink o lvl os).1 (xs ++ ys) (unlink-contents o lvl os),
    shares-append os xs ys,
    shares-append os xs (o ∷ ys),
  )

  pub unlink-count : (unlink o lvl os).0.order_count ≡ length (xs ++ ys) % 2 ^ 32
  unlink-count =
      let fields = unlink-fields o lvl os (prev-apart o parts.2) (next-apart o parts.3) in
      omega (arith, fields.3, q.count, length-append xs ys, length-append xs (o ∷ ys))

  pub unlink-IsLinked : IsLinked (unlink o lvl os).0 (unlink o lvl os).1 (xs ++ ys)
  unlink-IsLinked = record {
    links = unlink-links;
    distinct = Distinct-drop o xs ys q.distinct;
    count = unlink-count;
  }

  pub unlink-total : (unlink o lvl os).0.total_shares ≡ lvl.total_shares
  unlink-total = (unlink-fields o lvl os (prev-apart o parts.2) (next-apart o parts.3)).2

-- `unlink_and_deduct` takes an order of at most 2 ^ 32 shares out of the queue, wherever it stands,
-- with its shares; the others keep their order, every order keeps its contents but for the links,
-- and no slot outside the queue is touched.
pub unlink_and_deduct-IsQueue :
    (o : ℕ) (lvl : PriceLevel) (os : Orders) (xs ys : List ℕ)
    → IsQueue lvl os (xs ++ o ∷ ys)
    → (os o).shares_remaining ≤ 2 ^ 32
    → IsQueue (unlink_and_deduct o lvl os).0 (unlink_and_deduct o lvl os).1 (xs ++ ys)
      × ((a : ℕ) → contents ((unlink_and_deduct o lvl os).1 a) ≡ contents (os a))
      × ((a : ℕ) → has a (xs ++ o ∷ ys) ≡ false → (unlink_and_deduct o lvl os).1 a ≡ os a)
unfolding unlink_and_deduct
unlink_and_deduct-IsQueue o lvl os xs ys q small =
    let lvl₁ = record lvl {
      total_shares = (lvl.total_shares + 2 ^ 64 - (os o).shares_remaining) % 2 ^ 64;
    } in
    let linked : IsLinked lvl₁ os (xs ++ o ∷ ys) = record {
      links = q.links;
      distinct = q.distinct;
      count = q.count;
    } in
    (
      record {
        linked = unlink-IsLinked o lvl₁ os xs ys linked;
        total = omega (
          arith,
          unlink-total o lvl₁ os xs ys linked,
          unlink-shares o lvl₁ os xs ys linked,
          q.total,
        );
      },
      unlink-contents o lvl₁ os,
      unlink-frame o lvl₁ os xs ys linked,
    )

-- A level with fewer than 2 ^ 32 orders in its queue tests as empty exactly when there is none.
pub empty_iff :
    (lvl : PriceLevel) (os : Orders) (xs : List ℕ)
    → IsQueue lvl os xs
    → length xs < 2 ^ 32
    → (empty lvl ≡ true) ↔ (xs ≡ [])
unfolding empty
empty_iff lvl os [] q small = ((λ _. refl), (λ _. ground (arith, q.count)))
empty_iff lvl os (x ∷ xs) q small = ((λ h. absurd (ground (arith, q.count))), (λ h. absurd (cc)))
