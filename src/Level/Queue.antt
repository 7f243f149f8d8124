-- ===== src/Level/Queue.antt =====
-- A price level stands for the queue of its orders, oldest first: `push_back` and the unlinking
-- methods of include/PriceLevel.hpp as operations on that queue.
use itchparser.Prelude.{
  ℕ, ◌+◌, ◌%◌, ◌^◌, ◌≡◌, refl, ◌≢◌, true, false, none, some, List, [], ◌∷◌, ◌++◌, arith,
  if◌then◌else◌, has, Distinct, length, length-append, has-append, ne_of_has, not_has-append, ap,
}
use itchparser.Types.{Ptr, Order, PriceLevel}
use itchparser.Links.{Seg, points_at, redirect, Seg-append, Seg-retarget, Seg-points_last}
use itchparser.Level.{Orders, push_back}

abbrev pub prev_of : Orders → ℕ → Ptr
prev_of os a = (os a).prev

abbrev pub next_of : Orders → ℕ → Ptr
next_of os a = (os a).next

unfoldable pub shares : Orders → List ℕ → ℕ
shares os [] = 0
shares os (x ∷ xs) = (os x).shares_remaining + shares os xs

-- An order without its links.
abbrev pub contents : Order → Order
contents o = record o { next = none; prev = none }

-- The list that runs through the orders `xs`, and its length.
pub record IsLinked (lvl : PriceLevel) (os : Orders) (xs : List ℕ) : Type 0 where
  pub links : Seg (prev_of os) (next_of os) none lvl.head_order lvl.tail_order none xs
  pub distinct : Distinct xs
  pub count : lvl.order_count ≡ length xs % 2 ^ 32

pub record IsQueue (lvl : PriceLevel) (os : Orders) (xs : List ℕ) : Type 0 where
  pub linked : IsLinked lvl os xs
  pub open linked use *
  pub total : lvl.total_shares ≡ shares os xs % 2 ^ 64

pub shares_congr :
    (os os' : Orders) (xs : List ℕ)
    → ((a : ℕ) → contents (os' a) ≡ contents (os a))
    → shares os' xs ≡ shares os xs
unfolding shares
shares_congr os os' [] same = refl
shares_congr os os' (x ∷ xs) same =
    let e : (os' x).shares_remaining ≡ (os x).shares_remaining =
      ap (λ o. o.shares_remaining) (same x) in
    omega (arith, shares_congr os os' xs same)

pub shares-append :
    (os : Orders) (xs ys : List ℕ) → shares os (xs ++ ys) ≡ shares os xs + shares os ys
unfolding shares
shares-append os [] ys = omega arith
shares-append os (x ∷ xs) ys = omega (arith, shares-append os xs ys)

Distinct-snoc : (xs : List ℕ) (o : ℕ) → Distinct xs → has o xs ≡ false → Distinct (xs ++ o ∷ [])
Distinct-snoc [] o d h = (refl, tt)
Distinct-snoc (x ∷ xs) o d h =
    (ground (arith, has-append x xs (o ∷ [])), Distinct-snoc xs o d.1 (ground arith))

-- `push_back` changes links only.
push_back-contents :
    (o : ℕ) (lvl : PriceLevel) (os : Orders) (a : ℕ)
    → contents ((push_back o lvl os).1 a) ≡ contents (os a)
unfolding push_back
push_back-contents o lvl os a = ground arith

push_back-frame :
    (o : ℕ) (lvl : PriceLevel) (os : Orders) (a : ℕ)
    → a ≢ o
    → points_at lvl.tail_order a ≡ false
    → (push_back o lvl os).1 a ≡ os a
unfolding push_back
push_back-frame o lvl os a = ground arith

module _ (o : ℕ) (lvl : PriceLevel) (os : Orders) where
  push_back-prev : (a : ℕ) → a ≢ o → prev_of (push_back o lvl os).1 a ≡ prev_of os a
  unfolding push_back
  push_back-prev a ne = ground arith

  push_back-next :
      (a : ℕ)
      → a ≢ o
      → next_of (push_back o lvl os).1 a
        ≡ (if points_at lvl.tail_order a then some o else next_of os a)
  unfolding push_back
  push_back-next a ne = ground arith

  push_back_self :
      points_at lvl.tail_order o ≡ false
      → (prev_of (push_back o lvl os).1 o ≡ lvl.tail_order)
        × (next_of (push_back o lvl os).1 o ≡ none)
  unfolding push_back
  push_back_self h = ground arith

  push_back-fields :
      ((push_back o lvl os).0.head_order ≡ redirect lvl.tail_order (some o) lvl.head_order)
      × ((push_back o lvl os).0.tail_order ≡ some o)
      × ((push_back o lvl os).0.total_shares
          ≡ (lvl.total_shares + (os o).shares_remaining) % 2 ^ 64)
      × ((push_back o lvl os).0.order_count ≡ (lvl.order_count + 1) % 2 ^ 32)
  unfolding push_back
  push_back-fields = ground arith

  push_back-links :
      (xs : List ℕ)
      → IsQueue lvl os xs
      → has o xs ≡ false
      → let r = push_back o lvl os in
        Seg (prev_of r.1) (next_of r.1) none r.0.head_order r.0.tail_order none (xs ++ o ∷ [])
  push_back-links xs q out =
      let r = push_back o lvl os in
      let away =
        Seg-points_last (prev_of os) (next_of os) lvl.head_order lvl.tail_order none o xs q.links
          out in
      let apart : (a : ℕ) → has a xs ≡ true → a ≢ o = λ a i. ne_of_has a o xs i out in
      let front =
        Seg-retarget (prev_of os) (next_of os) (prev_of r.1) (next_of r.1) lvl.head_order
          lvl.tail_order none (some o) xs q.distinct (λ a i. push_back-prev a (apart a i))
          (λ a i. push_back-next a (apart a i)) q.links in
      let self = push_back_self away in
      rw (push_back-fields.0, push_back-fields.1)
        (Seg-append (prev_of r.1) (next_of r.1) none
          (redirect lvl.tail_order (some o) lvl.head_order) lvl.tail_order (some o) (some o) none xs
          (o ∷ []) front (refl, self.0, (self.1, refl)))

-- `push_back` appends an order that is not yet in the queue, with its shares and its place in the
-- count; every order keeps its contents but for the links, and the orders outside the new queue are
-- not touched.
pub push_back-IsQueue :
    (o : ℕ) (lvl : PriceLevel) (os : Orders) (xs : List ℕ)
    → IsQueue lvl os xs
    → has o xs ≡ false
    → IsQueue (push_back o lvl os).0 (push_back o lvl os).1 (xs ++ o ∷ [])
      × ((a : ℕ) → contents ((push_back o lvl os).1 a) ≡ contents (os a))
      × ((a : ℕ) → has a (xs ++ o ∷ []) ≡ false → (push_back o lvl os).1 a ≡ os a)
unfolding shares
push_back-IsQueue o lvl os xs q out =
    let r = push_back o lvl os in
    let fields = push_back-fields o lvl os in
    let same = push_back-contents o lvl os in
    (
      record {
        linked = record {
          links = push_back-links o lvl os xs q out;
          distinct = Distinct-snoc xs o q.distinct out;
          count = omega (arith, fields.3, q.count, length-append xs (o ∷ []));
        };
        total = omega (
          arith,
          fields.2,
          shares-append r.1 xs (o ∷ []),
          shares_congr os r.1 xs same,
          ap (λ x. x.shares_remaining) (same o),
        );
      },
      same,
      λ a away.
          let (not_in, not_o) = not_has-append a xs (o ∷ []) away in
          push_back-frame o lvl os a (ground arith) (
            Seg-points_last (prev_of os) (next_of os) lvl.head_order lvl.tail_order none a xs
              q.links not_in),
    )
