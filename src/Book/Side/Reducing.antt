-- ===== src/Book/Side/Reducing.antt =====
-- `remove_order` of include/OrderBook.hpp on the map and the list of the order's side.
use itchparser.Prelude.{
  Bool, ℕ, ◌<◌, ◌^◌, ◌≡◌, ◌≢◌, refl, sym, ap, ◌∙◌, subst, arith, true, false, List, ◌∷◌, ◌++◌,
  length, has, some, none, ◌==◌, if◌then◌else◌, Option-cases, inl, inr,
}
use itchparser.Types.{Ptr, PriceLevel}
use itchparser.Level.{empty}
use itchparser.Book.State.{Levels, Arena, OrderBook, k_price_level_map_capacity, k_empty_price}
use itchparser.Book.Orders.{drop_if_empty}
use itchparser.Book.Side.{side_map, level_at, IsSide, skeleton}
use itchparser.Book.Side.Removal.{drop_if_empty-IsSide}
use itchparser.Level.{Orders, unlink, unlink_and_deduct}
use itchparser.Book.Orders.{RemoveResult, not_found, removed, removed_last, remove_at, remove_order}
use itchparser.Book.Side.Writes.{
  update_here, has-middle, left_book, left_arena, left-skeleton, left-free, left-IsSide,
  level_at-split,
}

cut-side :
    (o : ℕ) (v : PriceLevel) (os : Orders) → ((unlink_and_deduct o v os).1 o).side ≡ (os o).side
unfolding unlink_and_deduct unlink
cut-side o v os = ground arith

cut-skeleton :
    (o : ℕ) (v : PriceLevel) (os : Orders) → skeleton (unlink_and_deduct o v os).0 ≡ skeleton v
unfolding unlink_and_deduct unlink
cut-skeleton o v os = ground arith

cut-empty :
    (o : ℕ) (v : PriceLevel) (os : Orders)
    → v.order_count < 2 ^ 32
    → empty (unlink_and_deduct o v os).0 ≡ (v.order_count == 1)
unfolding unlink_and_deduct unlink empty
cut-empty o v os few = ground arith

-- What `remove_order` makes of the list of levels on the side of the order, where the list has the
-- level `found` for the order's price, if any.
abbrev pub Shrunk : (found : Ptr) → Levels → RemoveResult → (xs ys : List ℕ) → Type 0
Shrunk none ls r xs ys = (r ≡ not_found) × (ys ≡ xs)
Shrunk (some l) ls r xs ys =
    (r ≡ (if (ls l).order_count == 1 then removed_last else removed))
    × (hs : List ℕ) × (ts : List ℕ) × (xs ≡ hs ++ l ∷ ts)
    × (ys ≡ (if (ls l).order_count == 1 then hs ++ ts else xs))

module _ (o e : ℕ) (b : OrderBook) (m : Arena) (xs : List ℕ) where
  -- What holds behind `drop_if_empty`, at the level `l`.
  abbrev Outcome : (l : ℕ) → Bool × (OrderBook × Arena) → Type 0
  Outcome l d =
      (ys : List ℕ) × IsSide (m.orders o).side d.1.0 d.1.1.levels ys
      × Shrunk (some l) m.levels (if d.0 then removed_last else removed) xs ys

  settle :
      (l : ℕ) (hs ts : List ℕ) (d : Bool × (OrderBook × Arena)) (v : Bool)
      → xs ≡ hs ++ l ∷ ts
      → (m.levels l).order_count == 1 ≡ v
      → d.0 ≡ v
      → IsSide (m.orders o).side d.1.0 d.1.1.levels (if v then hs ++ ts else hs ++ l ∷ ts)
      → Outcome l d
  settle l hs ts d true whole one h side = rw (h, one) (hs ++ ts, side, (refl, hs, ts, whole, refl))
  settle l hs ts d false whole one h side =
      rw (h, one) (hs ++ l ∷ ts, side, (refl, hs, ts, whole, sym whole))

  remove_at-IsSide :
      (l : ℕ) (hs ts : List ℕ)
      → IsSide (m.orders o).side b m.levels xs
      → xs ≡ hs ++ l ∷ ts
      → (m.levels l).price_cents ≢ k_empty_price
      → e < k_price_level_map_capacity
      → (side_map (m.orders o).side b).keys e ≡ k_empty_price
      → length xs < 2 ^ 64
      → (m.levels l).order_count < 2 ^ 32
      → (ys : List ℕ) × IsSide
          (m.orders o).side
          (remove_at o l b m).1.0
          (remove_at o l b m).1.1.levels
          ys
        × Shrunk (some l) m.levels (remove_at o l b m).0 xs ys
  unfolding remove_at
  remove_at-IsSide l hs ts side whole ne le free few small =
      let s = (m.orders o).side in
      let cut = unlink_and_deduct o (m.levels l) m.orders in
      let same = cut-skeleton o (m.levels l) m.orders in
      let bk = left_book l b m cut.0 cut.1 same in
      let ar = left_arena l b m cut.0 cut.1 same in
      let side' : IsSide s bk ar.levels (hs ++ l ∷ ts) =
        subst (λ ys. IsSide s bk ar.levels ys) whole
          (left-IsSide l b m cut.0 cut.1 same s xs side) in
      let ne' : (ar.levels l).price_cents ≢ k_empty_price =
        λ z. ne (sym (ap (λ k. k.0) (left-skeleton l b m cut.0 cut.1 same l)) ∙ z) in
      let r =
        drop_if_empty-IsSide s l e bk ar hs ts side' ne' le
          (left-free l b m cut.0 cut.1 same s e free)
          (subst (λ ys. length ys < 2 ^ 64) whole few) in
      let one : (m.levels l).order_count == 1 ≡ empty (ar.levels l) =
        sym (ap empty (update_here m.levels l cut.0) ∙ cut-empty o (m.levels l) m.orders small) in
      subst (λ σ. Outcome l (drop_if_empty σ l bk ar)) (sym (cut-side o (m.levels l) m.orders))
        (settle l hs ts (drop_if_empty s l bk ar) (empty (ar.levels l)) whole one r.0 r.1)

  -- Where the map of the order's side and its list of levels say the same, the map has a free
  -- slot, the price is not the mark of one, the list is not too long to count and each level of it
  -- counts fewer than 2 ^ 32 orders, `remove_order` keeps that so. Without a level of the order's
  -- price in the list it finds nothing and the list is as it was. If that level counts one order, it
  -- leaves the map and the list, which keeps the others in their order, and otherwise the list is
  -- as it was. The result says which.
  pub remove_order-IsSide :
      IsSide (m.orders o).side b m.levels xs
      → (m.orders o).price_cents ≢ k_empty_price
      → e < k_price_level_map_capacity
      → (side_map (m.orders o).side b).keys e ≡ k_empty_price
      → length xs < 2 ^ 64
      → ((a : ℕ) → has a xs ≡ true → (m.levels a).order_count < 2 ^ 32)
      → (ys : List ℕ) × IsSide
          (m.orders o).side
          (remove_order o b m).1.0
          (remove_order o b m).1.1.levels
          ys
        × Shrunk
            (level_at m.levels (m.orders o).price_cents xs)
            m.levels
            (remove_order o b m).0
            xs
            ys
  unfolding remove_order
  remove_order-IsSide side ne le free few small =
      let s = (m.orders o).side in
      let px = (m.orders o).price_cents in
      elim (Option-cases (level_at m.levels px xs)) [
        | inl h ↦ rw (remove_order, side.found px ne, h) (xs, side, (refl, refl))
        | inr (l, h) ↦
            let (hs, ts, whole, price) = level_at-split m.levels px l xs h in
            rw (remove_order, side.found px ne, h)
              (remove_at-IsSide l hs ts side whole (λ z. ne (sym price ∙ z)) le free few
                (small l (ap (has l) whole ∙ has-middle l hs ts)))
      ]
