-- ===== src/Book/Side/Filling.antt =====
-- `execute_order` of include/OrderBook.hpp on the map and the list of the order's side.
use itchparser.Prelude.{
  leb, sub64, Bool, ℕ, ◌<◌, ◌^◌, ◌≡◌, ◌≢◌, arith, refl, sym, ap, ◌∙◌, subst, true, false, List, ◌∷◌,
  ◌++◌, length, has, some, none, ◌==◌, update, if◌then◌else◌, Bool-cases, Option-cases, inl, inr,
}
use itchparser.Types.{Ptr, Order, PriceLevel}
use itchparser.Level.{empty}
use itchparser.Book.State.{Levels, Arena, OrderBook, k_price_level_map_capacity, k_empty_price}
use itchparser.Book.Orders.{drop_if_empty}
use itchparser.Book.Side.{side_map, level_at, IsSide}
use itchparser.Book.Side.Removal.{drop_if_empty-IsSide}
use itchparser.Level.{Orders, unlink}
use itchparser.Book.Orders.{
  FillResult, level_missing, partial, filled, filled_last, fill_at, execute_order,
}
use itchparser.Types.{reduce}
use itchparser.Book.Side.Writes.{
  update_here, has-middle, left_book, left_arena, left-skeleton, left-free, same_book-IsSide,
  left-IsSide, unlink-skeleton, level_at-split,
}

cut-empty :
    (o : ℕ) (v : PriceLevel) (os : Orders)
    → v.order_count < 2 ^ 32
    → empty (unlink o v os).0 ≡ (v.order_count == 1)
unfolding unlink empty
cut-empty o v os few = ground arith

reduce-all : (qty : ℕ) (ord : Order) → (reduce qty ord).0 ≡ leb ord.shares_remaining qty
unfolding reduce
reduce-all qty ord = ground arith

-- What `execute_order` makes of the list of levels on the side of the order, where the list has the
-- level `found` for the order's price, if any, and `all` says that no shares of the order are left.
abbrev pub Filled : (found : Ptr) → (all : Bool) → Levels → FillResult → (xs ys : List ℕ) → Type 0
Filled none all ls r xs ys = (r ≡ level_missing) × (ys ≡ xs)
Filled (some l) false ls r xs ys = (r ≡ partial) × (ys ≡ xs)
Filled (some l) true ls r xs ys =
    (r ≡ (if (ls l).order_count == 1 then filled_last else filled))
    × (hs : List ℕ) × (ts : List ℕ) × (xs ≡ hs ++ l ∷ ts)
    × (ys ≡ (if (ls l).order_count == 1 then hs ++ ts else xs))

module _ (o qty e : ℕ) (b : OrderBook) (m : Arena) (xs : List ℕ) where
  abbrev Outcome : (l : ℕ) → Bool → FillResult × (OrderBook × Arena) → Type 0
  Outcome l all r =
      (ys : List ℕ) × IsSide (m.orders o).side r.1.0 r.1.1.levels ys
      × Filled (some l) all m.levels r.0 xs ys

  settle :
      (l : ℕ) (hs ts : List ℕ) (d : Bool × (OrderBook × Arena)) (v : Bool)
      → xs ≡ hs ++ l ∷ ts
      → (m.levels l).order_count == 1 ≡ v
      → d.0 ≡ v
      → IsSide (m.orders o).side d.1.0 d.1.1.levels (if v then hs ++ ts else hs ++ l ∷ ts)
      → Outcome l true (if d.0 then filled_last else filled, d.1)
  settle l hs ts d true whole one h side = rw (h, one) (hs ++ ts, side, (refl, hs, ts, whole, refl))
  settle l hs ts d false whole one h side =
      rw (h, one) (hs ++ l ∷ ts, side, (refl, hs, ts, whole, sym whole))

  fill_at-IsSide :
      (l : ℕ) (hs ts : List ℕ)
      → IsSide (m.orders o).side b m.levels xs
      → xs ≡ hs ++ l ∷ ts
      → (m.levels l).price_cents ≢ k_empty_price
      → e < k_price_level_map_capacity
      → (side_map (m.orders o).side b).keys e ≡ k_empty_price
      → length xs < 2 ^ 64
      → (m.levels l).order_count < 2 ^ 32
      → Outcome l (reduce qty (m.orders o)).0 (fill_at o qty l b m)
  unfolding fill_at
  fill_at-IsSide l hs ts side whole ne le free few small =
      let ord = m.orders o in
      let s = ord.side in
      let done = if leb ord.shares_remaining qty then ord.shares_remaining else qty in
      let v : PriceLevel = record (m.levels l) {
        total_shares = sub64 (m.levels l).total_shares done;
      } in
      let os = update m.orders o (reduce qty ord).1 in
      elim (Bool-cases (reduce qty ord).0) [
        | inr h ↦ rw (fill_at, h) (xs, same_book-IsSide l b m v os refl s xs side, (refl, refl))
        | inl h ↦
            let cut = unlink o v os in
            let same = unlink-skeleton o v os in
            let bk = left_book l b m cut.0 cut.1 same in
            let ar = left_arena l b m cut.0 cut.1 same in
            let side' : IsSide s bk ar.levels (hs ++ l ∷ ts) =
              subst (λ ys. IsSide s bk ar.levels ys) whole
                (left-IsSide l b m cut.0 cut.1 same s xs side) in
            let ne' : (ar.levels l).price_cents ≢ k_empty_price =
              λ z. ne (sym (ap (λ k. k.0) (left-skeleton l b m cut.0 cut.1 same l)) ∙ z) in
            let r =
              drop_if_empty-IsSide s l e bk ar hs ts side' ne' le
                (left-free l b m cut.0 cut.1 same s e free)
                (subst (λ ys. length ys < 2 ^ 64) whole few) in
            let one : (m.levels l).order_count == 1 ≡ empty (ar.levels l) =
              sym (ap empty (update_here m.levels l cut.0) ∙ cut-empty o v os small) in
            rw (fill_at, h)
              (settle l hs ts (drop_if_empty s l bk ar) (empty (ar.levels l)) whole one r.0 r.1)
      ]

  -- Where the map of the order's side and its list of levels say the same, the map has a free
  -- slot, the price is not the mark of one, the list is not too long to count and each level of it
  -- counts fewer than 2 ^ 32 orders, `execute_order` keeps that so for every quantity. Without a
  -- level of the order's price in the list it finds nothing and the list is as it was. If the
  -- quantity is at least what is left of the order and that level counts one order, it leaves the
  -- map and the list, which keeps the others in their order, and otherwise the list is as it was.
  -- The result says which.
  pub execute_order-IsSide :
      IsSide (m.orders o).side b m.levels xs
      → (m.orders o).price_cents ≢ k_empty_price
      → e < k_price_level_map_capacity
      → (side_map (m.orders o).side b).keys e ≡ k_empty_price
      → length xs < 2 ^ 64
      → ((a : ℕ) → has a xs ≡ true → (m.levels a).order_count < 2 ^ 32)
      → (ys : List ℕ) × IsSide
          (m.orders o).side
          (execute_order o qty b m).1.0
          (execute_order o qty b m).1.1.levels
          ys
        × Filled
            (level_at m.levels (m.orders o).price_cents xs)
            (leb (m.orders o).shares_remaining qty)
            m.levels
            (execute_order o qty b m).0
            xs
            ys
  unfolding execute_order
  execute_order-IsSide side ne le free few small =
      let s = (m.orders o).side in
      let px = (m.orders o).price_cents in
      elim (Option-cases (level_at m.levels px xs)) [
        | inl h ↦ rw (execute_order, side.found px ne, h) (xs, side, (refl, refl))
        | inr (l, h) ↦
            let (hs, ts, whole, price) = level_at-split m.levels px l xs h in
            rw (execute_order, side.found px ne, h)
              (subst (λ all. Outcome l all (fill_at o qty l b m)) (reduce-all qty (m.orders o))
                (fill_at-IsSide l hs ts side whole (λ z. ne (sym price ∙ z)) le free few
                  (small l (ap (has l) whole ∙ has-middle l hs ts))))
      ]
