-- ===== src/Book/Fills.antt =====
-- What `execute_order` of include/OrderBook.hpp does to the queue of the level that it finds.
use itchparser.Prelude.{
  ℕ, ◌+◌, ◌-◌, ◌^◌, ◌≤◌, ◌<◌, ◌≡◌, refl, Bool, true, false, none, List, [], ◌∷◌, ◌++◌, arith, ◌∙◌,
  ap, length, length-append, has, Distinct, Distinct-parts, update, if◌then◌else◌, leb, sub64,
  dec64, ==_refl, ==_ne, ◌≢◌,
}
use itchparser.Types.{Side, Order, PriceLevel, reduce}
use itchparser.Links.{Seg-frame}
use itchparser.Level.{Orders, unlink, empty}
use itchparser.Level.Queue.{prev_of, next_of, shares, IsLinked, IsQueue, shares-append}
use itchparser.Level.Unlink.{unlink-IsLinked, unlink-total, unlink-shares}
use itchparser.Book.State.{Arena, OrderBook}
use itchparser.Book.Side.{skeleton}
use itchparser.Book.Side.Writes.{unlink-skeleton}
use itchparser.Book.Orders.{partial, filled, filled_last, fill_at, drop_if_empty}

shares-update :
    (os : Orders) (o : ℕ) (v : Order) (xs : List ℕ)
    → has o xs ≡ false
    → shares (update os o v) xs ≡ shares os xs
unfolding shares
shares-update os o v [] out = refl
shares-update os o v (x ∷ xs) out = ground (arith, shares-update os o v xs)

module _ (o n : ℕ) (os : Orders) (xs ys : List ℕ) where
  -- The orders after the order at `o` was left with `n` shares.
  abbrev left : Orders
  left = update os o (record (os o) { shares_remaining = n })

  left-shares :
      Distinct (xs ++ o ∷ ys)
      → shares left (xs ++ o ∷ ys) + (os o).shares_remaining ≡ shares os (xs ++ o ∷ ys) + n
  unfolding shares
  left-shares d =
      let (dx, dy, ox, oy, apart) = Distinct-parts o xs ys d in
      let v = record (os o) { shares_remaining = n } in
      let self : (left o).shares_remaining ≡ n = ground arith in
      omega (
        arith,
        self,
        shares-append os xs (o ∷ ys),
        shares-append left xs (o ∷ ys),
        shares-update os o v xs ox,
        shares-update os o v ys oy,
      )

  left-IsLinked :
      (lvl lvl' : PriceLevel)
      → lvl'.head_order ≡ lvl.head_order
      → lvl'.tail_order ≡ lvl.tail_order
      → lvl'.order_count ≡ lvl.order_count
      → IsLinked lvl os (xs ++ o ∷ ys)
      → IsLinked lvl' left (xs ++ o ∷ ys)
  left-IsLinked lvl lvl' h t c q = record {
    links =
        rw (h, t)
          (Seg-frame (prev_of os) (next_of os) (prev_of left) (next_of left) none lvl.head_order
            lvl.tail_order none (xs ++ o ∷ ys) (λ a i. (ground arith, ground arith)) q.links);
    distinct = q.distinct;
    count = rw c q.count;
  }

-- A fill of fewer shares than the order has, which has fewer than 2 ^ 32, leaves the order in its
-- place in the queue of its level with the rest of its shares, and the level's total is that of
-- its queue.
pub fill_at-IsQueue-partial :
    (o qty l : ℕ) (b : OrderBook) (m : Arena) (xs ys : List ℕ)
    → IsQueue (m.levels l) m.orders (xs ++ o ∷ ys)
    → (m.orders o).shares_remaining < 2 ^ 32
    → qty < (m.orders o).shares_remaining
    → let r = fill_at o qty l b m in
      (r.0 ≡ partial)
      × IsQueue (r.1.1.levels l) r.1.1.orders (xs ++ o ∷ ys)
      × ((r.1.1.orders o).shares_remaining + qty ≡ (m.orders o).shares_remaining)
unfolding fill_at reduce
fill_at-IsQueue-partial o qty l b m xs ys q small less =
    let r = fill_at o qty l b m in
    let n = (m.orders o).shares_remaining - qty in
    let os : (r.1.1.orders) ≡ left o n m.orders xs ys = ground arith in
    let lvl : r.1.1.levels l
        ≡ record (m.levels l) { total_shares = sub64 (m.levels l).total_shares qty } =
      ground arith in
    let s = left-shares o n m.orders xs ys q.distinct in
    (
      ground arith,
      rw (os, lvl)
          (record {
            linked = left-IsLinked o n m.orders xs ys (m.levels l) _ refl refl refl q.linked;
            total = omega (arith, s, q.total);
          }),
      ground arith,
    )

-- The level without the shares of the order, as the fill leaves it before `unlink`.
abbrev deducted : ℕ → PriceLevel → Orders → PriceLevel
deducted o lvl os = record lvl { total_shares = sub64 lvl.total_shares (os o).shares_remaining }

module _ (o : ℕ) (lvl : PriceLevel) (os : Orders) (xs ys : List ℕ) where
  -- `unlink` of an order that has no shares left.
  unlink-filled :
      IsQueue lvl os (xs ++ o ∷ ys)
      → (os o).shares_remaining < 2 ^ 32
      → let r = unlink o (deducted o lvl os) (left o 0 os xs ys) in IsQueue r.0 r.1 (xs ++ ys)
  unlink-filled q small =
      let lvl₁ = deducted o lvl os in
      let os₁ = left o 0 os xs ys in
      let linked : IsLinked lvl₁ os₁ (xs ++ o ∷ ys) =
        left-IsLinked o 0 os xs ys lvl lvl₁ refl refl refl q.linked in
      let none_left : (os₁ o).shares_remaining ≡ 0 = ground arith in
      record {
        linked = unlink-IsLinked o lvl₁ os₁ xs ys linked;
        total = omega (
          arith,
          q.total,
          none_left,
          left-shares o 0 os xs ys q.distinct,
          unlink-shares o lvl₁ os₁ xs ys linked,
          unlink-total o lvl₁ os₁ xs ys linked,
        );
      }

some_left :
    (lvl : PriceLevel) (os : Orders) (xs : List ℕ)
    → IsQueue lvl os xs
    → length xs < 2 ^ 32
    → 0 < length xs
    → empty lvl ≡ false
unfolding empty
some_left lvl os xs q few more = ground (arith, q.count)

drop_if_empty-stays :
    (s : Side) (l : ℕ) (b : OrderBook) (m : Arena)
    → empty (m.levels l) ≡ false
    → drop_if_empty s l b m ≡ (false, (b, m))
unfolding drop_if_empty
drop_if_empty-stays s l b m keep = rw (drop_if_empty, keep) refl

fill_at-all :
    (o qty l : ℕ) (b : OrderBook) (m : Arena)
    → leb (m.orders o).shares_remaining qty ≡ true
    → let cut =
        unlink o
          (deducted o (m.levels l) m.orders)
          (update m.orders o (record (m.orders o) { shares_remaining = 0 })) in
      let d =
        drop_if_empty
          (m.orders o).side
          l
          (record b { live_order_count = dec64 b.live_order_count })
          (record m { orders = cut.1; levels = update m.levels l cut.0 }) in
      fill_at o qty l b m ≡ (if d.0 then filled_last else filled, d.1)
unfolding fill_at
fill_at-all o qty l b m test = rw (fill_at, test) refl

-- A full fill of an order in a level that stays.
fill_at-stays :
    (o qty l : ℕ) (b : OrderBook) (m : Arena) (xs ys : List ℕ)
    → (m.orders o).shares_remaining ≤ qty
    → let cut = unlink o (deducted o (m.levels l) m.orders) (left o 0 m.orders xs ys) in
      empty cut.0 ≡ false
      → fill_at o qty l b m ≡ (
        filled,
        (
          record b { live_order_count = dec64 b.live_order_count },
          record m { orders = cut.1; levels = update m.levels l cut.0 },
        ),
      )
fill_at-stays o qty l b m xs ys all keep =
    let test : leb (m.orders o).shares_remaining qty ≡ true = ground arith in
    let cut = unlink o (deducted o (m.levels l) m.orders) (left o 0 m.orders xs ys) in
    let b₁ : OrderBook = record b { live_order_count = dec64 b.live_order_count } in
    let m₁ : Arena = record m { orders = cut.1; levels = update m.levels l cut.0 } in
    let s = (m.orders o).side in
    let here : update m.levels l cut.0 l ≡ cut.0 =
      ap (λ c. if c then cut.0 else m.levels l) (==_refl l) in
    let d : Bool × (OrderBook × Arena) = drop_if_empty s l b₁ m₁ in
    let start : fill_at o qty l b m ≡ (if d.0 then filled_last else filled, d.1) =
      fill_at-all o qty l b m test in
    start
    ∙ ap (λ (d : Bool × (OrderBook × Arena)). (if d.0 then filled_last else filled, d.1))
        (drop_if_empty-stays s l b₁ m₁ (ap empty here ∙ keep))

-- A fill of all the shares of an order, which has fewer than 2 ^ 32, in a level with other orders,
-- of fewer than 2 ^ 32 in all, takes the order out of the queue, wherever it stands: the others keep
-- their order, and the level's total is that of the queue that is left. The maps, the lists and the
-- counts of levels and the level pool stay as they were, as do the price and the links of each level
-- and every other level, and the book counts one order less.
pub fill_at-IsQueue-filled :
    (o qty l : ℕ) (b : OrderBook) (m : Arena) (xs ys : List ℕ)
    → IsQueue (m.levels l) m.orders (xs ++ o ∷ ys)
    → (m.orders o).shares_remaining < 2 ^ 32
    → length (xs ++ o ∷ ys) < 2 ^ 32
    → 0 < length (xs ++ ys)
    → (m.orders o).shares_remaining ≤ qty
    → let r = fill_at o qty l b m in
      (r.0 ≡ filled)
      × IsQueue (r.1.1.levels l) r.1.1.orders (xs ++ ys)
      × (r.1.0 ≡ record b { live_order_count = dec64 b.live_order_count })
      × (r.1.1.level_pool ≡ m.level_pool)
      × (skeleton (r.1.1.levels l) ≡ skeleton (m.levels l))
      × ((a : ℕ) → a ≢ l → r.1.1.levels a ≡ m.levels a)
fill_at-IsQueue-filled o qty l b m xs ys q small few more all =
    let os = m.orders in
    let cut = unlink o (deducted o (m.levels l) os) (left o 0 os xs ys) in
    let rest : IsQueue cut.0 cut.1 (xs ++ ys) = unlink-filled o (m.levels l) os xs ys q small in
    let keep : empty cut.0 ≡ false =
      some_left cut.0 cut.1 (xs ++ ys) rest
        (omega (arith, length-append xs ys, length-append xs (o ∷ ys))) more in
    let here : update m.levels l cut.0 l ≡ cut.0 =
      ap (λ c. if c then cut.0 else m.levels l) (==_refl l) in
    rw (fill_at-stays o qty l b m xs ys all keep) (
      refl,
      rw here rest,
      refl,
      refl,
      ap skeleton here ∙ unlink-skeleton o (deducted o (m.levels l) os) (left o 0 os xs ys),
      λ a ne. rw (==_ne a l ne) refl,
    )
