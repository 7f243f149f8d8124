-- ===== src/Book/Visits.antt =====
-- The visits of `OrderBook` (include/OrderBook.hpp): `for_each_order`, the best prices and
-- `clear_levels`, on a book whose two sides are lists of levels.
use itchparser.Prelude.{
  ℕ, zero, suc, ◌+◌, ◌^◌, ◌≤◌, ◌<◌, ◌≡◌, refl, true, none, some, List, [], ◌∷◌, ◌++◌, arith, ◌∙◌,
  ap, length, has, ◌==◌, Bool-cases, inl, inr, eq_of_==,
}
use itchparser.Types.{Ptr, Side, buy, sell}
use itchparser.Links.{Seg}
use itchparser.Level.{Orders}
use itchparser.Level.Queue
use itchparser.Level.Queue.{IsQueue}
use itchparser.Book.State.{Levels, Arena, OrderBook}
use itchparser.Book.LevelList.{better}
use itchparser.Book.Walks.{
  best_bid_price, best_ask_price, visit_orders, visit_levels, for_each_order,
}
use itchparser.Book.Ladder.{prev_of, next_of, Before, IsLadder}

-- The levels of a side, each with the orders of its queue.
abbrev pub Rows : Type 0
Rows = List (ℕ × List ℕ)

abbrev pub levels_of : Rows → List ℕ
levels_of [] = []
levels_of ((l, q) ∷ rows) = l ∷ levels_of rows

abbrev pub orders_of : Rows → List ℕ
orders_of [] = []
orders_of ((l, q) ∷ rows) = q ++ orders_of rows

-- Each level has its queue, of fewer than 2 ^ 32 orders.
abbrev pub Queued : Levels → Orders → Rows → Type 0
Queued ls os [] = Unit {0}
Queued ls os ((l, q) ∷ rows) = IsQueue (ls l) os q × (length q < 2 ^ 32) × Queued ls os rows

visit_orders-eq :
    (f : ℕ) (os : Orders) (b h l : Ptr) (xs : List ℕ)
    → length xs < f
    → Seg (Queue.prev_of os) (Queue.next_of os) b h l none xs
    → visit_orders f os h ≡ xs
unfolding visit_orders
visit_orders-eq zero os b h l xs lt g = absurd (omega arith)
visit_orders-eq (suc f) os b h l [] lt g = rw g.0 refl
visit_orders-eq (suc f) os b h l (x ∷ xs) lt g =
    rw g.0 (ap (λ t. x ∷ t) (visit_orders-eq f os (some x) (os x).next l xs (omega arith) g.2))

visit_levels-eq :
    (f : ℕ) (ls : Levels) (os : Orders) (b h l : Ptr) (rows : Rows)
    → length rows < f
    → Seg (prev_of ls) (next_of ls) b h l none (levels_of rows)
    → Queued ls os rows
    → visit_levels f ls os h ≡ orders_of rows
unfolding visit_levels
visit_levels-eq zero ls os b h l rows lt g qs = absurd (omega arith)
visit_levels-eq (suc f) ls os b h l [] lt g qs = rw g.0 refl
visit_levels-eq (suc f) ls os b h l ((x, q) ∷ rows) lt g qs = rw g.0 (
    ap (λ t. t ++ visit_levels f ls os (ls x).next_level)
      (visit_orders-eq ((ls x).order_count + 1) os none (ls x).head_order (ls x).tail_order q
        (omega (arith, qs.0.count, qs.1)) qs.0.links)
    ∙ ap (λ t. q ++ t)
        (visit_levels-eq f ls os (some x) (ls x).next_level l rows (omega arith) g.2 qs.2))

-- Where the two sides of a book are lists of levels, at most as many as their counts say, and each
-- level has its queue of fewer than 2 ^ 32 orders, `for_each_order` visits the orders of the bids
-- and then those of the asks, the best level first and each level from the front of its queue.
pub for_each_order_lem :
    (b : OrderBook) (m : Arena) (bids asks : Rows)
    → IsLadder buy b m.levels (levels_of bids)
    → IsLadder sell b m.levels (levels_of asks)
    → Queued m.levels m.orders bids
    → Queued m.levels m.orders asks
    → length bids ≤ b.bid_level_count
    → length asks ≤ b.ask_level_count
    → for_each_order b m ≡ orders_of bids ++ orders_of asks
unfolding for_each_order
for_each_order_lem b m bids asks vb va qb qa cb ca =
    ap (λ t. t ++ visit_levels (b.ask_level_count + 1) m.levels m.orders b.best_ask)
      (visit_levels-eq (b.bid_level_count + 1) m.levels m.orders none b.best_bid vb.last bids
        (omega arith) vb.links qb)
    ∙ ap (λ t. orders_of bids ++ t)
        (visit_levels-eq (b.ask_level_count + 1) m.levels m.orders none b.best_ask va.last asks
          (omega arith) va.links qa)

Before-all :
    (s : Side) (ls : Levels) (px y : ℕ) (xs : List ℕ)
    → Before s ls px xs
    → has y xs ≡ true
    → better s px (ls y).price_cents ≡ true
Before-all s ls px y [] b h = absurd (cc)
Before-all s ls px y (x ∷ xs) b h = elim (Bool-cases (y == x)) [
  | inl e ↦ rw (eq_of_== y x e) b.0
  | inr f ↦ Before-all s ls px y xs b.1 (ground arith)
]

bid_le :
    (b : OrderBook) (ls : Levels) (xs : List ℕ) (y : ℕ)
    → IsLadder buy b ls xs
    → has y xs ≡ true
    → (ls y).price_cents ≤ best_bid_price b ls
unfolding best_bid_price better
bid_le b ls [] y v h = absurd (cc)
bid_le b ls (x ∷ xs) y v h =
    rw (best_bid_price, v.links.0)
      (elim (Bool-cases (y == x)) [
        | inl e ↦ rw (eq_of_== y x e) (omega arith)
        | inr f ↦
            let k = Before-all buy ls (ls x).price_cents y xs v.sorted.0 (ground arith) in
            ground arith
      ])

le_ask :
    (b : OrderBook) (ls : Levels) (xs : List ℕ) (y : ℕ)
    → IsLadder sell b ls xs
    → has y xs ≡ true
    → best_ask_price b ls ≤ (ls y).price_cents
unfolding best_ask_price better
le_ask b ls [] y v h = absurd (cc)
le_ask b ls (x ∷ xs) y v h =
    rw (best_ask_price, v.links.0)
      (elim (Bool-cases (y == x)) [
        | inl e ↦ rw (eq_of_== y x e) (omega arith)
        | inr f ↦
            let k = Before-all sell ls (ls x).price_cents y xs v.sorted.0 (ground arith) in
            ground arith
      ])

-- A price is that of a level of the list, and 0 if there is none.
abbrev pub Attained : Levels → ℕ → List ℕ → Type 0
Attained ls px [] = px ≡ 0
Attained ls px (x ∷ xs) = (y : ℕ) × (has y (x ∷ xs) ≡ true) × ((ls y).price_cents ≡ px)

bid-Attained :
    (b : OrderBook) (ls : Levels) (xs : List ℕ)
    → IsLadder buy b ls xs
    → Attained ls (best_bid_price b ls) xs
unfolding best_bid_price
bid-Attained b ls [] v = rw (best_bid_price, v.links.0) refl
bid-Attained b ls (x ∷ xs) v = rw (best_bid_price, v.links.0) (x, ground arith, refl)

ask-Attained :
    (b : OrderBook) (ls : Levels) (xs : List ℕ)
    → IsLadder sell b ls xs
    → Attained ls (best_ask_price b ls) xs
unfolding best_ask_price
ask-Attained b ls [] v = rw (best_ask_price, v.links.0) refl
ask-Attained b ls (x ∷ xs) v = rw (best_ask_price, v.links.0) (x, ground arith, refl)

-- Where the two sides of a book are sorted lists of levels, `best_bid_price` is the price of a bid
-- and no bid has a price above it, `best_ask_price` is the price of an ask and no ask has one below
-- it, and on a side without levels each is 0.
pub best_prices_lem :
    (b : OrderBook) (ls : Levels) (bids asks : List ℕ)
    → IsLadder buy b ls bids
    → IsLadder sell b ls asks
    → Attained ls (best_bid_price b ls) bids
      × ((y : ℕ) → has y bids ≡ true → (ls y).price_cents ≤ best_bid_price b ls)
      × Attained ls (best_ask_price b ls) asks
      × ((y : ℕ) → has y asks ≡ true → best_ask_price b ls ≤ (ls y).price_cents)
best_prices_lem b ls bids asks vb va = (
  bid-Attained b ls bids vb,
  (λ y h. bid_le b ls bids y vb h),
  ask-Attained b ls asks va,
  (λ y h. le_ask b ls asks y va h),
)
