-- ===== src/Book/Clearing.antt =====
-- `clear_levels` of `OrderBook` (include/OrderBook.hpp) against the pool of levels.
use itchparser.Prelude.{
  ℕ, zero, suc, ◌+◌, ◌≤◌, ◌<◌, ◌≡◌, refl, sym, true, false, none, some, List, [], ◌∷◌, ◌++◌, arith,
  ap, length, has, Distinct,
}
use itchparser.Types.{Ptr, Side, buy, sell}
use itchparser.Links.{Seg}
use itchparser.Pool.{MemoryPool, release}
use itchparser.Pool.Ownership.{Owns, remove, release-Owns, has-remove}
use itchparser.FlatMap
use itchparser.FlatMap.Probe.{find-absent}
use itchparser.Book.State.{
  Levels, Arena, OrderBook, find_level, k_price_level_map_capacity, k_empty_price,
}
use itchparser.Book.Walks.{release_levels, clear_metadata, clear_levels}
use itchparser.Book.Side.{side_map, IsSide}
use itchparser.Book.Ladder.{prev_of, next_of, IsLadder}

-- The free list after the releases of some slots, in their order.
abbrev pub pushed : List ℕ → List ℕ → List ℕ
pushed [] free = free
pushed (x ∷ xs) free = pushed xs (x ∷ free)

-- What is in use after the releases of some slots.
abbrev pub removed : List ℕ → List ℕ → List ℕ
removed [] live = live
removed (x ∷ xs) live = removed xs (remove x live)

-- All of the slots are in use.
abbrev pub InUse : List ℕ → List ℕ → Type 0
InUse [] live = Unit {0}
InUse (x ∷ xs) live = (has x live ≡ true) × InUse xs live

InUse-remove :
    (x : ℕ) (xs live : List ℕ)
    → Distinct live
    → has x xs ≡ false
    → InUse xs live
    → InUse xs (remove x live)
InUse-remove x [] live d out u = tt
InUse-remove x (y ∷ xs) live d out u =
    (ground (arith, has-remove y x live d), InUse-remove x xs live d (ground arith) u.1)

-- The loop over one side, with what is to be released later still in use.
release_levels-Owns :
    (f : ℕ) (ls : Levels) (b h l : Ptr) (xs ys : List ℕ) (pool : MemoryPool) (free live : List ℕ)
    → length xs < f
    → Seg (prev_of ls) (next_of ls) b h l none xs
    → Distinct (xs ++ ys)
    → InUse (xs ++ ys) live
    → Owns pool free live
    → Owns (release_levels f ls h pool) (pushed xs free) (removed xs live)
      × InUse ys (removed xs live)
unfolding release_levels
release_levels-Owns zero ls b h l xs ys pool free live lt g d u o = absurd (omega arith)
release_levels-Owns (suc f) ls b h l [] ys pool free live lt g d u o = rw g.0 (o, u)
release_levels-Owns (suc f) ls b h l (x ∷ xs) ys pool free live lt g d u o = rw g.0 (
    release_levels-Owns f ls (some x) (ls x).next_level l xs ys (release (some x) pool) (x ∷ free)
      (remove x live) (omega arith) g.2 d.1 (InUse-remove x (xs ++ ys) live o.live_distinct d.0 u.1)
      (release-Owns pool x free live o u.0))

Distinct-tail : (xs ys : List ℕ) → Distinct (xs ++ ys) → Distinct ys
Distinct-tail [] ys d = d
Distinct-tail (x ∷ xs) ys d = Distinct-tail xs ys d.1

append_nil : (xs : List ℕ) → xs ++ [] ≡ xs
append_nil [] = refl
append_nil (x ∷ xs) = ap (λ t. x ∷ t) (append_nil xs)

cleared-free :
    (b : OrderBook) (s : Side) (j : ℕ) → (side_map s (clear_metadata b)).keys j ≡ k_empty_price
unfolding clear_metadata FlatMap.clear
cleared-free b buy j = refl
cleared-free b sell j = refl

-- Both sides of a book after `clear_metadata` are empty.
cleared-IsSide : (s : Side) (b : OrderBook) (ls : Levels) → IsSide s (clear_metadata b) ls []
unfolding clear_metadata FlatMap.clear find_level
cleared-IsSide buy b ls = record {
  ladder = record { last = none; links = (refl, refl); distinct = tt; sorted = tt };
  chained = λ j lt ne. absurd (ne (cleared-free b buy j));
  counted = refl;
  found = λ px ne.
      find-absent k_price_level_map_capacity k_empty_price (clear_metadata b).bid_map px
        (omega arith) (λ j lt e. ne (sym e));
}
cleared-IsSide sell b ls = record {
  ladder = record { last = none; links = (refl, refl); distinct = tt; sorted = tt };
  chained = λ j lt ne. absurd (ne (cleared-free b sell j));
  counted = refl;
  found = λ px ne.
      find-absent k_price_level_map_capacity k_empty_price (clear_metadata b).ask_map px
        (omega arith) (λ j lt e. ne (sym e));
}

-- Where the two sides of a book are lists of levels, at most as many as their counts say, with all
-- the levels distinct and in use, `clear_levels` gives each of them back to the pool, the bids from
-- the best on and then the asks, and keeps every other slot as it was. The lists of both sides are
-- then empty, their counts are 0, a lookup of any price but the mark of a free slot finds no level,
-- every slot of both maps is free, and the book counts no order.
pub clear_levels-Owns :
    (b : OrderBook) (m : Arena) (bids asks free live : List ℕ)
    → IsLadder buy b m.levels bids
    → IsLadder sell b m.levels asks
    → length bids ≤ b.bid_level_count
    → length asks ≤ b.ask_level_count
    → Distinct (bids ++ asks)
    → InUse (bids ++ asks) live
    → Owns m.level_pool free live
    → Owns
        (clear_levels b m).1.level_pool
        (pushed asks (pushed bids free))
        (removed asks (removed bids live))
      × IsSide buy (clear_levels b m).0 (clear_levels b m).1.levels []
      × IsSide sell (clear_levels b m).0 (clear_levels b m).1.levels []
      × ((s : Side) (j : ℕ) → (side_map s (clear_levels b m).0).keys j ≡ k_empty_price)
      × ((clear_levels b m).0.live_order_count ≡ 0)
unfolding clear_levels clear_metadata FlatMap.clear
clear_levels-Owns b m bids asks free live vb va cb ca d u o =
    let first =
      release_levels-Owns (b.bid_level_count + 1) m.levels none b.best_bid vb.last bids asks
        m.level_pool free live (omega arith) vb.links d u o in
    let pool₁ = release_levels (b.bid_level_count + 1) m.levels b.best_bid m.level_pool in
    let second =
      release_levels-Owns (b.ask_level_count + 1) m.levels none b.best_ask va.last asks [] pool₁
        (pushed bids free) (removed bids live) (omega arith) va.links
        (rw (append_nil asks) (Distinct-tail bids asks d)) (rw (append_nil asks) first.1) first.0 in
    (second.0, cleared-IsSide buy b m.levels, cleared-IsSide sell b m.levels, cleared-free b, refl)
