-- ===== src/Book/Side.antt =====
-- One side of an `OrderBook` (include/OrderBook.hpp): when its map of prices and its sorted list of
-- levels say the same.
pub mod Insertion
pub mod Adding
pub mod Removal
pub mod Writes
pub mod Reducing
pub mod Filling
use itchparser.Prelude.{
  ℕ, ◌+◌, ◌≤◌, ◌<◌, ◌^◌, ◌≡◌, ◌≢◌, refl, sym, ap, ◌∙◌, subst, arith, true, false, none, some, List,
  [], ◌∷◌, ◌++◌, length, length-append, has, update, inc64, ◌==◌, if◌then◌else◌, Bool-cases, inl,
  inr, ==_ne, ==_refl, eq_of_==, ne_of_==, ne_of_has,
}
use itchparser.Types.{Ptr, Side, buy, sell, PriceLevel}
use itchparser.Links.{Seg, Seg-frame}
use itchparser.FlatMap.{FlatMap, make_map}
use itchparser.FlatMap.Probe.{IsChained, find-absent}
use itchparser.FlatMap.Insert.{find-insert}
use itchparser.Level.{make_level, reset}
use itchparser.Book.State.{
  Levels, Arena, OrderBook, make_book, best, level_count, find_level, insert_level_into_map,
  k_price_level_map_capacity, k_empty_price,
}
use itchparser.Book.LevelList.{insert_level_sorted}
use itchparser.Book.Orders.{create_level}
use itchparser.Book.Ladder.{prev_of, next_of, Unused, Sorted, Before, IsLadder}
use itchparser.Book.Insertion.{bare, insert_level_sorted-IsLadder}

abbrev pub side_map : Side → OrderBook → FlatMap
side_map buy b = b.bid_map
side_map sell b = b.ask_map

-- The first of the levels with a price.
abbrev pub level_at : Levels → ℕ → List ℕ → Ptr
level_at ls px [] = none
level_at ls px (x ∷ xs) = if (ls x).price_cents == px then some x else level_at ls px xs

-- The list is sorted and linked, its levels are counted, and a lookup of a price other than the mark
-- of a free slot gives the level of the list with that price.
pub record IsSide (s : Side) (b : OrderBook) (ls : Levels) (xs : List ℕ) : Type 0 where
  pub ladder : IsLadder s b ls xs
  pub chained : IsChained k_price_level_map_capacity k_empty_price (side_map s b)
  pub counted : level_count s b ≡ length xs
  pub found : (px : ℕ) → px ≢ k_empty_price → find_level s px b ≡ level_at ls px xs

has_first : (x : ℕ) (xs : List ℕ) → has x (x ∷ xs) ≡ true
has_first x xs = ground arith

has_later : (a x : ℕ) (xs : List ℕ) → has a xs ≡ true → has a (x ∷ xs) ≡ true
has_later a x xs h = ground arith

-- What the list and the map depend on.
abbrev pub skeleton : PriceLevel → ℕ × Ptr × Ptr
skeleton v = (v.price_cents, v.prev_level, v.next_level)

-- The same prices and links at the members of the list.
abbrev pub Agrees : Levels → Levels → List ℕ → Type 0
Agrees ls ls' xs = (a : ℕ) → has a xs ≡ true → skeleton (ls' a) ≡ skeleton (ls a)

Before-frame :
    (s : Side) (ls ls' : Levels) (px : ℕ) (xs : List ℕ)
    → Agrees ls ls' xs
    → Before s ls px xs
    → Before s ls' px xs
Before-frame s ls ls' px [] same b = tt
Before-frame s ls ls' px (x ∷ xs) same b = (
  rw (ap (λ k. k.0) (same x (has_first x xs))) b.0,
  Before-frame s ls ls' px xs (λ a h. same a (has_later a x xs h)) b.1,
)

Sorted-frame :
    (s : Side) (ls ls' : Levels) (xs : List ℕ) → Agrees ls ls' xs → Sorted s ls xs → Sorted s ls' xs
Sorted-frame s ls ls' [] same o = tt
Sorted-frame s ls ls' (x ∷ xs) same o =
    let rest : Agrees ls ls' xs = λ a h. same a (has_later a x xs h) in
    (
      rw (ap (λ k. k.0) (same x (has_first x xs)))
          (Before-frame s ls ls' (ls x).price_cents xs rest o.0),
      Sorted-frame s ls ls' xs rest o.1,
    )

pub IsLadder-frame :
    (s : Side) (b c : OrderBook) (ls ls' : Levels) (xs : List ℕ)
    → best s c ≡ best s b
    → Agrees ls ls' xs
    → IsLadder s b ls xs
    → IsLadder s c ls' xs
IsLadder-frame s b c ls ls' xs e same q = record {
  last = q.last;
  links = rw e (
      Seg-frame (prev_of ls) (next_of ls) (prev_of ls') (next_of ls') none (best s b) q.last none xs
        (λ a h. (ap (λ k. k.1) (same a h), ap (λ k. k.2) (same a h))) q.links);
  distinct = q.distinct;
  sorted = Sorted-frame s ls ls' xs same q.sorted;
}

pub Unused-level_at :
    (ls : Levels) (px : ℕ) (xs : List ℕ) → level_at ls px xs ≡ none → Unused ls px xs
Unused-level_at ls px [] h = tt
Unused-level_at ls px (x ∷ xs) h = elim (Bool-cases ((ls x).price_cents == px)) [
  | inl e ↦ let h' : some x ≡ none = rw (level_at, e) at h in absurd (ground arith)
  | inr e ↦ (ne_of_== (ls x).price_cents px e, Unused-level_at ls px xs (rw (level_at, e) at h))
]

pub level_at-congr :
    (ls ls' : Levels) (px : ℕ) (xs : List ℕ)
    → ((a : ℕ) → has a xs ≡ true → (ls' a).price_cents ≡ (ls a).price_cents)
    → level_at ls' px xs ≡ level_at ls px xs
level_at-congr ls ls' px [] same = refl
level_at-congr ls ls' px (x ∷ xs) same =
    rw (same x (has_first x xs), level_at-congr ls ls' px xs (λ a h. same a (has_later a x xs h)))
      refl

-- Two books with the same map, count and head of the side, and levels with the same prices and links.
pub IsSide-frame :
    (s : Side) (b c : OrderBook) (ls ls' : Levels) (xs : List ℕ)
    → side_map s c ≡ side_map s b
    → best s c ≡ best s b
    → level_count s c ≡ level_count s b
    → ((px : ℕ) → find_level s px c ≡ find_level s px b)
    → Agrees ls ls' xs
    → IsSide s b ls xs
    → IsSide s c ls' xs
IsSide-frame s b c ls ls' xs em eb en ef same side = record {
  ladder = IsLadder-frame s b c ls ls' xs eb same side.ladder;
  chained = rw em side.chained;
  counted = en ∙ side.counted;
  found = λ px ne.
      ef px
      ∙ side.found px ne
      ∙ sym (level_at-congr ls ls' px xs (λ a h. ap (λ k. k.0) (same a h)));
}

-- Both sides of a new book are empty.
pub make_book-IsSide : (s : Side) (ls : Levels) → IsSide s make_book ls []
unfolding make_book make_map find_level
make_book-IsSide buy ls = record {
  ladder = record { last = none; links = (refl, refl); distinct = tt; sorted = tt };
  chained = λ j lt ne. absurd (ne refl);
  counted = refl;
  found = λ px ne.
      find-absent k_price_level_map_capacity k_empty_price
        (make_map k_price_level_map_capacity k_empty_price) px (omega arith) (λ j lt e. ne (sym e));
}
make_book-IsSide sell ls = record {
  ladder = record { last = none; links = (refl, refl); distinct = tt; sorted = tt };
  chained = λ j lt ne. absurd (ne refl);
  counted = refl;
  found = λ px ne.
      find-absent k_price_level_map_capacity k_empty_price
        (make_map k_price_level_map_capacity k_empty_price) px (omega arith) (λ j lt e. ne (sym e));
}
