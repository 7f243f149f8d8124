-- ===== src/Book/Side/Adding.antt =====
-- `add_order` of include/OrderBook.hpp on the map and the list of the order's side.
use itchparser.Prelude.{ℕ, ◌≡◌, refl, arith, none, some, List, ◌∷◌, ◌++◌}
use itchparser.Types.{Ptr, Side, buy, sell}
use itchparser.Level.{push_back, link_tail}
use itchparser.Book.State.{Arena, OrderBook, best, level_count, find_level}
use itchparser.Book.Orders.{AddResult, no_level, joined, created, append_order}
use itchparser.Book.Side.{side_map, IsSide, IsSide-frame, skeleton}

module _ (o l : ℕ) (b : OrderBook) (m : Arena) where
  append-skeleton : (a : ℕ) → skeleton ((append_order o l b m).1.levels a) ≡ skeleton (m.levels a)
  unfolding append_order push_back link_tail
  append-skeleton a = ground arith

  append-side_map : (s : Side) → side_map s (append_order o l b m).0 ≡ side_map s b
  unfolding append_order
  append-side_map buy = refl
  append-side_map sell = refl

  append-best : (s : Side) → best s (append_order o l b m).0 ≡ best s b
  unfolding append_order
  append-best buy = refl
  append-best sell = refl

  append-level_count : (s : Side) → level_count s (append_order o l b m).0 ≡ level_count s b
  unfolding append_order
  append-level_count buy = refl
  append-level_count sell = refl

  append-find_level :
      (s : Side) (px : ℕ) → find_level s px (append_order o l b m).0 ≡ find_level s px b
  unfolding append_order find_level
  append-find_level buy px = refl
  append-find_level sell px = refl

  pub append_order-IsSide :
      (s : Side) (xs : List ℕ)
      → IsSide s b m.levels xs
      → IsSide s (append_order o l b m).0 (append_order o l b m).1.levels xs
  append_order-IsSide s xs =
      IsSide-frame s b (append_order o l b m).0 m.levels (append_order o l b m).1.levels xs
        (append-side_map s) (append-best s) (append-level_count s) (append-find_level s)
        (λ a h. append-skeleton a)

-- What `add_order` makes of the list of levels on the side of the order `o`, at a price which has
-- the level `found` in the list, if any, where the pool would give the slot `taken`, if any.
abbrev pub Grown :
    (found taken : Ptr) → (o px : ℕ) → AddResult → OrderBook × Arena → (xs ys : List ℕ) → Type 0
Grown (some l) taken o px r (b, m) xs ys =
    (r ≡ joined) × (ys ≡ xs) × ((m.levels l).tail_order ≡ some o)
Grown none none o px r (b, m) xs ys = (r ≡ no_level) × (ys ≡ xs)
Grown none (some l) o px r (b, m) xs ys =
    (r ≡ created)
    × ((m.levels l).price_cents ≡ px)
    × ((m.levels l).head_order ≡ some o)
    × ((m.levels l).tail_order ≡ some o)
    × (hs : List ℕ) × (ts : List ℕ) × (xs ≡ hs ++ ts)
    × (ys ≡ hs ++ l ∷ ts)
