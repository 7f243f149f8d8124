-- ===== src/Book/Side/Writes.antt =====
-- What the writes of `OrderBook` (include/OrderBook.hpp) to one level and its orders leave of a side.
use itchparser.Prelude.{
  ==_refl, true, has, ℕ, ◌≡◌, refl, sym, ap, ◌∙◌, arith, some, List, [], ◌∷◌, ◌++◌, update, dec64,
  ◌==◌, Bool-cases, inl, inr, eq_of_==,
}
use itchparser.Types.{Side, buy, sell, PriceLevel}
use itchparser.Book.State.{Levels, Arena, OrderBook, find_level, k_empty_price}
use itchparser.Book.Side.{side_map, level_at, IsSide, IsSide-frame, skeleton}
use itchparser.Level.{Orders, unlink}

pub update_here : (ls : Levels) (l : ℕ) (v : PriceLevel) → update ls l v l ≡ v
update_here ls l v = rw (==_refl l) refl

pub has-middle : (l : ℕ) (hs ts : List ℕ) → has l (hs ++ l ∷ ts) ≡ true
has-middle l [] ts = ground arith
has-middle l (x ∷ hs) ts = ground (arith, has-middle l hs ts)

-- A level that the lookup gives stands in the list.
pub level_at-split :
    (ls : Levels) (px l : ℕ) (xs : List ℕ)
    → level_at ls px xs ≡ some l
    → (hs : List ℕ) × (ts : List ℕ) × (xs ≡ hs ++ l ∷ ts) × ((ls l).price_cents ≡ px)
level_at-split ls px l [] h = absurd (ground arith)
level_at-split ls px l (x ∷ xs) h = elim (Bool-cases ((ls x).price_cents == px)) [
  | inl e ↦
      let h' : some x ≡ some l = rw (level_at, e) at h in
      let same : x ≡ l = cc in
      (
        [],
        xs,
        ap (λ y. y ∷ xs) same,
        ap (λ y. (ls y).price_cents) (sym same) ∙ eq_of_== (ls x).price_cents px e,
      )
  | inr e ↦
      let (hs, ts, whole, price) = level_at-split ls px l xs (rw (level_at, e) at h) in
      (x ∷ hs, ts, ap (λ r. x ∷ r) whole, price)
]

-- A write to level `l` that leaves its price and its links, and the orders as they may be.
module _ (l : ℕ) (b : OrderBook) (m : Arena) (v : PriceLevel) (os : Orders)
    (same : skeleton v ≡ skeleton (m.levels l)) where
  abbrev pub left_book : OrderBook
  left_book = record b { live_order_count = dec64 b.live_order_count }

  abbrev pub left_arena : Arena
  left_arena = record m { orders = os; levels = update m.levels l v }

  pub left-skeleton : (a : ℕ) → skeleton (left_arena.levels a) ≡ skeleton (m.levels a)
  left-skeleton a = elim (Bool-cases (a == l)) [
    | inl e ↦ rw (eq_of_== a l e, ==_refl l) same
    | inr e ↦ rw e refl
  ]

  left-find_level : (s : Side) (px : ℕ) → find_level s px left_book ≡ find_level s px b
  unfolding find_level
  left-find_level buy px = refl
  left-find_level sell px = refl

  pub left-free :
      (s : Side) (e : ℕ)
      → (side_map s b).keys e ≡ k_empty_price
      → (side_map s left_book).keys e ≡ k_empty_price
  left-free buy e h = h
  left-free sell e h = h

  pub same_book-IsSide :
      (s : Side) (xs : List ℕ) → IsSide s b m.levels xs → IsSide s b left_arena.levels xs
  same_book-IsSide s xs =
      IsSide-frame s b b m.levels left_arena.levels xs refl refl refl (λ px. refl)
        (λ a h. left-skeleton a)

  pub left-IsSide :
      (s : Side) (xs : List ℕ) → IsSide s b m.levels xs → IsSide s left_book left_arena.levels xs
  left-IsSide buy xs =
      IsSide-frame buy b left_book m.levels left_arena.levels xs refl refl refl
        (left-find_level buy) (λ a h. left-skeleton a)
  left-IsSide sell xs =
      IsSide-frame sell b left_book m.levels left_arena.levels xs refl refl refl
        (left-find_level sell) (λ a h. left-skeleton a)

pub unlink-skeleton :
    (o : ℕ) (v : PriceLevel) (os : Orders) → skeleton (unlink o v os).0 ≡ skeleton v
unfolding unlink
unlink-skeleton o v os = ground arith
