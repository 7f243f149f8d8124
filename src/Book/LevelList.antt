-- ===== src/Book/LevelList.antt =====
-- The price-ordered list of levels on one side of an `OrderBook` (include/OrderBook.hpp):
-- `insert_level_sorted` and `remove_level_from_list`. The code writes the two sides out; here the
-- side selects the comparison and the head pointer.
use itchparser.Prelude.{ℕ, zero, suc, ◌+◌, Bool, true, false, none, some, ltb, update}
use itchparser.Types.{Ptr, Side, buy, sell}
use itchparser.Book.State.{Levels, OrderBook, best, set_best, level_count}

abbrev pub set_next_level : Levels → ℕ → Ptr → Levels
set_next_level ls p q = update ls p (record (ls p) { next_level = q })

abbrev pub set_prev_level : Levels → ℕ → Ptr → Levels
set_prev_level ls p q = update ls p (record (ls p) { prev_level = q })

-- `cur->price_cents > px` for bids and `cur->price_cents < px` for asks
unfoldable pub better : Side → ℕ → ℕ → Bool
better buy cur px = ltb px cur
better sell cur px = ltb cur px

-- The walk of `insert_level_sorted` to the pair of levels between which the new one goes.
unfoldable pub seek : ℕ → Side → ℕ → Levels → (prev cur : Ptr) → Ptr × Ptr
unfolding better
seek zero s px ls prev cur = (prev, cur)
seek (suc f) s px ls prev none = (prev, none)
seek (suc f) s px ls prev (some c) = elim (better s (ls c).price_cents px) [
  | true ↦ seek f s px ls (some c) (ls c).next_level
  | false ↦ (prev, some c)
]

-- `prev->next_level = lvl`, or the level becomes the best of its side.
unfoldable pub link_after : Side → Ptr → ℕ → OrderBook → Levels → OrderBook × Levels
link_after s (some p) l b ls = (b, set_next_level ls p (some l))
link_after s none l b ls = (set_best s (some l) b, ls)

-- `cur->prev_level = lvl`
unfoldable pub link_before : Ptr → ℕ → Levels → Levels
link_before (some c) l ls = set_prev_level ls c (some l)
link_before none l ls = ls

unfoldable pub insert_level_sorted : Side → ℕ → OrderBook → Levels → OrderBook × Levels
unfolding seek link_after link_before
insert_level_sorted s l b ls =
    let place = seek (level_count s b + 1) s (ls l).price_cents ls none (best s b) in
    let ls₁ = set_prev_level ls l place.0 in
    let ls₂ = set_next_level ls₁ l place.1 in
    let linked = link_after s place.0 l b ls₂ in (linked.0, link_before place.1 l linked.1)

-- `prev_level->next_level = next`, or the next level becomes the best of its side.
unfoldable pub bypass_level : Side → Ptr → Ptr → OrderBook → Levels → OrderBook × Levels
bypass_level s (some p) next b ls = (b, set_next_level ls p next)
bypass_level s none next b ls = (set_best s next b, ls)

unfoldable pub bypass_level_back : Ptr → Ptr → Levels → Levels
bypass_level_back (some n) prev ls = set_prev_level ls n prev
bypass_level_back none prev ls = ls

unfoldable pub remove_level_from_list : Side → ℕ → OrderBook → Levels → OrderBook × Levels
unfolding bypass_level bypass_level_back
remove_level_from_list s l b ls =
    let front = bypass_level s (ls l).prev_level (ls l).next_level b ls in
    let ls₁ = bypass_level_back (front.1 l).next_level (front.1 l).prev_level front.1 in
    (front.0, set_next_level (set_prev_level ls₁ l none) l none)
