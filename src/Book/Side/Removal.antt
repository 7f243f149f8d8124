-- ===== src/Book/Side/Removal.antt =====
-- The end of `execute_order` and `remove_order` of include/OrderBook.hpp, on the map and the list of a
-- side.
use itchparser.Prelude.{
  ℕ, ◌<◌, ◌^◌, ◌≡◌, ◌≢◌, refl, sym, ap, ◌∙◌, arith, true, none, some, List, [], ◌∷◌, ◌++◌, length,
  length-append, dec64, ◌==◌, if◌then◌else◌, Bool-cases, inl, inr, ==_ne, eq_of_==,
}
use itchparser.Types.{Side, buy, sell}
use itchparser.FlatMap.Probe.{IsChained}
use itchparser.FlatMap.Remove.{find-erase}
use itchparser.Book.Removal.{remove_level_from_list-IsLadder}
use itchparser.Level.{empty}
use itchparser.Book.State.{
  Levels, Arena, OrderBook, best, level_count, find_level, erase_level_from_map,
  k_price_level_map_capacity, k_empty_price,
}
use itchparser.Book.LevelList.{better, remove_level_from_list}
use itchparser.Book.Orders.{drop_if_empty}
use itchparser.Book.Ladder.{Unused, Sorted, Before}
use itchparser.Book.Side.{side_map, level_at, IsSide, IsLadder-frame, level_at-congr}
use itchparser.Book.Side.Insertion.{level_at-insert}

better_ne : (s : Side) (p q : ℕ) → better s p q ≡ true → p ≢ q
unfolding better
better_ne buy p q h e = ground arith
better_ne sell p q h e = ground arith

Before-at :
    (s : Side) (ls : Levels) (px l : ℕ) (hs ts : List ℕ)
    → Before s ls px (hs ++ l ∷ ts)
    → better s px (ls l).price_cents ≡ true
Before-at s ls px l [] ts b = b.0
Before-at s ls px l (x ∷ hs) ts b = Before-at s ls px l hs ts b.1

Before-Unused :
    (s : Side) (ls : Levels) (px : ℕ) (xs : List ℕ) → Before s ls px xs → Unused ls px xs
Before-Unused s ls px [] b = tt
Before-Unused s ls px (x ∷ xs) b =
    (λ e. better_ne s px (ls x).price_cents b.0 (sym e), Before-Unused s ls px xs b.1)

-- A sorted list has each price once.
Sorted-Unused :
    (s : Side) (ls : Levels) (l : ℕ) (hs ts : List ℕ)
    → Sorted s ls (hs ++ l ∷ ts)
    → Unused ls (ls l).price_cents (hs ++ ts)
Sorted-Unused s ls l [] ts o = Before-Unused s ls (ls l).price_cents ts o.0
Sorted-Unused s ls l (x ∷ hs) ts o = (
  better_ne s (ls x).price_cents (ls l).price_cents (Before-at s ls (ls x).price_cents l hs ts o.0),
  Sorted-Unused s ls l hs ts o.1,
)

level_at-Unused : (ls : Levels) (px : ℕ) (xs : List ℕ) → Unused ls px xs → level_at ls px xs ≡ none
level_at-Unused ls px [] u = refl
level_at-Unused ls px (x ∷ xs) u =
    rw (==_ne (ls x).price_cents px u.0) (level_at-Unused ls px xs u.1)

module _ (s : Side) (l : ℕ) (b : OrderBook) (ls : Levels) where
  remove-side_map : side_map s (remove_level_from_list s l b ls).0 ≡ side_map s b
  unfolding remove_level_from_list
  remove-side_map = ground arith

  remove-level_count : level_count s (remove_level_from_list s l b ls).0 ≡ level_count s b
  unfolding remove_level_from_list
  remove-level_count = ground arith

  remove-find_level :
      (q : ℕ) → find_level s q (remove_level_from_list s l b ls).0 ≡ find_level s q b
  unfolding remove_level_from_list find_level
  remove-find_level q = ground arith

erase-best : (s : Side) (px : ℕ) (b : OrderBook) → best s (erase_level_from_map s px b) ≡ best s b
unfolding erase_level_from_map
erase-best buy px b = refl
erase-best sell px b = refl

erase-level_count :
    (s : Side) (px : ℕ) (b : OrderBook)
    → level_count s (erase_level_from_map s px b) ≡ dec64 (level_count s b)
unfolding erase_level_from_map
erase-level_count buy px b = refl
erase-level_count sell px b = refl

erase-find_level :
    (s : Side) (px e : ℕ) (b : OrderBook)
    → IsChained k_price_level_map_capacity k_empty_price (side_map s b)
    → px ≢ k_empty_price
    → e < k_price_level_map_capacity
    → (side_map s b).keys e ≡ k_empty_price
    → IsChained k_price_level_map_capacity k_empty_price (side_map s (erase_level_from_map s px b))
      × ((q : ℕ)
          → q ≢ k_empty_price
          → find_level s q (erase_level_from_map s px b)
            ≡ (if q == px then none else find_level s q b))
unfolding erase_level_from_map find_level
erase-find_level buy px e b ch ne le free =
    find-erase k_price_level_map_capacity k_empty_price b.bid_map px e ch ne le free
erase-find_level sell px e b ch ne le free =
    find-erase k_price_level_map_capacity k_empty_price b.ask_map px e ch ne le free

shrinks :
    (hs : List ℕ) (l : ℕ) (ts : List ℕ)
    → length (hs ++ l ∷ ts) < 2 ^ 64
    → dec64 (length (hs ++ l ∷ ts)) ≡ length (hs ++ ts)
shrinks hs l ts few = omega (arith, length-append hs ts, length-append hs (l ∷ ts))

without :
    (ls : Levels) (l q : ℕ) (xs : List ℕ)
    → Unused ls (ls l).price_cents xs
    → (if q == (ls l).price_cents
        then none
        else (if q == (ls l).price_cents then some l else level_at ls q xs))
      ≡ level_at ls q xs
without ls l q xs u = elim (Bool-cases (q == (ls l).price_cents)) [
  | inl h ↦ rw h (
      sym (
        ap (λ p. level_at ls p xs) (eq_of_== q (ls l).price_cents h)
        ∙ level_at-Unused ls (ls l).price_cents xs u))
  | inr h ↦ rw h refl
]

-- A level of the list goes out of the list and the map.
unlisted :
    (s : Side) (l e : ℕ) (b : OrderBook) (ls : Levels) (hs ts : List ℕ)
    → IsSide s b ls (hs ++ l ∷ ts)
    → (ls l).price_cents ≢ k_empty_price
    → e < k_price_level_map_capacity
    → (side_map s b).keys e ≡ k_empty_price
    → length (hs ++ l ∷ ts) < 2 ^ 64
    → let cut = remove_level_from_list s l b ls in
      IsSide s (erase_level_from_map s (cut.1 l).price_cents cut.0) cut.1 (hs ++ ts)
unlisted s l e b ls hs ts side ne le free few =
    let cut = remove_level_from_list s l b ls in
    let px = (ls l).price_cents in
    let (ladder, kept) = remove_level_from_list-IsLadder s l b ls hs ts side.ladder in
    let price : (cut.1 l).price_cents ≡ px = ap (λ v. v.price_cents) (kept l) in
    let out = erase_level_from_map s px cut.0 in
    let chained₀ : IsChained k_price_level_map_capacity k_empty_price (side_map s cut.0) =
      rw (remove-side_map s l b ls) side.chained in
    let mapped =
      erase-find_level s px e cut.0 chained₀ ne le (rw (remove-side_map s l b ls) free) in
    let unused = Sorted-Unused s ls l hs ts side.ladder.sorted in
    let found : (q : ℕ) → q ≢ k_empty_price → find_level s q out ≡ level_at cut.1 q (hs ++ ts) =
      λ q qe.
        mapped.1 q qe
        ∙ ap (λ f. if q == px then none else f)
            (remove-find_level s l b ls q ∙ side.found q qe ∙ level_at-insert ls l q hs ts unused)
        ∙ without ls l q (hs ++ ts) unused
        ∙ sym (level_at-congr ls cut.1 q (hs ++ ts) (λ a h. ap (λ v. v.price_cents) (kept a))) in
    rw price (record {
      ladder =
          IsLadder-frame s cut.0 out cut.1 cut.1 (hs ++ ts) (erase-best s px cut.0) (λ a h. refl)
            ladder;
      chained = mapped.0;
      counted =
          erase-level_count s px cut.0
          ∙ ap dec64 (remove-level_count s l b ls ∙ side.counted)
          ∙ shrinks hs l ts few;
      found = found;
    })

-- Where the map and the list of a side agree, and the map has a free slot, a level of the list that is
-- empty leaves both, which agree on the others; a level that is not stays in both.
pub drop_if_empty-IsSide :
    (s : Side) (l e : ℕ) (b : OrderBook) (m : Arena) (hs ts : List ℕ)
    → IsSide s b m.levels (hs ++ l ∷ ts)
    → (m.levels l).price_cents ≢ k_empty_price
    → e < k_price_level_map_capacity
    → (side_map s b).keys e ≡ k_empty_price
    → length (hs ++ l ∷ ts) < 2 ^ 64
    → let r = drop_if_empty s l b m in
      (r.0 ≡ empty (m.levels l))
      × IsSide s r.1.0 r.1.1.levels (if empty (m.levels l) then hs ++ ts else hs ++ l ∷ ts)
unfolding drop_if_empty
drop_if_empty-IsSide s l e b m hs ts side ne le free few = elim (Bool-cases (empty (m.levels l))) [
  | inl h ↦ rw (drop_if_empty, h) (refl, unlisted s l e b m.levels hs ts side ne le free few)
  | inr h ↦ rw (drop_if_empty, h) (refl, side)
]
