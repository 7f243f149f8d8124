-- ===== src/Book/Insertion.antt =====
-- `insert_level_sorted` of include/OrderBook.hpp on the list of levels.
use itchparser.Prelude.{
  ℕ, ◌+◌, ◌≤◌, ◌≡◌, refl, ◌≢◌, false, none, some, List, ◌∷◌, ◌++◌, arith, if◌then◌else◌, ap, length,
  has, ne_of_has, Distinct, Distinct-parts, Distinct-insert,
}
use itchparser.Types.{Ptr, Side, PriceLevel}
use itchparser.Links.{
  Seg, points_at, redirect, Seg-append, Seg-retarget, Seg-rebase, Seg-points_last, Seg-points_first,
}
use itchparser.Book.State.{Levels, OrderBook, best, level_count}
use itchparser.Book.LevelList.{seek, insert_level_sorted}
use itchparser.Book.Ladder.{
  prev_of, next_of, Unused, IsLadder, Place, seek-Place, Sorted-insert, Sorted-congr,
}

-- A level without its links.
abbrev pub bare : PriceLevel → PriceLevel
bare v = record v { prev_level = none; next_level = none }

module _ (s : Side) (l : ℕ) (b : OrderBook) (ls : Levels) where
  -- What the writes of `insert_level_sorted` leave, slot by slot, where the walk ended at `p`
  -- and `c`.
  abbrev place : Ptr × Ptr
  place = seek (level_count s b + 1) s (ls l).price_cents ls none (best s b)

  pub insert-bare : (a : ℕ) → bare ((insert_level_sorted s l b ls).1 a) ≡ bare (ls a)
  unfolding insert_level_sorted
  insert-bare a = ground arith

  insert-best : best s (insert_level_sorted s l b ls).0 ≡ redirect place.0 (some l) (best s b)
  unfolding insert_level_sorted
  insert-best = ground arith

  insert-prev :
      (a : ℕ)
      → a ≢ l
      → prev_of (insert_level_sorted s l b ls).1 a
        ≡ (if points_at place.1 a then some l else prev_of ls a)
  unfolding insert_level_sorted
  insert-prev a ne = ground arith

  insert-next :
      (a : ℕ)
      → a ≢ l
      → next_of (insert_level_sorted s l b ls).1 a
        ≡ (if points_at place.0 a then some l else next_of ls a)
  unfolding insert_level_sorted
  insert-next a ne = ground arith

  insert_self :
      points_at place.0 l ≡ false
      → points_at place.1 l ≡ false
      → (prev_of (insert_level_sorted s l b ls).1 l ≡ place.0)
        × (next_of (insert_level_sorted s l b ls).1 l ≡ place.1)
  unfolding insert_level_sorted
  insert_self hp hc = ground arith

  module _ (xs : List ℕ) (q : IsLadder s b ls xs) (out : has l xs ≡ false)
      (y : Place s (ls l).price_cents ls none (best s b) q.last place.0 place.1 xs) where
    grown : Distinct (y.front ++ l ∷ y.back)
    grown = Distinct-insert l y.front y.back (rw (← y.whole) q.distinct) (rw (← y.whole) out)

    insert-links :
        let r = insert_level_sorted s l b ls in
        Seg
          (prev_of r.1)
          (next_of r.1)
          none
          (best s r.0)
          (redirect place.1 (some l) q.last)
          none
          (y.front ++ l ∷ y.back)
    insert-links =
        let r = insert_level_sorted s l b ls in
        let (df, db, of, ob, apart) = Distinct-parts l y.front y.back grown in
        let first = λ (a : ℕ) (i : has a y.back ≡ false).
          Seg-points_first (prev_of ls) (next_of ls) place.0 place.1 q.last a y.back y.back_links
            i in
        let last = λ (a : ℕ) (i : has a y.front ≡ false).
          Seg-points_last (prev_of ls) (next_of ls) (best s b) place.0 place.1 a y.front
            y.front_links i in
        let self = insert_self (last l of) (first l ob) in
        let front =
          Seg-retarget (prev_of ls) (next_of ls) (prev_of r.1) (next_of r.1) (best s b) place.0
            place.1 (some l) y.front df
            (λ a i. rw (insert-prev a (ne_of_has a l y.front i of), first a (apart a i)))
            (λ a i. insert-next a (ne_of_has a l y.front i of)) y.front_links in
        let back =
          Seg-rebase (prev_of ls) (next_of ls) (prev_of r.1) (next_of r.1) place.0 (some l) place.1
            q.last y.back db
            (λ a i.
              rw (insert-next a (ne_of_has a l y.back i ob), last a (ground (arith, apart a))))
            (λ a i. insert-prev a (ne_of_has a l y.back i ob)) y.back_links in
        rw insert-best (
          Seg-append (prev_of r.1) (next_of r.1) none (redirect place.0 (some l) (best s b)) place.0
            (some l) (redirect place.1 (some l) q.last) none y.front (l ∷ y.back) front
            (refl, self.0, rw self.1 back))

-- Where the count of the side is at least the length of its list of levels, a level that is not in
-- the list, with a price that no level of the list has, is linked in between the levels with better
-- prices and those with worse ones: the list stays sorted and linked both ways, its best level is
-- the head of the side, and no level changes but for its links.
pub insert_level_sorted-IsLadder :
    (s : Side) (l : ℕ) (b : OrderBook) (ls : Levels) (xs : List ℕ)
    → IsLadder s b ls xs
    → has l xs ≡ false
    → Unused ls (ls l).price_cents xs
    → length xs ≤ level_count s b
    → (hs : List ℕ) × (ts : List ℕ) × (xs ≡ hs ++ ts)
      × IsLadder s (insert_level_sorted s l b ls).0 (insert_level_sorted s l b ls).1 (hs ++ l ∷ ts)
      × ((a : ℕ) → bare ((insert_level_sorted s l b ls).1 a) ≡ bare (ls a))
insert_level_sorted-IsLadder s l b ls xs q out unused bound =
    let y =
      seek-Place (level_count s b + 1) s (ls l).price_cents ls none (best s b) q.last xs
        (omega arith) q.links q.sorted unused in
    let same = insert-bare s l b ls in
    (
      y.front,
      y.back,
      y.whole,
      record {
        last = redirect (place s l b ls).1 (some l) q.last;
        links = insert-links s l b ls xs q out y;
        distinct = grown s l b ls xs q out y;
        sorted =
            Sorted-congr s ls (insert_level_sorted s l b ls).1 (y.front ++ l ∷ y.back)
              (λ a. ap (λ v. v.price_cents) (same a))
              (Sorted-insert s ls l y.front y.back (rw (← y.whole) q.sorted) y.front_After
                y.back_Before);
      },
      same,
    )
