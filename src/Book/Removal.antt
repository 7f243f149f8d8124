-- ===== src/Book/Removal.antt =====
-- `remove_level_from_list` of include/OrderBook.hpp on the list of levels.
use itchparser.Prelude.{
  ℕ, ◌≡◌, ◌≢◌, false, none, some, List, ◌∷◌, ◌++◌, arith, if◌then◌else◌, ap, has, ne_of_has,
  Distinct-parts, Distinct-drop,
}
use itchparser.Types.{Side}
use itchparser.Links.{
  Seg, points_at, redirect, Seg-append, Seg-split, Seg-retarget, Seg-rebase, Seg-points_last,
  Seg-points_first,
}
use itchparser.Book.State.{Levels, OrderBook, best}
use itchparser.Book.LevelList.{remove_level_from_list}
use itchparser.Book.Ladder.{prev_of, next_of, IsLadder, Sorted-congr, Sorted-drop}
use itchparser.Book.Insertion.{bare}

module _ (s : Side) (l : ℕ) (b : OrderBook) (ls : Levels) where
  remove-bare : (a : ℕ) → bare ((remove_level_from_list s l b ls).1 a) ≡ bare (ls a)
  unfolding remove_level_from_list
  remove-bare a = ground arith

  module _ (p : points_at (prev_of ls l) l ≡ false) (n : points_at (next_of ls l) l ≡ false) where
    remove-best :
        best s (remove_level_from_list s l b ls).0
        ≡ redirect (prev_of ls l) (next_of ls l) (best s b)
    unfolding remove_level_from_list
    remove-best = ground arith

    remove-prev :
        (a : ℕ)
        → a ≢ l
        → prev_of (remove_level_from_list s l b ls).1 a
          ≡ (if points_at (next_of ls l) a then prev_of ls l else prev_of ls a)
    unfolding remove_level_from_list
    remove-prev a ne = ground arith

    remove-next :
        (a : ℕ)
        → a ≢ l
        → next_of (remove_level_from_list s l b ls).1 a
          ≡ (if points_at (prev_of ls l) a then next_of ls l else next_of ls a)
    unfolding remove_level_from_list
    remove-next a ne = ground arith

  module _ (hs ts : List ℕ) (q : IsLadder s b ls (hs ++ l ∷ ts)) where
    remove-links :
        let r = remove_level_from_list s l b ls in
        Seg
          (prev_of r.1)
          (next_of r.1)
          none
          (best s r.0)
          (redirect (next_of ls l) (prev_of ls l) q.last)
          none
          (hs ++ ts)
    remove-links =
        let r = remove_level_from_list s l b ls in
        let (dh, dt, oh, ot, apart) = Distinct-parts l hs ts q.distinct in
        let halves =
          Seg-split (prev_of ls) (next_of ls) none (best s b) q.last none hs l ts q.links in
        let last = λ (a : ℕ) (i : has a hs ≡ false).
          Seg-points_last (prev_of ls) (next_of ls) (best s b) (prev_of ls l) (some l) a hs halves.0
            i in
        let first = λ (a : ℕ) (i : has a ts ≡ false).
          Seg-points_first (prev_of ls) (next_of ls) (some l) (next_of ls l) q.last a ts halves.1
            i in
        let p = last l oh in
        let n = first l ot in
        let front =
          Seg-retarget (prev_of ls) (next_of ls) (prev_of r.1) (next_of r.1) (best s b)
            (prev_of ls l) (some l) (next_of ls l) hs dh
            (λ a i. rw (remove-prev p n a (ne_of_has a l hs i oh), first a (apart a i)))
            (λ a i. remove-next p n a (ne_of_has a l hs i oh)) halves.0 in
        let back =
          Seg-rebase (prev_of ls) (next_of ls) (prev_of r.1) (next_of r.1) (some l) (prev_of ls l)
            (next_of ls l) q.last ts dt
            (λ a i.
              rw (remove-next p n a (ne_of_has a l ts i ot), last a (ground (arith, apart a))))
            (λ a i. remove-prev p n a (ne_of_has a l ts i ot)) halves.1 in
        rw (remove-best p n) (
          Seg-append (prev_of r.1) (next_of r.1) none
            (redirect (prev_of ls l) (next_of ls l) (best s b)) (prev_of ls l) (next_of ls l)
            (redirect (next_of ls l) (prev_of ls l) q.last) none hs ts front back)

-- A level of the list, wherever it stands, is taken out: the others stay sorted and linked both
-- ways in their order, the best of them is the head of the side, and no level changes but for its
-- links.
pub remove_level_from_list-IsLadder :
    (s : Side) (l : ℕ) (b : OrderBook) (ls : Levels) (hs ts : List ℕ)
    → IsLadder s b ls (hs ++ l ∷ ts)
    → IsLadder s (remove_level_from_list s l b ls).0 (remove_level_from_list s l b ls).1 (hs ++ ts)
      × ((a : ℕ) → bare ((remove_level_from_list s l b ls).1 a) ≡ bare (ls a))
remove_level_from_list-IsLadder s l b ls hs ts q =
    let same = remove-bare s l b ls in
    (
      record {
        last = redirect (next_of ls l) (prev_of ls l) q.last;
        links = remove-links s l b ls hs ts q;
        distinct = Distinct-drop l hs ts q.distinct;
        sorted =
            Sorted-congr s ls (remove_level_from_list s l b ls).1 (hs ++ ts)
              (λ a. ap (λ v. v.price_cents) (same a)) (Sorted-drop s ls l hs ts q.sorted);
      },
      same,
    )
