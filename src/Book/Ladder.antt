-- ===== src/Book/Ladder.antt =====
-- The list of levels that `insert_level_sorted` keeps (include/OrderBook.hpp): its links and its
-- order, and where a new price belongs in it.
use itchparser.Prelude.{
  ℕ, zero, suc, ◌<◌, ◌≡◌, refl, ◌≢◌, true, false, none, some, List, [], ◌∷◌, ◌++◌, arith, ap, inl,
  inr, length, Distinct, Bool-cases,
}
use itchparser.Types.{Ptr, Side, buy, sell}
use itchparser.Links.{Seg}
use itchparser.Book.State.{Levels, OrderBook, best}
use itchparser.Book.LevelList.{better, seek}

abbrev pub prev_of : Levels → ℕ → Ptr
prev_of ls a = (ls a).prev_level

abbrev pub next_of : Levels → ℕ → Ptr
next_of ls a = (ls a).next_level

-- `px` goes before the price of each of the levels.
abbrev pub Before : Side → Levels → ℕ → List ℕ → Type 0
Before s ls px [] = Unit {0}
Before s ls px (x ∷ xs) = (better s px (ls x).price_cents ≡ true) × Before s ls px xs

-- Each of the levels goes before `px`.
abbrev pub After : Side → Levels → ℕ → List ℕ → Type 0
After s ls px [] = Unit {0}
After s ls px (x ∷ xs) = (better s (ls x).price_cents px ≡ true) × After s ls px xs

-- The prices fall strictly for bids and rise strictly for asks.
abbrev pub Sorted : Side → Levels → List ℕ → Type 0
Sorted s ls [] = Unit {0}
Sorted s ls (x ∷ xs) = Before s ls (ls x).price_cents xs × Sorted s ls xs

-- None of the levels has the price.
abbrev pub Unused : Levels → ℕ → List ℕ → Type 0
Unused ls px [] = Unit {0}
Unused ls px (x ∷ xs) = ((ls x).price_cents ≢ px) × Unused ls px xs

pub record IsLadder (s : Side) (b : OrderBook) (ls : Levels) (xs : List ℕ) : Type 0 where
  pub last : Ptr
  pub links : Seg (prev_of ls) (next_of ls) none (best s b) last none xs
  pub distinct : Distinct xs
  pub sorted : Sorted s ls xs

better_trans :
    (s : Side) (x y z : ℕ) → better s x y ≡ true → better s y z ≡ true → better s x z ≡ true
unfolding better
better_trans buy x y z h k = ground arith
better_trans sell x y z h k = ground arith

better_total : (s : Side) (x y : ℕ) → better s x y ≡ false → x ≢ y → better s y x ≡ true
unfolding better
better_total buy x y h ne = ground arith
better_total sell x y h ne = ground arith

Before-trans :
    (s : Side) (ls : Levels) (px py : ℕ) (xs : List ℕ)
    → better s px py ≡ true
    → Before s ls py xs
    → Before s ls px xs
Before-trans s ls px py [] h b = tt
Before-trans s ls px py (x ∷ xs) h b =
    (better_trans s px py (ls x).price_cents h b.0, Before-trans s ls px py xs h b.1)

-- Where the walk of `insert_level_sorted` stops: behind the levels that go before the price, and
-- before those that it goes before.
pub record Place (s : Side) (px : ℕ) (ls : Levels) (prev cur last p c : Ptr) (xs : List ℕ)
    : Type 0 where
  pub front : List ℕ
  pub back : List ℕ
  pub whole : xs ≡ front ++ back
  pub front_links : Seg (prev_of ls) (next_of ls) prev cur p c front
  pub back_links : Seg (prev_of ls) (next_of ls) p c last none back
  pub front_After : After s ls px front
  pub back_Before : Before s ls px back

-- With a round for each level and one more, the walk ends at its place.
pub seek-Place :
    (f : ℕ) (s : Side) (px : ℕ) (ls : Levels) (prev cur last : Ptr) (xs : List ℕ)
    → length xs < f
    → Seg (prev_of ls) (next_of ls) prev cur last none xs
    → Sorted s ls xs
    → Unused ls px xs
    → let r = seek f s px ls prev cur in Place s px ls prev cur last r.0 r.1 xs
unfolding seek
seek-Place zero s px ls prev cur last xs lt g o u = absurd (omega arith)
seek-Place (suc f) s px ls prev cur last [] lt g o u = rw g.0 (record {
  front = [];
  back = [];
  whole = refl;
  front_links = (refl, refl);
  back_links = (refl, g.1);
  front_After = tt;
  back_Before = tt;
})
seek-Place (suc f) s px ls prev cur last (x ∷ xs) lt g o u =
    rw g.0 (elim (Bool-cases (better s (ls x).price_cents px)) [
      | inl e ↦
          let r = seek f s px ls (some x) (ls x).next_level in
          let q : Place s px ls (some x) (ls x).next_level last r.0 r.1 xs =
            seek-Place f s px ls (some x) (ls x).next_level last xs (omega arith) g.2 o.1 u.1 in
          rw (seek, e)
            (record {
              front = x ∷ q.front;
              back = q.back;
              whole = ap (λ t. x ∷ t) q.whole;
              front_links = (refl, g.1, q.front_links);
              back_links = q.back_links;
              front_After = (e, q.front_After);
              back_Before = q.back_Before;
            })
      | inr e ↦
          let h : better s px (ls x).price_cents ≡ true = better_total s _ px e u.0 in
          rw (seek, e)
            (record {
              front = [];
              back = x ∷ xs;
              whole = refl;
              front_links = (refl, refl);
              back_links = (refl, g.1, g.2);
              front_After = tt;
              back_Before = (h, Before-trans s ls px (ls x).price_cents xs h o.0);
            })
    ])

-- A new level at its place leaves the list sorted.
pub Sorted-insert :
    (s : Side) (ls : Levels) (l : ℕ) (hs ts : List ℕ)
    → Sorted s ls (hs ++ ts)
    → After s ls (ls l).price_cents hs
    → Before s ls (ls l).price_cents ts
    → Sorted s ls (hs ++ l ∷ ts)
Sorted-insert s ls l [] ts o a b = (b, o)
Sorted-insert s ls l (x ∷ hs) ts o a b =
    (Before-insert hs o.0, Sorted-insert s ls l hs ts o.1 a.1 b)
  where
    Before-insert :
        (ys : List ℕ)
        → Before s ls (ls x).price_cents (ys ++ ts)
        → Before s ls (ls x).price_cents (ys ++ l ∷ ts)
    Before-insert [] h = (a.0, h)
    Before-insert (y ∷ ys) h = (h.0, Before-insert ys h.1)

-- The order depends on the prices alone.
Before-congr :
    (s : Side) (ls ls' : Levels) (px : ℕ) (xs : List ℕ)
    → ((a : ℕ) → (ls' a).price_cents ≡ (ls a).price_cents)
    → Before s ls px xs
    → Before s ls' px xs
Before-congr s ls ls' px [] same b = tt
Before-congr s ls ls' px (x ∷ xs) same b = (rw (same x) b.0, Before-congr s ls ls' px xs same b.1)

pub Sorted-congr :
    (s : Side) (ls ls' : Levels) (xs : List ℕ)
    → ((a : ℕ) → (ls' a).price_cents ≡ (ls a).price_cents)
    → Sorted s ls xs
    → Sorted s ls' xs
Sorted-congr s ls ls' [] same o = tt
Sorted-congr s ls ls' (x ∷ xs) same o = (
  rw (same x) (Before-congr s ls ls' (ls x).price_cents xs same o.0),
  Sorted-congr s ls ls' xs same o.1,
)

Before-drop :
    (s : Side) (ls : Levels) (px l : ℕ) (hs ts : List ℕ)
    → Before s ls px (hs ++ l ∷ ts)
    → Before s ls px (hs ++ ts)
Before-drop s ls px l [] ts b = b.1
Before-drop s ls px l (x ∷ hs) ts b = (b.0, Before-drop s ls px l hs ts b.1)

-- A level that goes leaves the others sorted.
pub Sorted-drop :
    (s : Side) (ls : Levels) (l : ℕ) (hs ts : List ℕ)
    → Sorted s ls (hs ++ l ∷ ts)
    → Sorted s ls (hs ++ ts)
Sorted-drop s ls l [] ts o = o.1
Sorted-drop s ls l (x ∷ hs) ts o =
    (Before-drop s ls (ls x).price_cents l hs ts o.0, Sorted-drop s ls l hs ts o.1)
