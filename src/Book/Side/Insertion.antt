-- ===== src/Book/Side/Insertion.antt =====
-- The creation of a level in `add_order` of include/OrderBook.hpp, on the map and the list of a side.
use itchparser.Prelude.{
  ℕ, ◌+◌, ◌<◌, ◌^◌, ◌≡◌, ◌≢◌, refl, sym, ap, ◌∙◌, subst, arith, false, none, some, List, [], ◌∷◌,
  ◌++◌, length, length-append, has, update, inc64, ◌==◌, if◌then◌else◌, ==_ne, ==_refl, ne_of_has,
}
use itchparser.Types.{Side, buy, sell}
use itchparser.FlatMap.Probe.{IsChained}
use itchparser.FlatMap.Insert.{find-insert}
use itchparser.Level.{make_level, reset}
use itchparser.Book.State.{
  Levels, Arena, OrderBook, best, level_count, find_level, insert_level_into_map,
  k_price_level_map_capacity, k_empty_price,
}
use itchparser.Book.LevelList.{insert_level_sorted}
use itchparser.Book.Orders.{create_level}
use itchparser.Book.Ladder.{Unused}
use itchparser.Book.Insertion.{insert-bare, insert_level_sorted-IsLadder}
use itchparser.Book.Side.{
  side_map, level_at, IsSide, Agrees, IsLadder-frame, Unused-level_at, level_at-congr,
}

-- A new level with a price that no other has is found at its price, and only there.
pub level_at-insert :
    (ls : Levels) (l q : ℕ) (hs ts : List ℕ)
    → Unused ls (ls l).price_cents (hs ++ ts)
    → level_at ls q (hs ++ l ∷ ts)
      ≡ (if q == (ls l).price_cents then some l else level_at ls q (hs ++ ts))
level_at-insert ls l q [] ts u = ground arith
level_at-insert ls l q (x ∷ hs) ts u = ground (arith, level_at-insert ls l q hs ts u.1)

module _ (s : Side) (l : ℕ) (b : OrderBook) (ls : Levels) where
  insert-side_map : side_map s (insert_level_sorted s l b ls).0 ≡ side_map s b
  unfolding insert_level_sorted
  insert-side_map = ground arith

  insert-level_count : level_count s (insert_level_sorted s l b ls).0 ≡ level_count s b
  unfolding insert_level_sorted
  insert-level_count = ground arith

  insert-find_level : (q : ℕ) → find_level s q (insert_level_sorted s l b ls).0 ≡ find_level s q b
  unfolding insert_level_sorted find_level
  insert-find_level q = ground arith

-- Writing the map leaves the head of the side.
map-best :
    (s : Side) (px l : ℕ) (b : OrderBook) → best s (insert_level_into_map s px l b) ≡ best s b
unfolding insert_level_into_map
map-best buy px l b = refl
map-best sell px l b = refl

map-level_count :
    (s : Side) (px l : ℕ) (b : OrderBook)
    → level_count s (insert_level_into_map s px l b) ≡ inc64 (level_count s b)
unfolding insert_level_into_map
map-level_count buy px l b = refl
map-level_count sell px l b = refl

-- A new level is found at its price, and every other price as before.
map-find_level :
    (s : Side) (px l e : ℕ) (b : OrderBook)
    → IsChained k_price_level_map_capacity k_empty_price (side_map s b)
    → px ≢ k_empty_price
    → e < k_price_level_map_capacity
    → (side_map s b).keys e ≡ k_empty_price
    → IsChained k_price_level_map_capacity k_empty_price
        (side_map s (insert_level_into_map s px l b))
      × ((q : ℕ)
          → q ≢ k_empty_price
          → find_level s q (insert_level_into_map s px l b)
            ≡ (if q == px then some l else find_level s q b))
unfolding insert_level_into_map find_level
map-find_level buy px l e b ch ne le free =
    find-insert k_price_level_map_capacity k_empty_price b.bid_map px (some l) e ch ne le free
map-find_level sell px l e b ch ne le free =
    find-insert k_price_level_map_capacity k_empty_price b.ask_map px (some l) e ch ne le free

module _ (s : Side) (px l e : ℕ) (b : OrderBook) (m : Arena) (xs : List ℕ) where
  -- The levels with the new one, before it is linked.
  abbrev made : Levels
  made = update m.levels l (reset px s make_level)

  abbrev linked : OrderBook × Levels
  linked = insert_level_sorted s l b made

  made-price : (made l).price_cents ≡ px
  unfolding reset
  made-price = rw (==_refl l) refl

  made-Agrees : has l xs ≡ false → Agrees m.levels made xs
  made-Agrees out a h = rw (==_ne a l (ne_of_has a l xs h out)) refl

  grows :
      (hs : List ℕ) (l : ℕ) (ts : List ℕ)
      → length xs + 1 < 2 ^ 64
      → xs ≡ hs ++ ts
      → inc64 (length xs) ≡ length (hs ++ l ∷ ts)
  grows hs l ts few whole =
      let n : length xs ≡ length (hs ++ ts) = ap length whole in
      omega (arith, length-append hs ts, length-append hs (l ∷ ts))

  -- A new level goes into the list and the map.
  pub create_level-IsSide :
      IsSide s b m.levels xs
      → has l xs ≡ false
      → px ≢ k_empty_price
      → find_level s px b ≡ none
      → e < k_price_level_map_capacity
      → (side_map s b).keys e ≡ k_empty_price
      → length xs + 1 < 2 ^ 64
      → (hs : List ℕ) × (ts : List ℕ) × (xs ≡ hs ++ ts)
        × IsSide s (create_level s px l b m).0 (create_level s px l b m).1.levels (hs ++ l ∷ ts)
        × (find_level s px (create_level s px l b m).0 ≡ some l)
  unfolding create_level
  create_level-IsSide side out ne absent le free few =
      let same = made-Agrees out in
      let old = level_at-congr m.levels made px xs (λ a h. ap (λ k. k.0) (same a h)) in
      let unused : Unused made (made l).price_cents xs =
        rw made-price (Unused-level_at made px xs (old ∙ sym (side.found px ne) ∙ absent)) in
      let (hs, ts, whole, ladder, kept) =
        insert_level_sorted-IsLadder s l b made xs
          (IsLadder-frame s b b m.levels made xs refl same side.ladder) out unused
          (omega (arith, side.counted)) in
      let price : (linked.1 l).price_cents ≡ px = ap (λ v. v.price_cents) (kept l) ∙ made-price in
      let chained₀ : IsChained k_price_level_map_capacity k_empty_price (side_map s linked.0) =
        rw (insert-side_map s l b made) side.chained in
      let mapped =
        map-find_level s px l e linked.0 chained₀ ne le (rw (insert-side_map s l b made) free) in
      let found : (q : ℕ)
          → q ≢ k_empty_price
          → find_level s q (insert_level_into_map s px l linked.0)
            ≡ level_at linked.1 q (hs ++ l ∷ ts) =
        λ q qe.
          let unused' : Unused made (made l).price_cents (hs ++ ts) =
            subst (λ ys. Unused made (made l).price_cents ys) whole unused in
          let before : find_level s q linked.0 ≡ level_at made q (hs ++ ts) =
            insert-find_level s l b made q
            ∙ side.found q qe
            ∙ sym (level_at-congr m.levels made q xs (λ a h. ap (λ k. k.0) (same a h)))
            ∙ ap (level_at made q) whole in
          let after : level_at made q (hs ++ l ∷ ts)
              ≡ (if q == px then some l else level_at made q (hs ++ ts)) =
            level_at-insert made l q hs ts unused'
            ∙ ap (λ p. if q == p then some l else level_at made q (hs ++ ts)) made-price in
          mapped.1 q qe
          ∙ ap (λ f. if q == px then some l else f) before
          ∙ sym after
          ∙ sym (
              level_at-congr made linked.1 q (hs ++ l ∷ ts)
                (λ a h. ap (λ v. v.price_cents) (kept a))) in
      rw price (
        hs,
        ts,
        whole,
        record {
          ladder =
              IsLadder-frame s linked.0 (insert_level_into_map s px l linked.0) linked.1 linked.1
                (hs ++ l ∷ ts) (map-best s px l linked.0) (λ a h. refl) ladder;
          chained = mapped.0;
          counted =
              map-level_count s px l linked.0
              ∙ ap inc64 (insert-level_count s l b made ∙ side.counted)
              ∙ grows hs l ts few whole;
          found = found;
        },
        mapped.1 px ne ∙ rw (==_refl px) refl,
      )

-- The level that `create_level` makes has the price and no orders.
pub create_level-fresh :
    (s : Side) (px l : ℕ) (b : OrderBook) (m : Arena)
    → (((create_level s px l b m).1.levels l).price_cents ≡ px)
      × (((create_level s px l b m).1.levels l).tail_order ≡ none)
unfolding create_level reset
create_level-fresh s px l b m =
    let new = insert-bare s l b (update m.levels l (reset px s make_level)) l in
    (
      ap (λ v. v.price_cents) new ∙ rw (==_refl l) refl,
      ap (λ v. v.tail_order) new ∙ rw (==_refl l) refl,
    )
