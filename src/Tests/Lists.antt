-- ===== src/Tests/Lists.antt =====
-- The queue of a level and the list of levels of a side at concrete inputs.
use itchparser.Prelude.{
  ℕ, ◌+◌, ◌≡◌, ◌≢◌, dec64, refl, false, none, some, List, [], ◌∷◌, ◌++◌, arith, ◌==◌, has,
  if◌then◌else◌,
}
use itchparser.Types.{make_order, buy, PriceLevel}
use itchparser.Level.{Orders, make_level, reset, push_back, unlink_and_deduct}
use itchparser.Level.Queue.{IsQueue, contents, shares, push_back-IsQueue}
use itchparser.Level.Unlink.{unlink_and_deduct-IsQueue}
use itchparser.Pool.{link_pool}
use itchparser.Book.Orders.{partial, filled, fill_at}
use itchparser.Book.Side.{skeleton}
use itchparser.Book.Fills.{fill_at-IsQueue-partial, fill_at-IsQueue-filled}
use itchparser.Book.State.{Arena, Levels, OrderBook, make_book}
use itchparser.Book.LevelList.{better, insert_level_sorted, remove_level_from_list}
use itchparser.Book.Ladder.{IsLadder}
use itchparser.Book.Insertion.{bare, insert_level_sorted-IsLadder}
use itchparser.Book.Removal.{remove_level_from_list-IsLadder}

abbrev orders : Orders
orders o = make_order o 1 100 (if o == 0 then 10 else 20) buy 0 []

abbrev level : PriceLevel
level = reset 100 buy make_level

level-IsQueue : IsQueue level orders []
unfolding reset shares
level-IsQueue = record {
  linked = record { links = (refl, refl); distinct = tt; count = refl };
  total = refl;
}

abbrev one : PriceLevel × Orders
one = push_back 0 level orders

one-IsQueue : IsQueue one.0 one.1 (0 ∷ [])
one-IsQueue = (push_back-IsQueue 0 level orders [] level-IsQueue refl).0

push_back-IsQueue_example :
    IsQueue (push_back 1 one.0 one.1).0 (push_back 1 one.0 one.1).1 (0 ∷ 1 ∷ [])
    × ((a : ℕ) → contents ((push_back 1 one.0 one.1).1 a) ≡ contents (one.1 a))
    × ((a : ℕ) → has a (0 ∷ 1 ∷ []) ≡ false → (push_back 1 one.0 one.1).1 a ≡ one.1 a)
push_back-IsQueue_example = push_back-IsQueue 1 one.0 one.1 (0 ∷ []) one-IsQueue refl

abbrev two : PriceLevel × Orders
two = push_back 1 one.0 one.1

two-IsQueue : IsQueue two.0 two.1 (0 ∷ 1 ∷ [])
two-IsQueue = (push_back-IsQueue 1 one.0 one.1 (0 ∷ []) one-IsQueue refl).0

-- The older of two orders goes.
unlink_and_deduct-IsQueue_example :
    let r = unlink_and_deduct 0 two.0 two.1 in
    IsQueue r.0 r.1 (1 ∷ [])
    × ((a : ℕ) → contents (r.1 a) ≡ contents (two.1 a))
    × ((a : ℕ) → has a (0 ∷ 1 ∷ []) ≡ false → r.1 a ≡ two.1 a)
unfolding push_back make_order reset
unlink_and_deduct-IsQueue_example =
    unlink_and_deduct-IsQueue 0 two.0 two.1 [] (1 ∷ []) two-IsQueue (omega arith)

abbrev both : List ℕ
both = 0 ∷ 1 ∷ []

-- Bids at 102 and 100, and a level of 101 that is in no list.
abbrev levels : Levels
levels l =
    if l == 0
    then record (reset 102 buy make_level) { next_level = some 1 }
    else (if l == 1
        then record (reset 100 buy make_level) { prev_level = some 0 }
        else reset 101 buy make_level)

abbrev book : OrderBook
book = record make_book { best_bid = some 0; bid_level_count = 2 }

ladder : IsLadder buy book levels (0 ∷ 1 ∷ [])
unfolding reset better
ladder = record {
  last = some 1;
  links = (refl, refl, (refl, refl, (refl, refl)));
  distinct = (refl, (refl, tt));
  sorted = ((refl, tt), (tt, tt));
}

insert_level_sorted-IsLadder_example :
    (hs : List ℕ) × (ts : List ℕ) × ((0 ∷ 1 ∷ []) ≡ hs ++ ts)
    × IsLadder buy
        (insert_level_sorted buy 2 book levels).0
        (insert_level_sorted buy 2 book levels).1
        (hs ++ 2 ∷ ts)
    × ((a : ℕ) → bare ((insert_level_sorted buy 2 book levels).1 a) ≡ bare (levels a))
unfolding reset
insert_level_sorted-IsLadder_example =
    insert_level_sorted-IsLadder buy 2 book levels (0 ∷ 1 ∷ []) ladder refl
      (omega arith, (omega arith, tt)) (omega arith)

remove_level_from_list-IsLadder_example :
    let r = remove_level_from_list buy 0 book levels in
    IsLadder buy r.0 r.1 (1 ∷ []) × ((a : ℕ) → bare (r.1 a) ≡ bare (levels a))
remove_level_from_list-IsLadder_example =
    remove_level_from_list-IsLadder buy 0 book levels [] (1 ∷ []) ladder

abbrev arena : Arena
arena = record { orders = two.1; levels = λ _. two.0; level_pool = link_pool 1 (λ _. none) }

fill_at-IsQueue-partial_example :
    let r = fill_at 0 4 7 make_book arena in
    (r.0 ≡ partial)
    × IsQueue (r.1.1.levels 7) r.1.1.orders (0 ∷ 1 ∷ [])
    × ((r.1.1.orders 0).shares_remaining + 4 ≡ (two.1 0).shares_remaining)
unfolding push_back make_order reset
fill_at-IsQueue-partial_example =
    fill_at-IsQueue-partial 0 4 7 make_book arena [] (1 ∷ []) two-IsQueue (omega arith)
      (omega arith)

fill_at-IsQueue-filled_example :
    let r = fill_at 0 15 7 make_book arena in
    (r.0 ≡ filled)
    × IsQueue (r.1.1.levels 7) r.1.1.orders (1 ∷ [])
    × (r.1.0 ≡ record make_book { live_order_count = dec64 make_book.live_order_count })
    × (r.1.1.level_pool ≡ arena.level_pool)
    × (skeleton (r.1.1.levels 7) ≡ skeleton (arena.levels 7))
    × ((a : ℕ) → a ≢ 7 → r.1.1.levels a ≡ arena.levels a)
unfolding push_back make_order reset
fill_at-IsQueue-filled_example =
    fill_at-IsQueue-filled 0 15 7 make_book arena [] (1 ∷ []) two-IsQueue (omega arith)
      (omega arith) (omega arith) (omega arith)
