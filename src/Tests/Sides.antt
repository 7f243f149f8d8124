-- ===== src/Tests/Sides.antt =====
-- One side of a book, its map and its list, at concrete inputs.
use itchparser.Prelude.{
  ℕ, ◌<◌, ◌^◌, leb, has, true, ◌≡◌, refl, subst, none, List, [], ◌∷◌, ◌++◌, arith,
}
use itchparser.Types.{make_order, buy}
use itchparser.Level.{make_level, reset, push_back, link_tail}
use itchparser.Pool.{link_pool}
use itchparser.FlatMap.{make_map, find, insert, hash}
use itchparser.Book.State.{Arena, OrderBook, make_book, find_level, insert_level_into_map}
use itchparser.Book.LevelList.{insert_level_sorted}
use itchparser.Book.Orders.{remove_order, execute_order, create_level, append_order}
use itchparser.Book.Side.{level_at, IsSide, make_book-IsSide}
use itchparser.Book.Side.Insertion.{create_level-IsSide}
use itchparser.Book.Side.Adding.{append_order-IsSide}
use itchparser.Book.Side.Filling.{Filled, execute_order-IsSide}
use itchparser.Book.Side.Reducing.{Shrunk, remove_order-IsSide}

-- Order 5 is a bid at 100; the pool has four levels.
abbrev arena : Arena
arena = record {
  orders = λ o. make_order o 1 100 10 buy 0 [];
  levels = λ _. make_level;
  level_pool = link_pool 4 (λ _. none);
}

-- Level 3 is made for the price, and the order put in it.
abbrev created_one : OrderBook × Arena
created_one = create_level buy 100 3 make_book arena

abbrev one : OrderBook × Arena
one = append_order 5 3 created_one.0 created_one.1

parts_of_nil : (hs ts : List ℕ) → [] ≡ hs ++ ts → hs ++ 3 ∷ ts ≡ 3 ∷ []
parts_of_nil [] [] h = refl
parts_of_nil [] (t ∷ ts) h = absurd (ground arith)
parts_of_nil (x ∷ hs) ts h = absurd (ground arith)

created_one-IsSide : IsSide buy created_one.0 created_one.1.levels (3 ∷ [])
unfolding make_book make_map find_level find
created_one-IsSide =
    let r =
      create_level-IsSide buy 100 3 0 make_book arena [] (make_book-IsSide buy arena.levels) refl
        (omega arith) refl (omega arith) refl (omega arith) in
    subst (λ ys. IsSide buy created_one.0 created_one.1.levels ys) (parts_of_nil r.0 r.1 r.2) r.3

one-IsSide : IsSide buy one.0 one.1.levels (3 ∷ [])
one-IsSide = append_order-IsSide 5 3 created_one.0 created_one.1 buy (3 ∷ []) created_one-IsSide

small : (a : ℕ) → has a (3 ∷ []) ≡ true → (one.1.levels a).order_count < 2 ^ 32
unfolding append_order push_back link_tail create_level insert_level_sorted reset
small a h = ground arith

remove_order-IsSide_example :
    (ys : List ℕ) × IsSide buy
      (remove_order 5 one.0 one.1).1.0
      (remove_order 5 one.0 one.1).1.1.levels
      ys
    × Shrunk
        (level_at one.1.levels 100 (3 ∷ []))
        one.1.levels
        (remove_order 5 one.0 one.1).0
        (3 ∷ [])
        ys
unfolding make_order make_book make_map append_order create_level insert_level_into_map
    insert_level_sorted reset insert hash
remove_order-IsSide_example =
    remove_order-IsSide 5 0 one.0 one.1 (3 ∷ []) one-IsSide (omega arith) (omega arith) refl
      (omega arith) small

execute_order-IsSide_example :
    (ys : List ℕ) × IsSide buy
      (execute_order 5 10 one.0 one.1).1.0
      (execute_order 5 10 one.0 one.1).1.1.levels
      ys
    × Filled
        (level_at one.1.levels 100 (3 ∷ []))
        (leb (one.1.orders 5).shares_remaining 10)
        one.1.levels
        (execute_order 5 10 one.0 one.1).0
        (3 ∷ [])
        ys
unfolding make_order make_book make_map append_order create_level insert_level_into_map
    insert_level_sorted reset insert hash
execute_order-IsSide_example =
    execute_order-IsSide 5 10 0 one.0 one.1 (3 ∷ []) one-IsSide (omega arith) (omega arith) refl
      (omega arith) small
