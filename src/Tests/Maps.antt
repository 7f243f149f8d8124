-- ===== src/Tests/Maps.antt =====
-- The pool, the price map and the order index at concrete inputs.
use itchparser.Prelude.{
  ℕ, ◌+◌, ◌-◌, ◌^◌, ◌≡◌, refl, ◌≢◌, true, false, ltb, ◌⊎◌, none, some, [], ◌∷◌, arith, ◌==◌,
  if◌then◌else◌,
}
use itchparser.Types.{make_order, buy}
use itchparser.Level.{Orders}
use itchparser.Pool.{
  MemoryPool, bad_alloc, overrun, built, link_pool, make_pool, acquire, release, free_count,
}
use itchparser.Pool.Ownership.{Owns, acquire-Owns, release-Owns, free_count_lem}
use itchparser.Pool.Building.{count_down, link_pool-Owns, make_pool-Owns}
use itchparser.FlatMap
use itchparser.FlatMap.{FlatMap}
use itchparser.FlatMap.Probe.{IsChained}
use itchparser.FlatMap.Insert.{find-insert}
use itchparser.FlatMap.Remove.{find-erase}
use itchparser.Index
use itchparser.Index.{DirectOrderIndex, make_index}
use itchparser.Index.Lookup.{IsValid, make_index-IsValid, insert-IsValid, erase-IsValid}

abbrev pool : MemoryPool
pool = link_pool 3 (λ _. some 5)

make_pool-Owns_example :
    ((true ≡ false) × (make_pool (λ n. ltb n 1000) 64 3 (λ _. some 5) ≡ bad_alloc))
    ⊎ ((true ≡ true)
        × (p : MemoryPool) × (make_pool (λ n. ltb n 1000) 64 3 (λ _. some 5) ≡ built p)
        × (p.capacity ≡ 3)
        × Owns p (2 ∷ 1 ∷ 0 ∷ []) [])
unfolding count_down
make_pool-Owns_example = make_pool-Owns (λ n. ltb n 1000) 64 3 (λ _. some 5) (omega arith)

-- 2 ^ 58 slots of 64 bytes ask for a block of no bytes.
wrapped : make_pool (λ n. ltb n 1000) 64 (2 ^ 58) (λ _. none) ≡ overrun
unfolding make_pool
wrapped = refl

owned : Owns pool (2 ∷ 1 ∷ 0 ∷ []) []
unfolding count_down
owned = link_pool-Owns 3 (λ _. some 5)

acquire-Owns_example : ((acquire pool).0 ≡ some 2) × Owns (acquire pool).1 (1 ∷ 0 ∷ []) (2 ∷ [])
acquire-Owns_example = acquire-Owns pool 2 (1 ∷ 0 ∷ []) [] owned

used : Owns (acquire pool).1 (1 ∷ 0 ∷ []) (2 ∷ [])
used = (acquire-Owns pool 2 (1 ∷ 0 ∷ []) [] owned).1

release-Owns_example : Owns (release (some 2) (acquire pool).1) (2 ∷ 1 ∷ 0 ∷ []) []
release-Owns_example = release-Owns (acquire pool).1 2 (1 ∷ 0 ∷ []) (2 ∷ []) used refl

free_count_lem_example : free_count (acquire pool).1 ≡ some ((acquire pool).1.capacity - 1)
free_count_lem_example = free_count_lem (acquire pool).1 (1 ∷ 0 ∷ []) (2 ∷ []) used

abbrev map : FlatMap
map = FlatMap.make_map 4 99

map-IsChained : IsChained 4 99 map
unfolding FlatMap.make_map
map-IsChained j lt used = absurd (used refl)

find-insert_example :
    IsChained 4 99 (FlatMap.insert 4 99 5 (some 0) map).1
    × ((q : ℕ)
        → q ≢ 99
        → FlatMap.find 4 99 q (FlatMap.insert 4 99 5 (some 0) map).1
          ≡ (if q == 5 then some 0 else FlatMap.find 4 99 q map))
unfolding FlatMap.make_map
find-insert_example =
    find-insert 4 99 map 5 (some 0) 0 map-IsChained (omega arith) (omega arith) refl

abbrev filled : FlatMap
filled = (FlatMap.insert 4 99 5 (some 0) map).1

filled-IsChained : IsChained 4 99 filled
unfolding FlatMap.make_map
filled-IsChained =
    (find-insert 4 99 map 5 (some 0) 0 map-IsChained (omega arith) (omega arith) refl).0

find-erase_example :
    IsChained 4 99 (FlatMap.erase 4 99 5 filled)
    × ((q : ℕ)
        → q ≢ 99
        → FlatMap.find 4 99 q (FlatMap.erase 4 99 5 filled)
          ≡ (if q == 5 then none else FlatMap.find 4 99 q filled))
unfolding FlatMap.make_map FlatMap.insert FlatMap.hash
find-erase_example = find-erase 4 99 filled 5 3 filled-IsChained (omega arith) (omega arith) refl

-- Two ids with the same low bits.
abbrev orders : Orders
orders o = make_order (if o == 0 then 7 else 7 + 2 ^ 25) 1 100 10 buy 0 []

abbrev first : DirectOrderIndex
first = (Index.insert 7 0 make_index orders).1

first-IsValid : IsValid first orders
unfolding make_index Index.find make_order
first-IsValid = (insert-IsValid 7 0 make_index orders (make_index-IsValid orders) refl refl).1

insert-IsValid_example :
    let id = 7 + 2 ^ 25 in
    let r = Index.insert id 1 first orders in
    (r.0 ≡ true)
    × IsValid r.1 orders
    × ((j : ℕ) → Index.find j r.1 orders ≡ (if j == id then some 1 else Index.find j first orders))
unfolding make_index Index.find Index.insert make_order
insert-IsValid_example = insert-IsValid (7 + 2 ^ 25) 1 first orders first-IsValid refl refl

erase-IsValid_example :
    let r = Index.erase 7 first orders in
    (r.0 ≡ true)
    × IsValid r.1 orders
    × ((j : ℕ) → Index.find j r.1 orders ≡ (if j == 7 then none else Index.find j first orders))
unfolding make_index Index.find Index.insert make_order
erase-IsValid_example = erase-IsValid 7 0 first orders first-IsValid refl
