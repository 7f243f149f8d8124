-- ===== src/Index/Lookup.antt =====
-- `DirectOrderIndex` of include/MatchingEngine.hpp as a map from order ids to orders.
use itchparser.Prelude.{ℕ, ◌%◌, ◌≡◌, refl, true, none, some, [], ◌∷◌, arith, ◌==◌, if◌then◌else◌}
use itchparser.Level.{Orders}
use itchparser.Index.{
  index_capacity, OverflowMap, map_find, map_emplace, map_erase, DirectOrderIndex, make_index,
  slot_holds, find, insert, erase,
}

-- No id stands in the overflow map twice.
abbrev pub Once : OverflowMap → Type 0
Once [] = Unit {0}
Once ((j, p) ∷ m) = (map_find j m ≡ none) × Once m

pub record IsValid (ix : DirectOrderIndex) (os : Orders) : Type 0 where
  -- an order stands in the slot that its id selects
  pub homed : (s o : ℕ) → ix.slots s ≡ some o → (os o).order_id % index_capacity ≡ s
  pub filed : (id o : ℕ) → map_find id ix.overflow ≡ some o → (os o).order_id ≡ id
  -- no id stands both in its slot and in the overflow map
  pub apart :
      (id : ℕ)
      → slot_holds (ix.slots (id % index_capacity)) id os ≡ true
      → map_find id ix.overflow ≡ none
  pub once : Once ix.overflow

map_find-erase :
    (id j : ℕ) (m : OverflowMap)
    → Once m
    → map_find j (map_erase id m) ≡ (if j == id then none else map_find j m)
unfolding map_find map_erase
map_find-erase id j [] o = ground arith
map_find-erase id j ((k, p) ∷ m) o = ground (arith, map_find-erase id j m)

Once-erase : (id : ℕ) (m : OverflowMap) → Once m → Once (map_erase id m)
unfolding map_erase
Once-erase id [] o = tt
Once-erase id ((k, p) ∷ m) o = ground (arith, map_find-erase id k m, Once-erase id m)

pub make_index-IsValid : (os : Orders) → IsValid make_index os
unfolding make_index map_find slot_holds
make_index-IsValid os = record {
  homed = λ s o h. absurd (cc);
  filed = λ id o h. absurd (cc);
  apart = λ id h. refl;
  once = tt;
}

-- What the index finds under an id is an order with that id.
pub find-order_id :
    (id o : ℕ) (ix : DirectOrderIndex) (os : Orders)
    → IsValid ix os
    → find id ix os ≡ some o
    → (os o).order_id ≡ id
unfolding find slot_holds
find-order_id id o ix os v h = ground (arith, v.filed id o)

module _ (id o : ℕ) (ix : DirectOrderIndex) (os : Orders) (v : IsValid ix os) where
  -- An id that is not in the index goes in, and no other lookup changes.
  insert-fresh :
      find id ix os ≡ none
      → (os o).order_id ≡ id
      → ((insert id o ix os).0 ≡ true)
        × ((j : ℕ) → find j (insert id o ix os).1 os ≡ (if j == id then some o else find j ix os))
  unfolding find insert map_emplace map_find slot_holds
  insert-fresh absent named = (ground arith, λ j. ground arith)

  insert-homed :
      find id ix os ≡ none
      → (os o).order_id ≡ id
      → (s p : ℕ) → (insert id o ix os).1.slots s ≡ some p
      → (os p).order_id % index_capacity ≡ s
  unfolding find insert map_emplace map_find slot_holds
  insert-homed absent named s p = ground (arith, v.homed s p)

  insert-filed :
      find id ix os ≡ none
      → (os o).order_id ≡ id
      → (j p : ℕ) → map_find j (insert id o ix os).1.overflow ≡ some p
      → (os p).order_id ≡ j
  unfolding find insert map_emplace map_find slot_holds
  insert-filed absent named j p = ground (arith, v.filed j p)

  insert-apart :
      find id ix os ≡ none
      → (os o).order_id ≡ id
      → (j : ℕ) → slot_holds ((insert id o ix os).1.slots (j % index_capacity)) j os ≡ true
      → map_find j (insert id o ix os).1.overflow ≡ none
  unfolding find insert map_emplace map_find slot_holds
  insert-apart absent named j = ground (arith, v.apart j)

  insert-Once : find id ix os ≡ none → Once (insert id o ix os).1.overflow
  unfolding find insert map_emplace map_find slot_holds
  insert-Once absent = ground (arith, v.once)

  erase-found :
      find id ix os ≡ some o
      → ((erase id ix os).0 ≡ true)
        × ((j : ℕ) → find j (erase id ix os).1 os ≡ (if j == id then none else find j ix os))
  unfolding find erase slot_holds
  erase-found found =
      (ground arith, λ j. ground (arith, v.apart id, map_find-erase id j ix.overflow v.once))

  erase-homed :
      (s p : ℕ) → (erase id ix os).1.slots s ≡ some p → (os p).order_id % index_capacity ≡ s
  unfolding erase
  erase-homed s p = ground (arith, v.homed s p)

  erase-filed : (j p : ℕ) → map_find j (erase id ix os).1.overflow ≡ some p → (os p).order_id ≡ j
  unfolding erase
  erase-filed j p = ground (arith, v.filed j p, map_find-erase id j ix.overflow v.once)

  erase-apart :
      (j : ℕ)
      → slot_holds ((erase id ix os).1.slots (j % index_capacity)) j os ≡ true
      → map_find j (erase id ix os).1.overflow ≡ none
  unfolding erase slot_holds
  erase-apart j = ground (arith, v.apart j, map_find-erase id j ix.overflow v.once)

  erase-Once : Once (erase id ix os).1.overflow
  unfolding erase
  erase-Once = ground (arith, Once-erase id ix.overflow v.once)

-- Into a valid index an order whose id is not found goes in under its own id: `insert` succeeds, the
-- index stays valid, and every lookup is as before, but for the id, which now finds the order.
pub insert-IsValid :
    (id o : ℕ) (ix : DirectOrderIndex) (os : Orders)
    → IsValid ix os
    → find id ix os ≡ none
    → (os o).order_id ≡ id
    → ((insert id o ix os).0 ≡ true)
      × IsValid (insert id o ix os).1 os
      × ((j : ℕ) → find j (insert id o ix os).1 os ≡ (if j == id then some o else find j ix os))
insert-IsValid id o ix os v absent named =
    let fresh = insert-fresh id o ix os v absent named in
    (
      fresh.0,
      record {
        homed = insert-homed id o ix os v absent named;
        filed = insert-filed id o ix os v absent named;
        apart = insert-apart id o ix os v absent named;
        once = insert-Once id o ix os v absent;
      },
      fresh.1,
    )

-- Out of a valid index an id that it finds comes out: `erase` succeeds, the index stays valid, and
-- every lookup is as before, but for the id, which now finds nothing.
pub erase-IsValid :
    (id o : ℕ) (ix : DirectOrderIndex) (os : Orders)
    → IsValid ix os
    → find id ix os ≡ some o
    → ((erase id ix os).0 ≡ true)
      × IsValid (erase id ix os).1 os
      × ((j : ℕ) → find j (erase id ix os).1 os ≡ (if j == id then none else find j ix os))
erase-IsValid id o ix os v found =
    let gone = erase-found id o ix os v found in
    (
      gone.0,
      record {
        homed = erase-homed id o ix os v;
        filed = erase-filed id o ix os v;
        apart = erase-apart id o ix os v;
        once = erase-Once id o ix os v;
      },
      gone.1,
    )
