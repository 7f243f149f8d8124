-- ===== src/Index.antt =====
-- The class `DirectOrderIndex` of include/MatchingEngine.hpp: a slot array addressed by the low
-- bits of the order id, and an overflow map for ids whose slot another order holds. The slots
-- point at orders, so the index reads ids through the store of orders. `std::unordered_map` is an
-- association list in which a key stands at most once.
pub mod Lookup
use itchparser.Prelude.{
  ℕ, ◌%◌, ◌^◌, Bool, true, false, none, some, List, [], ◌∷◌, ◌==◌, if◌then◌else◌, update, inc64,
  dec64,
}
use itchparser.Types.{Ptr}
use itchparser.Level.{Orders}

-- `kCapacity`; `id & kMask` is `id % index_capacity`
abbrev pub index_capacity : ℕ
index_capacity = 2 ^ 25

abbrev pub OverflowMap : Type 0
OverflowMap = List (ℕ × ℕ)

unfoldable pub map_find : ℕ → OverflowMap → Ptr
map_find id [] = none
map_find id ((j, p) ∷ m) = if j == id then some p else map_find id m

-- `emplace` leaves an entry that is there, and says whether it inserted.
unfoldable pub map_emplace : ℕ → ℕ → OverflowMap → Bool × OverflowMap
unfolding map_find
map_emplace id p m = elim (map_find id m) [ none ↦ (true, (id, p) ∷ m) | some _ ↦ (false, m) ]

unfoldable pub map_erase : ℕ → OverflowMap → OverflowMap
map_erase id [] = []
map_erase id ((j, p) ∷ m) = if j == id then m else (j, p) ∷ map_erase id m

pub record DirectOrderIndex : Type 0 where
  pub slots : ℕ → Ptr
  pub overflow : OverflowMap
  pub count : ℕ
  pub collisions : ℕ

unfoldable pub make_index : DirectOrderIndex
make_index = record { slots = λ _. none; overflow = []; count = 0; collisions = 0 }

-- `slot->order_id == id`, where the slot is not null
unfoldable pub slot_holds : Ptr → ℕ → Orders → Bool
slot_holds none id os = false
slot_holds (some o) id os = (os o).order_id == id

unfoldable pub find : ℕ → DirectOrderIndex → Orders → Ptr
unfolding slot_holds map_find
find id ix os =
    let slot = ix.slots (id % index_capacity) in
    if slot_holds slot id os then slot else map_find id ix.overflow

-- `insert` where another order holds the slot.
unfoldable pub insert_overflow : ℕ → ℕ → DirectOrderIndex → Bool × DirectOrderIndex
unfolding map_emplace
insert_overflow id o ix =
    let put = map_emplace id o ix.overflow in
    if put.0
    then (
      true,
      record ix { overflow = put.1; count = inc64 ix.count; collisions = inc64 ix.collisions },
    )
    else (false, ix)

unfoldable pub insert : ℕ → ℕ → DirectOrderIndex → Orders → Bool × DirectOrderIndex
unfolding insert_overflow
insert id o ix os = elim (ix.slots (id % index_capacity)) [
  | none ↦ (
    true,
    record ix { slots = update ix.slots (id % index_capacity) (some o); count = inc64 ix.count },
  )
  | some held ↦ if (os held).order_id == id then (false, ix) else insert_overflow id o ix
]

-- `erase` where the slot does not hold the id.
unfoldable pub erase_overflow : ℕ → DirectOrderIndex → Bool × DirectOrderIndex
unfolding map_find map_erase
erase_overflow id ix = elim (map_find id ix.overflow) [
  | none ↦ (false, ix)
  | some _ ↦ (true, record ix { overflow = map_erase id ix.overflow; count = dec64 ix.count })
]

unfoldable pub erase : ℕ → DirectOrderIndex → Orders → Bool × DirectOrderIndex
unfolding slot_holds erase_overflow
erase id ix os =
    if slot_holds (ix.slots (id % index_capacity)) id os
    then (
      true,
      record ix { slots = update ix.slots (id % index_capacity) none; count = dec64 ix.count },
    )
    else erase_overflow id ix

unfoldable pub clear : DirectOrderIndex → DirectOrderIndex
clear ix = record ix { slots = λ _. none; overflow = []; count = 0 }
