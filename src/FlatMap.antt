-- ===== src/FlatMap.antt =====
-- The class template `FlatHashMap` of include/OrderBook.hpp: open addressing with linear probing.
-- The template parameters are arguments; `ValueT` is a pointer to a level. A mask of
-- `kCapacity - 1` is `% capacity`, since the capacity is a power of two.
pub mod Probe
pub mod Insert
pub mod Gap
pub mod Erase
pub mod Remove
use itchparser.Prelude.{
  ℕ, zero, suc, ◌+◌, ◌*◌, ◌/◌, ◌%◌, ◌^◌, bit_xor, Bool, true, false, none, ◌==◌, update, inc64,
  dec64,
}
use itchparser.Types.{Ptr}

pub record FlatMap : Type 0 where
  pub keys : ℕ → ℕ
  pub values : ℕ → Ptr
  pub size : ℕ

-- The private `hash`, on 64-bit words.
unfoldable pub hash : ℕ → ℕ
hash k =
    let x₁ = bit_xor k (k / 2 ^ 33) in
    let x₂ = x₁ * 0xff51afd7ed558ccd % 2 ^ 64 in
    let x₃ = bit_xor x₂ (x₂ / 2 ^ 33) in
    let x₄ = x₃ * 0xc4ceb9fe1a85ec53 % 2 ^ 64 in bit_xor x₄ (x₄ / 2 ^ 33)

module _ (capacity k_empty : ℕ) where
  unfoldable pub make_map : FlatMap
  make_map = record { keys = λ _. k_empty; values = λ _. none; size = 0 }

  unfoldable pub home : ℕ → ℕ
  home k = hash k % capacity

  abbrev pub step : ℕ → ℕ
  step i = (i + 1) % capacity

  abbrev pub write : ℕ → ℕ → Ptr → FlatMap → FlatMap
  write i k v m = record m { keys = update m.keys i k; values = update m.values i v }

  -- The probe loops, with the rounds that are left and the slot to look at.
  unfoldable pub insert_from : ℕ → ℕ → ℕ → Ptr → FlatMap → Bool × FlatMap
  insert_from zero i k v m = (false, m)
  insert_from (suc n) i k v m = elim (m.keys i == k_empty) [
    | true ↦ (true, record (write i k v m) { size = inc64 m.size })
    | false ↦ elim (m.keys i == k) [
      | true ↦ (false, record m { values = update m.values i v })
      | false ↦ insert_from n (step i) k v m
    ]
  ]

  unfoldable pub insert : ℕ → Ptr → FlatMap → Bool × FlatMap
  unfolding insert_from home
  insert k v m = insert_from capacity (home k) k v m

  unfoldable pub find_from : ℕ → ℕ → ℕ → FlatMap → Ptr
  find_from zero i k m = none
  find_from (suc n) i k m = elim (m.keys i == k_empty) [
    | true ↦ none
    | false ↦ elim (m.keys i == k) [ true ↦ m.values i | false ↦ find_from n (step i) k m ]
  ]

  unfoldable pub find : ℕ → FlatMap → Ptr
  unfolding find_from home
  find k m = find_from capacity (home k) k m

  -- Emptying a slot, as `erase` does before it closes the gap.
  abbrev pub vacate : ℕ → FlatMap → FlatMap
  vacate i m = record (write i k_empty none m) { size = dec64 m.size }

  -- The inner loop of `erase`: every key of the run behind the gap is taken out and put back.
  unfoldable pub repair : ℕ → ℕ → FlatMap → FlatMap
  unfolding insert
  repair zero j m = m
  repair (suc f) j m = elim (m.keys j == k_empty) [
    | true ↦ m
    | false ↦ repair f (step j) (insert (m.keys j) (m.values j) (vacate j m)).1
  ]

  unfoldable pub erase_from : ℕ → ℕ → ℕ → FlatMap → FlatMap
  unfolding repair
  erase_from zero i k m = m
  erase_from (suc n) i k m = elim (m.keys i == k_empty) [
    | true ↦ m
    | false ↦ elim (m.keys i == k) [
      | true ↦ repair (2 * capacity) (step i) (vacate i m)
      | false ↦ erase_from n (step i) k m
    ]
  ]

  unfoldable pub erase : ℕ → FlatMap → FlatMap
  unfolding erase_from home
  erase k m = erase_from capacity (home k) k m

  unfoldable pub clear : FlatMap → FlatMap
  clear m = record { keys = λ _. k_empty; values = λ _. none; size = 0 }
