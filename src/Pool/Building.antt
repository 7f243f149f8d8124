-- ===== src/Pool/Building.antt =====
-- The constructor of `MemoryPool` (include/MemoryPool.hpp): a new pool has all its slots free.
use itchparser.Prelude.{
  ℕ, zero, suc, ◌+◌, ◌<◌, ◌≤◌, ◌≡◌, refl, true, false, none, some, List, [], ◌∷◌, arith, ◌*◌, ◌^◌,
  Bool, leb, ◌⊎◌, inl, inr, Bool-cases, length, has, Distinct, update, ap, ◌∙◌,
}
use native.Mathlib.Nat.{add-zero, zero-add, mod-eq_of_lt}
use native.Mathlib.Numerals.{add-one}
use itchparser.Types.{Ptr}
use itchparser.Pool.{MemoryPool, bad_alloc, built, block_bytes, link_slots, link_pool, make_pool}
use itchparser.Pool.Ownership.{Chain, Below, Chain-update, Owns}

unfoldable pub count_down : ℕ → List ℕ
count_down zero = []
count_down (suc n) = n ∷ count_down n

has-count_down : (n a : ℕ) → n ≤ a → has a (count_down n) ≡ false
unfolding count_down
has-count_down zero a h = refl
has-count_down (suc n) a h = ground (arith, has-count_down n a)

Distinct-count_down : (n : ℕ) → Distinct (count_down n)
unfolding count_down
Distinct-count_down zero = tt
Distinct-count_down (suc n) = (has-count_down n n (omega arith), Distinct-count_down n)

Below-count_down : (m n : ℕ) → n ≤ m → Below m (count_down n)
unfolding count_down
Below-count_down m zero h = tt
Below-count_down m (suc n) h = (h, Below-count_down m n (omega arith))

length-count_down : (n : ℕ) → length (count_down n) ≡ n
unfolding count_down
length-count_down zero = refl
length-count_down (suc n) = ap suc (length-count_down n)

link_slots-Chain :
    (n i : ℕ) (prev : Ptr) (nodes : ℕ → Ptr)
    → Chain nodes prev (count_down i)
    → Chain (link_slots n i prev nodes).1 (link_slots n i prev nodes).0 (count_down (i + n))
unfolding link_slots count_down
link_slots-Chain zero i prev nodes c = rw (add-zero i) c
link_slots-Chain (suc n) i prev nodes c =
    rw (let e : i + suc n ≡ suc i + n = omega arith in e, link_slots, add-one i)
      (link_slots-Chain n (suc i) (some i) (update nodes i prev) (
        refl,
        rw (let e : update nodes i prev i ≡ prev = ground arith in e)
            (Chain-update nodes prev i prev (count_down i) (has-count_down i i (omega arith)) c),
      ))

capacity_kept : (capacity : ℕ) (raw : ℕ → Ptr) → (link_pool capacity raw).capacity ≡ capacity
unfolding link_pool
capacity_kept capacity raw = refl

block_bytes-fits :
    (slot_bytes capacity : ℕ)
    → capacity * slot_bytes < 2 ^ 64
    → block_bytes slot_bytes capacity ≡ capacity * slot_bytes
unfolding block_bytes
block_bytes-fits slot_bytes capacity fits = mod-eq_of_lt fits

leb_refl : (n : ℕ) → leb n n ≡ true
leb_refl n = ground arith

pub link_pool-Owns :
    (capacity : ℕ) (raw : ℕ → Ptr) → Owns (link_pool capacity raw) (count_down capacity) []
unfolding link_pool count_down
link_pool-Owns capacity raw = record {
  chain = rw (zero-add capacity) at (link_slots-Chain capacity 0 none raw refl);
  free_distinct = Distinct-count_down capacity;
  live_distinct = tt;
  apart = λ a h. refl;
  free_below = Below-count_down capacity capacity (omega arith);
  live_below = tt;
  complete = omega (arith, length-count_down capacity);
}

-- Where the size of a pool in bytes fits 64 bits, and whatever the block held before, the constructor
-- throws if `operator new[]` refuses a block of that size, and otherwise makes a pool that has all its
-- slots on the free list, each once and the last one first, and none in use.
pub make_pool-Owns :
    (allocate : ℕ → Bool) (slot_bytes capacity : ℕ) (raw : ℕ → Ptr)
    → capacity * slot_bytes < 2 ^ 64
    → ((allocate (capacity * slot_bytes) ≡ false)
        × (make_pool allocate slot_bytes capacity raw ≡ bad_alloc))
      ⊎ ((allocate (capacity * slot_bytes) ≡ true)
          × (pool : MemoryPool) × (make_pool allocate slot_bytes capacity raw ≡ built pool)
          × (pool.capacity ≡ capacity)
          × Owns pool (count_down capacity) [])
unfolding make_pool
make_pool-Owns allocate slot_bytes capacity raw fits =
    let whole = block_bytes-fits slot_bytes capacity fits in
    let room = ap (leb (capacity * slot_bytes)) whole ∙ leb_refl (capacity * slot_bytes) in
    elim (Bool-cases (allocate (capacity * slot_bytes))) [
      | inr h ↦ inl (h, rw (make_pool, ap allocate whole ∙ h) refl)
      | inl h ↦ inr (
        h,
        link_pool capacity raw,
        rw (make_pool, ap allocate whole ∙ h, room) refl,
        capacity_kept capacity raw,
        link_pool-Owns capacity raw,
      )
    ]
