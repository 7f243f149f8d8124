-- ===== src/Pool.antt =====
-- include/MemoryPool.hpp. The link of a free slot overlays the first word of the slot; it is kept
-- in a map of its own here, and no code reads a slot both ways while it is free or in use.
pub mod Ownership
pub mod Building
use itchparser.Prelude.{
  ℕ, zero, suc, ◌+◌, ◌*◌, ◌%◌, ◌^◌, Bool, true, false, leb, if◌then◌else◌, Option, none, some,
  update,
}
use itchparser.Types.{Ptr}

pub record MemoryPool : Type 0 where
  pub capacity : ℕ
  pub next : ℕ → Ptr
  pub head : Ptr

-- The loop of the constructor from slot `i`, with the rounds that are left.
unfoldable pub link_slots : ℕ → ℕ → Ptr → (ℕ → Ptr) → Ptr × (ℕ → Ptr)
link_slots zero i prev nodes = (prev, nodes)
link_slots (suc n) i prev nodes = link_slots n (i + 1) (some i) (update nodes i prev)

-- The body of the constructor, in a block that has all the slots; `raw` is what the uninitialised
-- block happens to hold.
unfoldable pub link_pool : ℕ → (ℕ → Ptr) → MemoryPool
unfolding link_slots
link_pool capacity raw =
    let linked = link_slots capacity 0 none raw in
    record { capacity = capacity; next = linked.1; head = linked.0 }

-- What a constructor comes to: the exception of `operator new[]`, writes behind the end of the block
-- that it gave, which are undefined, or an object.
pub data Built {ℓ} (A : Type ℓ) : Type ℓ where
  bad_alloc overrun : Built A
  built : A → Built A

-- `capacity * sizeof(T)`, a `std::size_t`
unfoldable pub block_bytes : (slot_bytes capacity : ℕ) → ℕ
block_bytes slot_bytes capacity = capacity * slot_bytes % 2 ^ 64

-- The constructor. `allocate` says whether `operator new[]` gives a block of so many bytes. The loop
-- writes to each of the slots, whether the block has them or not.
unfoldable pub make_pool :
    (allocate : ℕ → Bool) → (slot_bytes capacity : ℕ) → (raw : ℕ → Ptr) → Built MemoryPool
unfolding link_pool block_bytes
make_pool allocate slot_bytes capacity raw =
    let n = block_bytes slot_bytes capacity in
    elim (allocate n) [
      | false ↦ bad_alloc
      | true ↦ if leb (capacity * slot_bytes) n then built (link_pool capacity raw) else overrun
    ]

unfoldable pub acquire : MemoryPool → Ptr × MemoryPool
acquire pool = elim pool.head [
  | none ↦ (none, pool)
  | some node ↦ (some node, record pool { head = pool.next node })
]

unfoldable pub release : Ptr → MemoryPool → MemoryPool
release none pool = pool
release (some p) pool = record pool { next = update pool.next p pool.head; head = some p }

-- The walk of `free_count`; `none` means that the rounds ran out.
unfoldable pub count_nodes : ℕ → (ℕ → Ptr) → Ptr → ℕ → Option ℕ
count_nodes zero nodes p n = none
count_nodes (suc f) nodes none n = some n
count_nodes (suc f) nodes (some p) n = count_nodes f nodes (nodes p) (n + 1)

unfoldable pub free_count : MemoryPool → Option ℕ
unfolding count_nodes
free_count pool = count_nodes (pool.capacity + 1) pool.next pool.head 0
