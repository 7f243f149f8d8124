-- ===== src/Pool/Ownership.antt =====
-- Who owns the slots of a `MemoryPool` (include/MemoryPool.hpp): every slot is on the free list or
-- in use, and none is both.
use itchparser.Prelude.{
  ℕ, zero, suc, ◌+◌, ◌-◌, ◌<◌, ◌≡◌, refl, true, false, none, some, List, [], ◌∷◌, arith, ◌==◌,
  if◌then◌else◌, length, has, Distinct, update, ap, ◌↔◌, ◌∙◌,
}
use itchparser.Types.{Ptr}
use itchparser.Pool.{MemoryPool, acquire, release, count_nodes, free_count}

-- From `p` the links lead through `xs` to null.
abbrev pub Chain : (ℕ → Ptr) → Ptr → List ℕ → Type 0
Chain nodes p [] = p ≡ none
Chain nodes p (x ∷ xs) = (p ≡ some x) × Chain nodes (nodes x) xs

abbrev pub Below : ℕ → List ℕ → Type 0
Below n [] = Unit {0}
Below n (x ∷ xs) = (x < n) × Below n xs

abbrev pub remove : ℕ → List ℕ → List ℕ
remove a [] = []
remove a (x ∷ xs) = if a == x then xs else x ∷ remove a xs

pub record Owns (pool : MemoryPool) (free live : List ℕ) : Type 0 where
  pub chain : Chain pool.next pool.head free
  pub free_distinct : Distinct free
  pub live_distinct : Distinct live
  pub apart : (a : ℕ) → has a free ≡ true → has a live ≡ false
  pub free_below : Below pool.capacity free
  pub live_below : Below pool.capacity live
  pub complete : length free + length live ≡ pool.capacity

-- A write to a slot that is not on the chain leaves the chain.
pub Chain-update :
    (nodes : ℕ → Ptr) (p : Ptr) (a : ℕ) (q : Ptr) (xs : List ℕ)
    → has a xs ≡ false
    → Chain nodes p xs
    → Chain (update nodes a q) p xs
Chain-update nodes p a q [] out c = c
Chain-update nodes p a q (x ∷ xs) out c =
    let kept : update nodes a q x ≡ nodes x = ground arith in
    (c.0, rw kept (Chain-update nodes (nodes x) a q xs (ground arith) c.1))

pub has-remove :
    (a p : ℕ) (xs : List ℕ)
    → Distinct xs
    → has a (remove p xs) ≡ (if a == p then false else has a xs)
has-remove a p [] d = ground arith
has-remove a p (x ∷ xs) d = ground (arith, has-remove a p xs)

Distinct-remove : (p : ℕ) (xs : List ℕ) → Distinct xs → Distinct (remove p xs)
Distinct-remove p [] d = tt
Distinct-remove p (x ∷ xs) d = ground (arith, has-remove x p xs, Distinct-remove p xs)

Below-remove : (n p : ℕ) (xs : List ℕ) → Below n xs → Below n (remove p xs)
Below-remove n p [] b = tt
Below-remove n p (x ∷ xs) b = ground (arith, Below-remove n p xs)

Below-has : (n p : ℕ) (xs : List ℕ) → Below n xs → has p xs ≡ true → p < n
Below-has n p [] b h = absurd (ground arith)
Below-has n p (x ∷ xs) b h = ground (arith, Below-has n p xs)

length-remove : (p : ℕ) (xs : List ℕ) → has p xs ≡ true → length (remove p xs) + 1 ≡ length xs
length-remove p [] h = absurd (ground arith)
length-remove p (x ∷ xs) h = ground (arith, length-remove p xs)

-- Where the free list of a pool and the slots in use are all its slots, each once, `acquire` hands
-- out the first free slot, which was not in use and now is, and the rest stays as it was.
pub acquire-Owns :
    (pool : MemoryPool) (x : ℕ) (free live : List ℕ)
    → Owns pool (x ∷ free) live
    → ((acquire pool).0 ≡ some x) × Owns (acquire pool).1 free (x ∷ live)
unfolding acquire
acquire-Owns pool x free live o = rw o.chain.0 (
  refl,
  record {
    chain = o.chain.1;
    free_distinct = o.free_distinct.1;
    live_distinct = ground (arith, o.apart x);
    apart = λ a h. ground (arith, o.apart a);
    free_below = o.free_below.1;
    live_below = (o.free_below.0, o.live_below);
    complete = omega (arith, o.complete);
  },
)

-- Where the free list of a pool and the slots in use are all its slots, each once, `acquire` returns
-- null exactly when as many slots are in use as the pool has.
pub acquire-none :
    (pool : MemoryPool) (free live : List ℕ)
    → Owns pool free live
    → ((acquire pool).0 ≡ none) ↔ (length live ≡ pool.capacity)
unfolding acquire
acquire-none pool [] live o = rw o.chain ((λ _. omega (arith, o.complete)), (λ _. refl))
acquire-none pool (x ∷ free) live o =
    rw o.chain.0 ((λ e. cc), (λ e. absurd (omega (arith, o.complete))))

-- Where the free list of a pool and the slots in use are all its slots, each once, the release of a
-- slot in use makes it the first free slot, and all slots are still there, each once.
pub release-Owns :
    (pool : MemoryPool) (p : ℕ) (free live : List ℕ)
    → Owns pool free live
    → has p live ≡ true
    → Owns (release (some p) pool) (p ∷ free) (remove p live)
unfolding release
release-Owns pool p free live o used =
    let out : has p free ≡ false = ground (arith, o.apart p) in
    record {
      chain = (
        refl,
        rw (let e : update pool.next p pool.head p ≡ pool.head = ground arith in e)
            (Chain-update pool.next pool.head p pool.head free out o.chain),
      );
      free_distinct = (out, o.free_distinct);
      live_distinct = Distinct-remove p live o.live_distinct;
      apart = λ a h. ground (arith, o.apart a, has-remove a p live);
      free_below = (Below-has pool.capacity p live o.live_below used, o.free_below);
      live_below = Below-remove pool.capacity p live o.live_below;
      complete = omega (arith, o.complete, length-remove p live used);
    }

count_nodes-length :
    (f : ℕ) (nodes : ℕ → Ptr) (p : Ptr) (n : ℕ) (xs : List ℕ)
    → length xs < f
    → Chain nodes p xs
    → count_nodes f nodes p n ≡ some (n + length xs)
unfolding count_nodes
count_nodes-length zero nodes p n xs h c = absurd (omega arith)
count_nodes-length (suc f) nodes p n [] h c = rw c (ap some (omega arith))
count_nodes-length (suc f) nodes p n (x ∷ xs) h c =
    rw c.0
      (count_nodes-length f nodes (nodes x) (n + 1) xs (omega arith) c.1 ∙ ap some (omega arith))

-- Where the free list of a pool and the slots in use are all its slots, each once, the walk of
-- `free_count` ends and returns the capacity less the number of slots in use.
pub free_count_lem :
    (pool : MemoryPool) (free live : List ℕ)
    → Owns pool free live
    → free_count pool ≡ some (pool.capacity - length live)
unfolding free_count
free_count_lem pool free live o =
    count_nodes-length (pool.capacity + 1) pool.next pool.head 0 free (omega (arith, o.complete))
      o.chain
    ∙ ap some (omega (arith, o.complete))
