-- ===== src/Endian/RoundTrip.antt =====
-- The loads of include/Endian.hpp read the big-endian number that stands in the buffer, on a host
-- of either byte order.
use native.Mathlib.Nat.{mod-lt}
use itchparser.Prelude.{
  ℕ, zero, suc, ◌+◌, ◌*◌, ◌/◌, ◌%◌, ◌^◌, ◌<◌, ◌≡◌, refl, Bool, true, false, [], ◌∷◌, ◌++◌, arith,
  ◌∙◌,
}
use itchparser.Endian.Bits.{zero-bit_or, bit_or-eq_add}
use itchparser.Endian.{
  Bytes, bswap16, bswap32, bswap64, copy16, copy32, copy64, load_be16, load_be32, load_be64,
  load_be48,
}

-- The lowest `n` bytes of a number, the highest of them first.
unfoldable pub to_be : ℕ → ℕ → Bytes
to_be zero v = []
to_be (suc n) v = (v / 256 ^ n % 256) ∷ to_be n v

-- `std::byteswap` swaps the halves and their bytes.
bswap16-bytes : (a b : ℕ) → a < 256 → b < 256 → bswap16 (a + 256 * b) ≡ a * 256 + b
unfolding bswap16
bswap16-bytes a b ha hb = omega arith

bswap32-halves :
    (x y : ℕ) → x < 2 ^ 16 → y < 2 ^ 16 → bswap32 (x + 2 ^ 16 * y) ≡ bswap16 x * 2 ^ 16 + bswap16 y
unfolding bswap32 bswap16
bswap32-halves x y hx hy = omega arith

load_be16-value :
    (little : Bool) (a b : ℕ) (rest : Bytes)
    → a < 256
    → b < 256
    → load_be16 little (a ∷ b ∷ rest) ≡ a * 256 + b
unfolding load_be16 copy16
load_be16-value true a b rest ha hb = omega arith
load_be16-value false a b rest ha hb = refl

load_be32-value :
    (little : Bool) (a b c d : ℕ) (rest : Bytes)
    → a < 256
    → b < 256
    → c < 256
    → d < 256
    → load_be32 little (a ∷ b ∷ c ∷ d ∷ rest) ≡ ((a * 256 + b) * 256 + c) * 256 + d
unfolding load_be32 copy32 copy16
load_be32-value true a b c d rest ha hb hc hd =
    bswap32-halves (a + 256 * b) (c + 256 * d) (omega arith) (omega arith)
    ∙ omega (arith, bswap16-bytes a b ha hb, bswap16-bytes c d hc hd)
load_be32-value false a b c d rest ha hb hc hd = omega arith

bswap64-halves :
    (x y : ℕ) → x < 2 ^ 32 → y < 2 ^ 32 → bswap64 (x + 2 ^ 32 * y) ≡ bswap32 x * 2 ^ 32 + bswap32 y
unfolding bswap64
bswap64-halves x y hx hy =
    let low : (x + 2 ^ 32 * y) % 2 ^ 32 ≡ x = omega arith in
    let high : (x + 2 ^ 32 * y) / 2 ^ 32 % 2 ^ 32 ≡ y = omega arith in rw (low, high)

-- Eight bytes are two groups of four.
load_be64-halves :
    (little : Bool) (a b c d e f g h : ℕ) (rest : Bytes)
    → a < 256
    → b < 256
    → c < 256
    → d < 256
    → e < 256
    → f < 256
    → g < 256
    → h < 256
    → load_be64 little (a ∷ b ∷ c ∷ d ∷ e ∷ f ∷ g ∷ h ∷ rest)
      ≡ load_be32 little (a ∷ b ∷ c ∷ d ∷ rest) * 2 ^ 32 + load_be32 little (e ∷ f ∷ g ∷ h ∷ rest)
unfolding load_be64 load_be32 copy64 copy32 copy16
load_be64-halves true a b c d e f g h rest ha hb hc hd he hf hg hh =
    bswap64-halves (a + 256 * b + 2 ^ 16 * (c + 256 * d)) (e + 256 * f + 2 ^ 16 * (g + 256 * h))
      (omega arith) (omega arith)
load_be64-halves false a b c d e f g h rest ha hb hc hd he hf hg hh = refl

load_be48-value :
    (a b c d e f : ℕ) (rest : Bytes)
    → a < 256
    → b < 256
    → c < 256
    → d < 256
    → e < 256
    → f < 256
    → load_be48 (a ∷ b ∷ c ∷ d ∷ e ∷ f ∷ rest)
      ≡ ((((a * 256 + b) * 256 + c) * 256 + d) * 256 + e) * 256 + f
unfolding load_be48
load_be48-value a b c d e f rest ha hb hc hd he hf =
    rw
      (
        zero-bit_or (a * 2 ^ 40),
        bit_or-eq_add 40 a (a * 2 ^ 40) (b * 2 ^ 32) refl (omega arith),
        bit_or-eq_add 32 (a * 256 + b) (a * 2 ^ 40 + b * 2 ^ 32) (c * 2 ^ 24) (omega arith)
            (omega arith),
        bit_or-eq_add 24 ((a * 256 + b) * 256 + c) (a * 2 ^ 40 + b * 2 ^ 32 + c * 2 ^ 24)
            (d * 2 ^ 16) (omega arith) (omega arith),
        bit_or-eq_add 16 (((a * 256 + b) * 256 + c) * 256 + d)
            (a * 2 ^ 40 + b * 2 ^ 32 + c * 2 ^ 24 + d * 2 ^ 16) (e * 2 ^ 8) (omega arith)
            (omega arith),
        bit_or-eq_add 8 ((((a * 256 + b) * 256 + c) * 256 + d) * 256 + e)
            (a * 2 ^ 40 + b * 2 ^ 32 + c * 2 ^ 24 + d * 2 ^ 16 + e * 2 ^ 8) f (omega arith)
            (omega arith),
      )
      (omega arith)

-- Whatever the host's byte order and the bytes that follow, a 16-bit load reads back a number below
-- 2 ^ 16 that is written most significant byte first.
pub load_be16-to_be :
    (little : Bool) (v : ℕ) (rest : Bytes) → v < 2 ^ 16 → load_be16 little (to_be 2 v ++ rest) ≡ v
unfolding to_be
load_be16-to_be little v rest h =
    load_be16-value little (v / 256 % 256) (v / 1 % 256) rest (omega arith) (omega arith)
    ∙ omega arith

-- Whatever the host's byte order and the bytes that follow, a 32-bit load reads back a number below
-- 2 ^ 32 that is written most significant byte first.
pub load_be32-to_be :
    (little : Bool) (v : ℕ) (rest : Bytes) → v < 2 ^ 32 → load_be32 little (to_be 4 v ++ rest) ≡ v
unfolding to_be
load_be32-to_be little v rest h =
    load_be32-value little (v / 2 ^ 24 % 256) (v / 2 ^ 16 % 256) (v / 2 ^ 8 % 256) (v / 1 % 256)
      rest (omega arith) (omega arith) (omega arith) (omega arith)
    ∙ omega arith

-- Whatever the host's byte order and the bytes that follow, a 64-bit load reads back a number below
-- 2 ^ 64 that is written most significant byte first.
pub load_be64-to_be :
    (little : Bool) (v : ℕ) (rest : Bytes) → v < 2 ^ 64 → load_be64 little (to_be 8 v ++ rest) ≡ v
unfolding to_be
load_be64-to_be little v rest h =
    let d : ℕ → ℕ = λ k. v / 2 ^ k % 256 in
    let b : (k : ℕ) → d k < 256 = λ k. mod-lt (v / 2 ^ k) {m = 256} (omega arith) in
    load_be64-halves little (d 56) (d 48) (d 40) (d 32) (d 24) (d 16) (d 8) (v / 1 % 256) rest
      (b 56) (b 48) (b 40) (b 32) (b 24) (b 16) (b 8) (omega arith)
    ∙ omega (
      arith,
      load_be32-value little (d 56) (d 48) (d 40) (d 32) rest (b 56) (b 48) (b 40) (b 32),
      load_be32-value little (d 24) (d 16) (d 8) (v / 1 % 256) rest (b 24) (b 16) (b 8)
          (omega arith),
    )

-- Whatever bytes follow, a timestamp below 2 ^ 48 that is written in six bytes, most significant
-- first, reads back from those six bytes alone.
pub load_be48-to_be : (v : ℕ) (rest : Bytes) → v < 2 ^ 48 → load_be48 (to_be 6 v ++ rest) ≡ v
unfolding to_be
load_be48-to_be v rest h =
    load_be48-value (v / 2 ^ 40 % 256) (v / 2 ^ 32 % 256) (v / 2 ^ 24 % 256) (v / 2 ^ 16 % 256)
      (v / 2 ^ 8 % 256) (v / 1 % 256) rest (omega arith) (omega arith) (omega arith) (omega arith)
      (omega arith) (omega arith)
    ∙ omega arith

-- Whatever the host's byte order and the bytes that follow, the four loads read back the low 16, 32,
-- 48 and 64 bits of a number, written most significant byte first in 2, 4, 6 and 8 bytes.
pub loads-to_be :
    (little : Bool) (v : ℕ) (rest : Bytes)
    → (load_be16 little (to_be 2 (v % 2 ^ 16) ++ rest) ≡ v % 2 ^ 16)
      × (load_be32 little (to_be 4 (v % 2 ^ 32) ++ rest) ≡ v % 2 ^ 32)
      × (load_be48 (to_be 6 (v % 2 ^ 48) ++ rest) ≡ v % 2 ^ 48)
      × (load_be64 little (to_be 8 (v % 2 ^ 64) ++ rest) ≡ v % 2 ^ 64)
loads-to_be little v rest = (
  load_be16-to_be little (v % 2 ^ 16) rest (omega arith),
  load_be32-to_be little (v % 2 ^ 32) rest (omega arith),
  load_be48-to_be (v % 2 ^ 48) rest (omega arith),
  load_be64-to_be little (v % 2 ^ 64) rest (omega arith),
)
