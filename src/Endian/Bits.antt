-- ===== src/Endian/Bits.antt =====
-- `|` of a shifted number and one that fits below it is their sum.
use Prim.Native.Nat.{bit_or-bitwise}
use native.Mathlib.Nat.{pow-suc}
use itchparser.Prelude.{
  ℕ, zero, suc, ◌+◌, ◌*◌, ◌/◌, ◌^◌, ◌≤◌, ◌<◌, ◌≡◌, arith, bit_or, bit_or-halves, ap, ◌∙◌,
}

pub zero-bit_or : (b : ℕ) → bit_or 0 b ≡ b
zero-bit_or b = bit_or-bitwise 0 b

bit_or-zero_below : (n a : ℕ) → a ≤ n → bit_or a 0 ≡ a
bit_or-zero_below n zero h = zero-bit_or 0
bit_or-zero_below zero (suc a) h = absurd (omega arith)
bit_or-zero_below (suc n) (suc a) h =
    omega (arith, bit_or-halves (suc a) 0, bit_or-zero_below n (suc a / 2) (omega arith))

bit_or-add_step :
    (w q r : ℕ) → bit_or (q * w) (r / 2) ≡ q * w + r / 2 → bit_or (q * (w * 2)) r ≡ q * (w * 2) + r
bit_or-add_step w q r h =
    let half : q * (w * 2) / 2 ≡ q * w = omega arith in
    omega (arith, bit_or-halves (q * (w * 2)) r, ap (λ t. bit_or t (r / 2)) half)

pub bit_or-add : (k q r : ℕ) → r < 2 ^ k → bit_or (q * 2 ^ k) r ≡ q * 2 ^ k + r
bit_or-add zero q r fits =
    let e : r ≡ 0 = omega arith in
    let one : q * 1 ≡ q = omega arith in
    rw (e, one) (bit_or-zero_below q q (omega arith) ∙ omega arith)
bit_or-add (suc k) q r fits =
    rw (pow-suc 2 k)
      (bit_or-add_step (2 ^ k) q r (bit_or-add k q (r / 2) (omega (arith, pow-suc 2 k))))

pub bit_or-eq_add : (k q x r : ℕ) → x ≡ q * 2 ^ k → r < 2 ^ k → bit_or x r ≡ x + r
bit_or-eq_add k q x r e fits = rw e (bit_or-add k q r fits)
