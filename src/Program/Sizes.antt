-- ===== src/Program/Sizes.antt =====
-- `is_pow2` of src/main.cpp.
use Prim.Native.Nat.{bit_and-bitwise}
use native.Mathlib.Nat.{pow-suc}
use itchparser.Prelude.{
  bit_and-halves, ℕ, zero, suc, ◌+◌, ◌-◌, ◌*◌, ◌/◌, ◌%◌, ◌^◌, ◌≤◌, ◌<◌, bit_and, true, ◌≡◌, ◌↔◌,
  refl, arith, ◌==◌, Bool-cases, inl, inr, eq_of_==,
}
use itchparser.Program.{is_pow2}

and_itself : (n a : ℕ) → a ≤ n → bit_and a a ≡ a
and_itself n zero h = bit_and-bitwise 0 0
and_itself zero (suc a) h = absurd (omega arith)
and_itself (suc n) (suc a) h =
    omega (arith, bit_and-halves (suc a) (suc a), and_itself n (suc a / 2) (omega arith))

-- Halving an even number halves its predecessor too.
halves : (m a : ℕ) → 0 < m → a ≡ m * 2 → bit_and a (a - 1) ≡ bit_and m (m - 1) * 2
halves m a h e =
    let x : a / 2 ≡ m = omega arith in
    let y : (a - 1) / 2 ≡ m - 1 = omega arith in
    let step : bit_and (a / 2) ((a - 1) / 2) ≡ bit_and m (m - 1) = rw (x, y) refl in
    omega (arith, bit_and-halves a (a - 1), step)

half_of_odd : (m a : ℕ) → a ≡ m * 2 + 1 → bit_and a (a - 1) ≡ 0 → m ≡ 0
half_of_odd m a e h =
    let x : a / 2 ≡ m = omega arith in
    let y : (a - 1) / 2 ≡ m = omega arith in
    let step : bit_and (a / 2) ((a - 1) / 2) ≡ bit_and m m = rw (x, y) refl in
    omega (arith, bit_and-halves a (a - 1), step, and_itself m m (omega arith))

single_bit : (n a : ℕ) → a ≤ n → 0 < a → bit_and a (a - 1) ≡ 0 → (k : ℕ) × (a ≡ 2 ^ k)
single_bit zero a le h e = absurd (omega arith)
single_bit (suc n) a le h e = elim (Bool-cases (a % 2 == 0)) [
  | inl g ↦
      let even = eq_of_== (a % 2) 0 g in
      let (k, is) =
        single_bit n (a / 2) (omega arith) (omega arith)
          (omega (arith, halves (a / 2) a (omega arith) (omega arith))) in
      (suc k, omega (arith, is, pow-suc 2 k))
  | inr g ↦ let one = half_of_odd (a / 2) a (ground arith) e in (0, omega (arith, one))
]

pow_single : (k : ℕ) → (0 < 2 ^ k) × (bit_and (2 ^ k) (2 ^ k - 1) ≡ 0)
pow_single zero = (omega arith, bit_and-bitwise 1 0)
pow_single (suc k) =
    let (pos, e) = pow_single k in
    (omega (arith, pow-suc 2 k), omega (arith, halves (2 ^ k) (2 ^ suc k) pos (pow-suc 2 k), e))

-- `is_pow2` accepts the powers of two and nothing else.
pub is_pow2_lem : (n : ℕ) → (is_pow2 n ≡ true) ↔ ((k : ℕ) × (n ≡ 2 ^ k))
unfolding is_pow2
is_pow2_lem n = (
  (λ h. single_bit n n (omega arith) (ground arith) (ground arith)),
  (λ (k, e). let (pos, z) = pow_single k in rw (e, z) (ground arith)),
)

pub is_pow2-positive : (n : ℕ) → is_pow2 n ≡ true → 0 < n
unfolding is_pow2
is_pow2-positive n h = ground arith
