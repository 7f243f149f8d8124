-- ===== src/Prelude/Digits.antt =====
-- The operations on binary digits, at the lowest digit.
use Prim.Native.Nat.{
  ℕ, zero, suc, ◌+◌, ◌*◌, ◌/◌, ◌%◌, ◌≤◌, max, min, digits, bitwise, bit_or, bit_and, bit_or-bitwise,
  bit_and-bitwise,
}
use mathlib.Core.Path.{◌≡◌, refl, sym, ap, ◌∙◌}
use native.Mathlib.Omega.{arith}

module _ (end : ℕ → ℕ) (join : ℕ → ℕ → ℕ) where
  -- Rounds beyond the number itself change nothing.
  spare_rounds : (k l x y : ℕ) → x ≤ k → x ≤ l → digits end join k x y ≡ digits end join l x y
  spare_rounds k l zero y hk hl = at_end k ∙ sym (at_end l)
    where
      at_end : (j : ℕ) → digits end join j zero y ≡ end y
      at_end zero = refl
      at_end (suc j) = refl
  spare_rounds zero l (suc x) y hk hl = absurd (omega arith)
  spare_rounds (suc k) zero (suc x) y hk hl = absurd (omega arith)
  spare_rounds (suc k) (suc l) (suc x) y hk hl =
      ap (λ high. high * 2 + join (suc x % 2) (y % 2))
        (spare_rounds k l (suc x / 2) (y / 2) (omega arith) (omega arith))

  bitwise-halves :
      ((y : ℕ) → end y ≡ end (y / 2) * 2 + join 0 (y % 2))
      → (x y : ℕ)
      → bitwise end join x y ≡ bitwise end join (x / 2) (y / 2) * 2 + join (x % 2) (y % 2)
  bitwise-halves ends zero y = ends y
  bitwise-halves ends (suc x) y =
      ap (λ high. high * 2 + join (suc x % 2) (y % 2))
        (spare_rounds x (suc x / 2) (suc x / 2) (y / 2) (omega arith) (omega arith))

pub bit_or-halves : (x y : ℕ) → bit_or x y ≡ bit_or (x / 2) (y / 2) * 2 + max (x % 2) (y % 2)
bit_or-halves x y =
    bit_or-bitwise x y
    ∙ bitwise-halves (λ y. y) max (λ y. omega arith) x y
    ∙ ap (λ high. high * 2 + max (x % 2) (y % 2)) (sym (bit_or-bitwise (x / 2) (y / 2)))

pub bit_and-halves : (x y : ℕ) → bit_and x y ≡ bit_and (x / 2) (y / 2) * 2 + min (x % 2) (y % 2)
bit_and-halves x y =
    bit_and-bitwise x y
    ∙ bitwise-halves (λ y. 0) min (λ y. omega arith) x y
    ∙ ap (λ high. high * 2 + min (x % 2) (y % 2)) (sym (bit_and-bitwise (x / 2) (y / 2)))
