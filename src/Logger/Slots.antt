-- ===== src/Logger/Slots.antt =====
-- Positions of the log's ring: two that are less than the capacity apart have different slots, and a
-- position that wrapped around at 64 bits has the slot of the one it stands for.
use itchparser.Prelude.{
  ℕ, ◌+◌, ◌-◌, subst, ◌*◌, ◌/◌, ◌%◌, ◌^◌, ◌≤◌, ◌<◌, ◌≡◌, ◌≢◌, sub64, add64, arith,
}
use native.Mathlib.Nat.{mod-mod_of_dvd, div-add-mod', mul-le-mul_right, add-mul, dvd-mul_right}
use native.Mathlib.Decide.{dec_lt}
use Prim.Native.Nat.{◌∣◌}

le_of_not : (p q : ℕ) → ¬ (p < q) → q ≤ p
le_of_not p q h = omega arith

suc_le : (a b : ℕ) → a < b → a + 1 ≤ b
suc_le a b h = omega arith

apart_quotients : (p q c d : ℕ) → 0 < d → d < c → q * c ≢ p * c + d
apart_quotients p q c d h0 h1 e = elim (dec_lt p q) [
  | yes l ↦ omega (arith, mul-le-mul_right c (suc_le p q l), add-mul p 1 c)
  | no l ↦ omega (arith, mul-le-mul_right c (le_of_not p q l))
]

pub slot_ne : (a b c : ℕ) → a < b → b < a + c → a % c ≢ b % c
slot_ne a b c h0 h1 e =
    apart_quotients (a / c) (b / c) c (b - a) (omega arith) (omega arith)
      (omega (arith, div-add-mod' a c, div-add-mod' b c))

module _ (c w : ℕ) (fits : c * w ≡ 2 ^ 64) where
  pub slot_wrap : (a : ℕ) → a % 2 ^ 64 % c ≡ a % c
  slot_wrap a = mod-mod_of_dvd c a (subst (λ m. c ∣ m) fits (dvd-mul_right c w))

pub sub64_wrap : (a b : ℕ) → b ≤ a → a < b + 2 ^ 64 → b + sub64 (a % 2 ^ 64) (b % 2 ^ 64) ≡ a
sub64_wrap a b h0 h1 = omega arith

pub add64_wrap : (a n : ℕ) → add64 (a % 2 ^ 64) n ≡ (a + n) % 2 ^ 64
add64_wrap a n = omega arith
