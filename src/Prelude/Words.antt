-- ===== src/Prelude/Words.antt =====
-- Counters of 32 and 64 bits, with their wrap-around.
use Prim.Native.Nat.{ℕ, ◌+◌, ◌-◌, ◌%◌, ◌^◌}

-- `++c` and `--c` on a `uint64_t` or a `size_t`
abbrev pub inc64 : ℕ → ℕ
inc64 c = (c + 1) % 2 ^ 64

abbrev pub dec64 : ℕ → ℕ
dec64 c = (c + 2 ^ 64 - 1) % 2 ^ 64

abbrev pub add64 : ℕ → ℕ → ℕ
add64 a b = (a + b) % 2 ^ 64

abbrev pub sub64 : ℕ → ℕ → ℕ
sub64 a b = (a + 2 ^ 64 - b) % 2 ^ 64

-- `++c` and `--c` on a `uint32_t`
abbrev pub inc32 : ℕ → ℕ
inc32 c = (c + 1) % 2 ^ 32

abbrev pub dec32 : ℕ → ℕ
dec32 c = (c + 2 ^ 32 - 1) % 2 ^ 32
