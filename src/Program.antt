-- ===== src/Program.antt =====
-- The command line of src/main.cpp: the size of a pool and the options. `strtoull` is the C
-- library's: the value, how many characters it read, and whether it set `errno`.
pub mod Sizes
pub mod Options
pub mod Process
pub mod Main
pub mod Sample
use itchparser.Prelude.{
  ℕ, zero, suc, ◌-◌, ◌^◌, Bool, true, false, ◌&&◌, ◌||◌, not, ltb, ◌==◌, Option, none, some, List,
  [], ◌∷◌, length, codes, bit_and, if◌then◌else◌,
}
use itchparser.Types.{k_order_pool_size, k_price_level_pool_size}
use itchparser.Endian.{Bytes}

-- `==` of two strings
abbrev pub same : Bytes → Bytes → Bool
same [] [] = true
same (a ∷ s) (b ∷ t) = (a == b) && same s t
same _ _ = false

unfoldable pub is_pow2 : ℕ → Bool
is_pow2 n = ltb 0 n && (bit_and n (n - 1) == 0)

-- The options as `main` collects them.
pub record Config : Type 0 where
  pub path : Bytes
  pub log_path : Bytes
  pub order_pool_size : ℕ
  pub level_pool_size : ℕ

unfoldable pub defaults : Config
defaults = record {
  path = [];
  log_path = codes "itch.log";
  order_pool_size = k_order_pool_size;
  level_pool_size = k_price_level_pool_size;
}

-- Where the loop over the arguments and the test behind it lead.
pub data Outcome : Type 0 where
  help bad_order_pool_size bad_level_pool_size no_path : Outcome
  unknown_option : Bytes → Outcome
  go : Config → Outcome

-- `if (path.empty())`
abbrev pub require_path : Outcome → Outcome
require_path (go c) = if length c.path == 0 then no_path else go c
require_path out = out

abbrev pub is_help : Bytes → Bool
is_help arg = same arg (codes "-h") || same arg (codes "--help")

abbrev pub dashed : Bytes → Bool
dashed (a ∷ b ∷ s) = (a == b'-') && (b == b'-')
dashed _ = false

module _ (strtoull : Bytes → ℕ × ℕ × Bool) where
  -- `none` is `false`. No argument has a null in it, so `*end` is null at the end alone.
  unfoldable pub parse_size : Bytes → Option ℕ
  parse_size s =
      let (v, end, failed) = strtoull s in
      if failed || ((end == 0) || (not (end == length s) || (v == 0))) then none else some v

  -- The value of an option for the size of a pool.
  abbrev pub pool_size : Bytes → Option ℕ
  pool_size s = elim (parse_size s) [ none ↦ none | some v ↦ if is_pow2 v then some v else none ]

  -- An argument that takes no value: the last two branches of the loop.
  abbrev pub take_path : Bytes → Config → Outcome
  take_path arg c = if dashed arg then unknown_option arg else go (record c { path = arg })

  -- The loop over the arguments that are left.
  unfoldable pub parse_args : List Bytes → Config → Outcome
  unfolding parse_size is_pow2
  parse_args [] c = go c
  parse_args (arg ∷ []) c = if is_help arg then help else take_path arg c
  parse_args (arg ∷ value ∷ rest) c = elim (is_help arg) [
    | true ↦ help
    | false ↦ elim (same arg (codes "--order-pool-size")) [
      | true ↦ elim (pool_size value) [
        | none ↦ bad_order_pool_size
        | some v ↦ parse_args rest (record c { order_pool_size = v })
      ]
      | false ↦ elim (same arg (codes "--level-pool-size")) [
        | true ↦ elim (pool_size value) [
          | none ↦ bad_level_pool_size
          | some v ↦ parse_args rest (record c { level_pool_size = v })
        ]
        | false ↦ elim (same arg (codes "--log-path")) [
          | true ↦ parse_args rest (record c { log_path = value })
          | false ↦ elim (dashed arg) [
            | true ↦ unknown_option arg
            | false ↦ parse_args (value ∷ rest) (record c { path = arg })
          ]
        ]
      ]
    ]
  ]

  -- The loop and the test for a path, for the arguments behind the program's name.
  unfoldable pub configure : List Bytes → Outcome
  unfolding parse_args defaults
  configure args = require_path (parse_args args defaults)
