-- ===== src/Types.antt =====
-- include/Types.hpp, include/Order.hpp and the fields of include/PriceLevel.hpp. The integer
-- aliases of Types.hpp are ℕ; an `enum class … : char` is its byte, since the parser casts any
-- byte to it; a `std::array` of chars is the list of its bytes; a pointer is an optional slot
-- number of the pool that it points into, `none` being `nullptr`.
use itchparser.Prelude.{
  ℕ, ◌-◌, ◌^◌, Bool, true, false, Option, none, List, ◌==◌, leb, if◌then◌else◌,
}

abbrev pub Ptr : Type 0
Ptr = Option ℕ

pub data Side : Type 0 where
  buy sell : Side

-- `BuySellIndicator::BuyOrder` is 'B', and every other byte counts as a sell.
unfoldable pub to_side : ℕ → Side
to_side bsi = if bsi == b'B' then buy else sell

-- `CrossType::Closing`
abbrev pub cross_closing : ℕ
cross_closing = b'C'

abbrev pub k_max_instruments : ℕ
k_max_instruments = 65536

abbrev pub k_order_pool_size : ℕ
k_order_pool_size = 2 ^ 24

abbrev pub k_price_level_pool_size : ℕ
k_price_level_pool_size = 2 ^ 22

pub record Order : Type 0 where
  pub order_id : ℕ
  pub locate : ℕ
  pub price_cents : ℕ
  pub shares_remaining : ℕ
  pub side : Side
  pub added_at_ns : ℕ
  pub mpid : List ℕ
  pub next : Ptr
  pub prev : Ptr

-- The constructor of `Order`.
-- `sizeof(Order)`, which has the alignment and at most the size of a cache line.
abbrev pub order_bytes : ℕ
order_bytes = 64

-- `sizeof(PriceLevel)` where pointers have 64 bits.
abbrev pub level_bytes : ℕ
level_bytes = 56

unfoldable pub make_order : ℕ → ℕ → ℕ → ℕ → Side → ℕ → List ℕ → Order
make_order id loc px qty s ts attribution = record {
  order_id = id;
  locate = loc;
  price_cents = px;
  shares_remaining = qty;
  side = s;
  added_at_ns = ts;
  mpid = attribution;
  next = none;
  prev = none;
}

unfoldable pub dead : Order → Bool
dead o = o.shares_remaining == 0

-- `reduce` returns whether the order is now filled.
unfoldable pub reduce : ℕ → Order → Bool × Order
reduce qty o =
    if leb o.shares_remaining qty
    then (true, record o { shares_remaining = 0 })
    else (false, record o { shares_remaining = o.shares_remaining - qty })

pub record PriceLevel : Type 0 where
  pub price_cents : ℕ
  pub total_shares : ℕ
  pub head_order : Ptr
  pub tail_order : Ptr
  pub order_count : ℕ
  pub side : Side
  pub prev_level : Ptr
  pub next_level : Ptr
