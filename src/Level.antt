-- ===== src/Level.antt =====
-- The methods of include/PriceLevel.hpp, over the store of orders that the level's intrusive list
-- runs through. A method takes the level and the store and returns both.
pub mod Queue
pub mod Unlink
use itchparser.Prelude.{ℕ, Bool, none, some, ◌==◌, update, add64, sub64, inc32, dec32}
use itchparser.Types.{Ptr, Side, buy, Order, PriceLevel}

abbrev pub Orders : Type 0
Orders = ℕ → Order

abbrev pub set_next : Orders → ℕ → Ptr → Orders
set_next os p q = update os p (record (os p) { next = q })

abbrev pub set_prev : Orders → ℕ → Ptr → Orders
set_prev os p q = update os p (record (os p) { prev = q })

-- The default constructor.
unfoldable pub make_level : PriceLevel
make_level = record {
  price_cents = 0;
  total_shares = 0;
  head_order = none;
  tail_order = none;
  order_count = 0;
  side = buy;
  prev_level = none;
  next_level = none;
}

unfoldable pub reset : ℕ → Side → PriceLevel → PriceLevel
reset px s lvl = record {
  price_cents = px;
  total_shares = 0;
  head_order = none;
  tail_order = none;
  order_count = 0;
  side = s;
  prev_level = none;
  next_level = none;
}

-- `tail_order->next_ = o`, or `head_order = o` in an empty level.
unfoldable pub link_tail : Ptr → ℕ → PriceLevel → Orders → PriceLevel × Orders
link_tail (some t) o lvl os = (lvl, set_next os t (some o))
link_tail none o lvl os = (record lvl { head_order = some o }, os)

unfoldable pub push_back : ℕ → PriceLevel → Orders → PriceLevel × Orders
unfolding link_tail
push_back o lvl os =
    let os₁ = set_next os o none in
    let os₂ = set_prev os₁ o lvl.tail_order in
    let linked = link_tail lvl.tail_order o lvl os₂ in
    (
      record linked.0 {
        tail_order = some o;
        total_shares = add64 linked.0.total_shares (linked.1 o).shares_remaining;
        order_count = inc32 linked.0.order_count;
      },
      linked.1,
    )

-- `o->prev_->next_ = next`, or `head_order = next` at the front.
unfoldable pub bypass_prev : Ptr → Ptr → PriceLevel → Orders → PriceLevel × Orders
bypass_prev (some p) next lvl os = (lvl, set_next os p next)
bypass_prev none next lvl os = (record lvl { head_order = next }, os)

-- `o->next_->prev_ = prev`, or `tail_order = prev` at the back.
unfoldable pub bypass_next : Ptr → Ptr → PriceLevel → Orders → PriceLevel × Orders
bypass_next (some n) prev lvl os = (lvl, set_prev os n prev)
bypass_next none prev lvl os = (record lvl { tail_order = prev }, os)

unfoldable pub unlink : ℕ → PriceLevel → Orders → PriceLevel × Orders
unfolding bypass_prev bypass_next
unlink o lvl os =
    let front = bypass_prev (os o).prev (os o).next lvl os in
    let back = bypass_next (front.1 o).next (front.1 o).prev front.0 front.1 in
    let os₁ = set_next back.1 o none in
    let os₂ = set_prev os₁ o none in (record back.0 { order_count = dec32 back.0.order_count }, os₂)

unfoldable pub unlink_and_deduct : ℕ → PriceLevel → Orders → PriceLevel × Orders
unfolding unlink
unlink_and_deduct o lvl os =
    unlink o (record lvl { total_shares = sub64 lvl.total_shares (os o).shares_remaining }) os

unfoldable pub empty : PriceLevel → Bool
empty lvl = lvl.order_count == 0
