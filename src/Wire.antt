-- ===== src/Wire.antt =====
-- The packed structs of include/WireFormat.hpp, each as the widths of its fields in order, and the
-- registry of message types. A packed struct has no padding, so `sizeof` is the sum of the widths
-- and a field stands behind the ones above it.
use itchparser.Prelude.{ℕ, zero, suc, ◌+◌, List, [], ◌∷◌, ◌++◌, ◌==◌, if◌then◌else◌, drop}
use itchparser.Endian.{Bytes}

abbrev pub Layout : Type 0
Layout = List ℕ

unfoldable pub size_of : Layout → ℕ
size_of [] = 0
size_of (w ∷ ws) = w + size_of ws

-- The offset of the field with a number, from 0.
unfoldable pub offset_of : Layout → ℕ → ℕ
offset_of [] i = 0
offset_of (w ∷ ws) zero = 0
offset_of (w ∷ ws) (suc i) = w + offset_of ws i

-- A pointer to a field of the struct at `m`.
unfoldable pub field : Layout → ℕ → Bytes → Bytes
unfolding offset_of
field layout i m = drop (offset_of layout i) m

-- type, stockLocateHi, stockLocateLo, trackingHi, trackingLo, ts
abbrev pub common_header : Layout
common_header = 1 ∷ 1 ∷ 1 ∷ 1 ∷ 1 ∷ 6 ∷ []

abbrev pub system_event_msg : Layout
system_event_msg = common_header ++ 1 ∷ []

abbrev pub stock_directory_msg : Layout
stock_directory_msg = common_header ++ 8 ∷ 1 ∷ 1 ∷ 4 ∷ 1 ∷ 1 ∷ 2 ∷ 1 ∷ 1 ∷ 1 ∷ 1 ∷ 1 ∷ 4 ∷ 1 ∷ []

abbrev pub stock_trading_action_msg : Layout
stock_trading_action_msg = common_header ++ 8 ∷ 1 ∷ 1 ∷ 4 ∷ []

abbrev pub reg_sho_msg : Layout
reg_sho_msg = common_header ++ 8 ∷ 1 ∷ []

abbrev pub market_participant_position_msg : Layout
market_participant_position_msg = common_header ++ 4 ∷ 8 ∷ 1 ∷ 1 ∷ 1 ∷ []

abbrev pub mwcb_decline_level_msg : Layout
mwcb_decline_level_msg = common_header ++ 8 ∷ 8 ∷ 8 ∷ []

abbrev pub mwcb_status_msg : Layout
mwcb_status_msg = common_header ++ 1 ∷ []

abbrev pub ipo_quoting_period_update_msg : Layout
ipo_quoting_period_update_msg = common_header ++ 8 ∷ 4 ∷ 1 ∷ 4 ∷ []

abbrev pub luld_auction_collar_msg : Layout
luld_auction_collar_msg = common_header ++ 8 ∷ 4 ∷ 4 ∷ 4 ∷ 4 ∷ []

abbrev pub operational_halt_msg : Layout
operational_halt_msg = common_header ++ 8 ∷ 1 ∷ 1 ∷ []

abbrev pub add_order_msg : Layout
add_order_msg = common_header ++ 8 ∷ 1 ∷ 4 ∷ 8 ∷ 4 ∷ []

abbrev pub add_order_mpid_msg : Layout
add_order_mpid_msg = common_header ++ 8 ∷ 1 ∷ 4 ∷ 8 ∷ 4 ∷ 4 ∷ []

abbrev pub order_executed_msg : Layout
order_executed_msg = common_header ++ 8 ∷ 4 ∷ 8 ∷ []

abbrev pub order_executed_with_price_msg : Layout
order_executed_with_price_msg = common_header ++ 8 ∷ 4 ∷ 8 ∷ 1 ∷ 4 ∷ []

abbrev pub order_cancel_msg : Layout
order_cancel_msg = common_header ++ 8 ∷ 4 ∷ []

abbrev pub order_delete_msg : Layout
order_delete_msg = common_header ++ 8 ∷ []

abbrev pub order_replace_msg : Layout
order_replace_msg = common_header ++ 8 ∷ 8 ∷ 4 ∷ 4 ∷ []

abbrev pub non_cross_trade_msg : Layout
non_cross_trade_msg = common_header ++ 8 ∷ 1 ∷ 4 ∷ 8 ∷ 4 ∷ 8 ∷ []

abbrev pub cross_trade_msg : Layout
cross_trade_msg = common_header ++ 8 ∷ 8 ∷ 4 ∷ 8 ∷ 1 ∷ []

abbrev pub broken_trade_msg : Layout
broken_trade_msg = common_header ++ 8 ∷ []

abbrev pub noii_msg : Layout
noii_msg = common_header ++ 8 ∷ 8 ∷ 1 ∷ 8 ∷ 4 ∷ 4 ∷ 4 ∷ 1 ∷ 1 ∷ []

abbrev pub retail_price_improvement_indicator_msg : Layout
retail_price_improvement_indicator_msg = common_header ++ 8 ∷ 1 ∷ []

abbrev pub dlcr_msg : Layout
dlcr_msg = common_header ++ 8 ∷ 1 ∷ 4 ∷ 4 ∷ 4 ∷ 8 ∷ 4 ∷ 4 ∷ []

-- `kMsgMeta`
unfoldable pub k_msg_meta : List (ℕ × ℕ)
unfolding size_of
k_msg_meta =
    (b'S', size_of system_event_msg)
    ∷ (b'R', size_of stock_directory_msg)
    ∷ (b'H', size_of stock_trading_action_msg)
    ∷ (b'Y', size_of reg_sho_msg)
    ∷ (b'L', size_of market_participant_position_msg)
    ∷ (b'V', size_of mwcb_decline_level_msg)
    ∷ (b'W', size_of mwcb_status_msg)
    ∷ (b'K', size_of ipo_quoting_period_update_msg)
    ∷ (b'J', size_of luld_auction_collar_msg)
    ∷ (b'h', size_of operational_halt_msg)
    ∷ (b'A', size_of add_order_msg)
    ∷ (b'F', size_of add_order_mpid_msg)
    ∷ (b'E', size_of order_executed_msg)
    ∷ (b'C', size_of order_executed_with_price_msg)
    ∷ (b'X', size_of order_cancel_msg)
    ∷ (b'D', size_of order_delete_msg)
    ∷ (b'U', size_of order_replace_msg)
    ∷ (b'P', size_of non_cross_trade_msg)
    ∷ (b'Q', size_of cross_trade_msg)
    ∷ (b'B', size_of broken_trade_msg)
    ∷ (b'I', size_of noii_msg)
    ∷ (b'N', size_of retail_price_improvement_indicator_msg)
    ∷ (b'O', size_of dlcr_msg)
    ∷ []

-- The loop of `wire_payload_size`.
unfoldable pub size_in : List (ℕ × ℕ) → ℕ → ℕ
size_in [] type = 0
size_in ((t, size) ∷ rest) type = if t == type then size else size_in rest type

unfoldable pub wire_payload_size : ℕ → ℕ
unfolding size_in k_msg_meta
wire_payload_size = size_in k_msg_meta
