-- ===== src/Parser/Dispatch.antt =====
-- `dispatch` of include/Parser.hpp. A switch without fall-through runs the handler of the case
-- that carries the value, or the default.
use itchparser.Prelude.{
  ℕ, Bool, true, false, Option, none, some, List, [], ◌∷◌, ◌==◌, if◌then◌else◌,
}
use itchparser.Endian.{Bytes}
use itchparser.RunStats.{on_message, on_parse_error}
use itchparser.Parser.Handlers.{
  Session, Handler, handle_system_event, handle_market_participant, handle_mwcb_decline,
  handle_mwcb_status, handle_ipo_quoting_period, handle_luld_auction_collar,
  handle_operational_halt, handle_noii, handle_rpii, handle_dlcr, handle_stock_directory,
  handle_stock_trading_action, handle_reg_sho, handle_add_order, handle_order_executed,
  handle_order_executed_price, handle_order_cancel, handle_order_delete, handle_order_replace,
  handle_non_cross_trade, handle_cross_trade, handle_broken_trade,
}

unfoldable pub switch : ℕ → List (ℕ × Handler) → Option Handler
switch type [] = none
switch type ((t, h) ∷ rest) = if t == type then some h else switch type rest

module _ (little : Bool) where
  unfoldable pub cases : List (ℕ × Handler)
  cases =
      (b'S', handle_system_event)
      ∷ (b'R', handle_stock_directory little)
      ∷ (b'H', handle_stock_trading_action little)
      ∷ (b'Y', handle_reg_sho little)
      ∷ (b'L', handle_market_participant)
      ∷ (b'V', handle_mwcb_decline)
      ∷ (b'W', handle_mwcb_status)
      ∷ (b'K', handle_ipo_quoting_period)
      ∷ (b'J', handle_luld_auction_collar)
      ∷ (b'h', handle_operational_halt)
      ∷ (b'A', handle_add_order little false)
      ∷ (b'F', handle_add_order little true)
      ∷ (b'E', handle_order_executed little)
      ∷ (b'C', handle_order_executed_price little)
      ∷ (b'X', handle_order_cancel little)
      ∷ (b'D', handle_order_delete little)
      ∷ (b'U', handle_order_replace little)
      ∷ (b'P', handle_non_cross_trade little)
      ∷ (b'Q', handle_cross_trade little)
      ∷ (b'B', handle_broken_trade little)
      ∷ (b'I', handle_noii)
      ∷ (b'N', handle_rpii)
      ∷ (b'O', handle_dlcr)
      ∷ []

  unfoldable pub dispatch : (type : ℕ) → Bytes → (payload_len : ℕ) → Session → Session
  dispatch type payload payload_len s =
      let s₁ = record s { stats = on_message type payload_len s.stats } in
      elim (switch type cases) [
        | some handle ↦ handle payload payload_len s₁
        | none ↦ record s₁ { stats = on_parse_error s₁.stats }
      ]
