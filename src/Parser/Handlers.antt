-- ===== src/Parser/Handlers.antt =====
-- The handlers of include/Parser.hpp. Each begins with `checked_cast`; the ones that leave the
-- engine alone only count a short frame. `little` is the byte order of the host.
use itchparser.Prelude.{ℕ, Bool, true, false, Option, none, some, ltb, if◌then◌else◌, take}
use itchparser.Endian.{Bytes, byte, load_be16, load_be32, load_be48, load_be64}
use itchparser.Wire.{
  Layout, size_of, field, common_header, system_event_msg, stock_directory_msg,
  stock_trading_action_msg, reg_sho_msg, market_participant_position_msg, mwcb_decline_level_msg,
  mwcb_status_msg, ipo_quoting_period_update_msg, luld_auction_collar_msg, operational_halt_msg,
  add_order_msg, add_order_mpid_msg, order_executed_msg, order_executed_with_price_msg,
  order_cancel_msg, order_delete_msg, order_replace_msg, non_cross_trade_msg, cross_trade_msg,
  broken_trade_msg, noii_msg, retail_price_improvement_indicator_msg, dlcr_msg,
}
use itchparser.RunStats.{Stats, on_truncated}
use itchparser.Engine.State.{MatchingEngine}
use itchparser.Engine.Info.{
  on_stock_directory, on_trading_action, on_reg_sho, on_non_cross_trade, on_broken_trade,
}
use itchparser.Engine.Add.{on_add_order, no_mpid}
use itchparser.Engine.Reduce.{
  on_order_executed, on_order_executed_with_price, on_order_cancel, on_order_delete,
}
use itchparser.Engine.Replace.{on_order_replace}
use itchparser.Engine.Cross.{on_cross_trade}

-- The engine and the statistics that the handlers change.
pub record Session : Type 0 where
  pub engine : MatchingEngine
  pub stats : Stats

abbrev pub Handler : Type 0
Handler = Bytes → ℕ → Session → Session

-- The view of the frame as a struct, or `none` for `ParseError::Truncated`.
unfoldable pub checked_cast : Layout → Bytes → ℕ → Option Bytes
checked_cast msg p len = if ltb len (size_of msg) then none else some p

-- `if (!m) { stats.on_truncated(); return; }`, and what the handler does with its view.
unfoldable pub guarded : Layout → (Bytes → MatchingEngine → MatchingEngine) → Handler
unfolding checked_cast
guarded msg act p len s = elim (checked_cast msg p len) [
  | none ↦ record s { stats = on_truncated s.stats }
  | some m ↦ record s { engine = act m s.engine }
]

abbrev pub ignore : Bytes → MatchingEngine → MatchingEngine
ignore m e = e

unfoldable pub handle_system_event : Handler
unfolding guarded
handle_system_event = guarded system_event_msg ignore

unfoldable pub handle_market_participant : Handler
unfolding guarded
handle_market_participant = guarded market_participant_position_msg ignore

unfoldable pub handle_mwcb_decline : Handler
unfolding guarded
handle_mwcb_decline = guarded mwcb_decline_level_msg ignore

unfoldable pub handle_mwcb_status : Handler
unfolding guarded
handle_mwcb_status = guarded mwcb_status_msg ignore

unfoldable pub handle_ipo_quoting_period : Handler
unfolding guarded
handle_ipo_quoting_period = guarded ipo_quoting_period_update_msg ignore

unfoldable pub handle_luld_auction_collar : Handler
unfolding guarded
handle_luld_auction_collar = guarded luld_auction_collar_msg ignore

unfoldable pub handle_operational_halt : Handler
unfolding guarded
handle_operational_halt = guarded operational_halt_msg ignore

unfoldable pub handle_noii : Handler
unfolding guarded
handle_noii = guarded noii_msg ignore

unfoldable pub handle_rpii : Handler
unfolding guarded
handle_rpii = guarded retail_price_improvement_indicator_msg ignore

unfoldable pub handle_dlcr : Handler
unfolding guarded
handle_dlcr = guarded dlcr_msg ignore

module _ (little : Bool) where
  -- Integer fields of the struct at `m`, by the number of the field.
  abbrev pub u32 : Layout → ℕ → Bytes → ℕ
  u32 msg i m = load_be32 little (field msg i m)

  abbrev pub u64 : Layout → ℕ → Bytes → ℕ
  u64 msg i m = load_be64 little (field msg i m)

  abbrev pub u8 : Layout → ℕ → Bytes → ℕ
  u8 msg i m = byte (field msg i m) 0

  -- `load_be16(&(*m)->hdr.stockLocateHi)`
  abbrev pub locate_of : Bytes → ℕ
  locate_of m = load_be16 little (field common_header 1 m)

  -- `load_be48((*m)->hdr.ts)`
  abbrev pub time_of : Bytes → ℕ
  time_of m = load_be48 (field common_header 5 m)

  unfoldable pub directory_act : Bytes → MatchingEngine → MatchingEngine
  directory_act m =
      let msg = stock_directory_msg in
      on_stock_directory (locate_of m) (take 8 (field msg 6 m)) (record {
        mc = u8 msg 7 m;
        fsi = u8 msg 8 m;
        rls = u32 msg 9 m;
        rlo = u8 msg 10 m;
        auth = u8 msg 13 m;
        ssti = u8 msg 14 m;
        ipo = u8 msg 15 m;
        luld = u8 msg 16 m;
        etp = u8 msg 17 m;
        elf = u32 msg 18 m;
        inv = u8 msg 19 m;
      })

  unfoldable pub handle_stock_directory : Handler
  unfolding guarded directory_act
  handle_stock_directory = guarded stock_directory_msg directory_act

  unfoldable pub handle_stock_trading_action : Handler
  unfolding guarded
  handle_stock_trading_action =
      guarded stock_trading_action_msg
        λ m. on_trading_action (locate_of m) (u8 stock_trading_action_msg 7 m)

  unfoldable pub handle_reg_sho : Handler
  unfolding guarded
  handle_reg_sho = guarded reg_sho_msg λ m. on_reg_sho (locate_of m) (u8 reg_sho_msg 7 m)

  unfoldable pub add_mpid_act : Bytes → MatchingEngine → MatchingEngine
  add_mpid_act m =
      let msg = add_order_mpid_msg in
      on_add_order (locate_of m) (u64 msg 6 m) (record {
        bsi = u8 msg 7 m;
        qty = u32 msg 8 m;
        px = u32 msg 10 m;
        ts = time_of m;
        mpid = take 4 (field msg 11 m);
        attributed = true;
      })

  unfoldable pub add_act : Bytes → MatchingEngine → MatchingEngine
  add_act m =
      let msg = add_order_msg in
      on_add_order (locate_of m) (u64 msg 6 m) (record {
        bsi = u8 msg 7 m;
        qty = u32 msg 8 m;
        px = u32 msg 10 m;
        ts = time_of m;
        mpid = no_mpid;
        attributed = false;
      })

  unfoldable pub handle_add_order : (attributed : Bool) → Handler
  unfolding guarded add_mpid_act add_act
  handle_add_order true = guarded add_order_mpid_msg add_mpid_act
  handle_add_order false = guarded add_order_msg add_act

  unfoldable pub handle_order_executed : Handler
  unfolding guarded
  handle_order_executed = guarded order_executed_msg λ m.
      let msg = order_executed_msg in on_order_executed (locate_of m) (u64 msg 6 m) (u32 msg 7 m)

  unfoldable pub handle_order_executed_price : Handler
  unfolding guarded
  handle_order_executed_price = guarded order_executed_with_price_msg λ m.
      let msg = order_executed_with_price_msg in
      on_order_executed_with_price (locate_of m) (u64 msg 6 m) (u32 msg 7 m)

  unfoldable pub handle_order_cancel : Handler
  unfolding guarded
  handle_order_cancel =
      guarded order_cancel_msg
        λ m. on_order_cancel (locate_of m) (u64 order_cancel_msg 6 m) (u32 order_cancel_msg 7 m)

  unfoldable pub handle_order_delete : Handler
  unfolding guarded
  handle_order_delete =
      guarded order_delete_msg λ m. on_order_delete (locate_of m) (u64 order_delete_msg 6 m)

  unfoldable pub replace_act : Bytes → MatchingEngine → MatchingEngine
  replace_act m =
      let msg = order_replace_msg in
      on_order_replace (locate_of m) (u64 msg 6 m)
        (record { id = u64 msg 7 m; qty = u32 msg 8 m; px = u32 msg 9 m; ts = time_of m })

  unfoldable pub handle_order_replace : Handler
  unfolding guarded replace_act
  handle_order_replace = guarded order_replace_msg replace_act

  unfoldable pub handle_non_cross_trade : Handler
  unfolding guarded
  handle_non_cross_trade = guarded non_cross_trade_msg λ _. on_non_cross_trade

  unfoldable pub handle_cross_trade : Handler
  unfolding guarded
  handle_cross_trade =
      guarded cross_trade_msg λ m. on_cross_trade (locate_of m) (u8 cross_trade_msg 10 m)

  unfoldable pub handle_broken_trade : Handler
  unfolding guarded
  handle_broken_trade = guarded broken_trade_msg λ _. on_broken_trade
