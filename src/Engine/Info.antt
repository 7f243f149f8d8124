-- ===== src/Engine/Info.antt =====
-- The handlers of include/MatchingEngine.hpp that leave the books alone: the directory and state
-- messages, and the trades that are only counted.
use itchparser.Prelude.{ℕ, none, some, List, inc64}
use itchparser.Instruments.{Instrument, get_or_create, set_symbol, put}
use itchparser.Engine.State.{MatchingEngine, with_stats}

-- The arguments of `on_stock_directory` behind the symbol.
pub record DirectoryFields : Type 0 where
  pub mc : ℕ
  pub fsi : ℕ
  pub rls : ℕ
  pub rlo : ℕ
  pub auth : ℕ
  pub ssti : ℕ
  pub ipo : ℕ
  pub luld : ℕ
  pub etp : ℕ
  pub elf : ℕ
  pub inv : ℕ

-- The assignments of `on_stock_directory` to the instrument.
unfoldable pub describe : List ℕ → DirectoryFields → Instrument → Instrument
unfolding set_symbol
describe symbol d inst = record (set_symbol symbol inst) {
  market_category = d.mc;
  financial_status = d.fsi;
  round_lot_size = d.rls;
  round_lots_only = d.rlo;
  authenticity = d.auth;
  short_scale = d.ssti;
  ipo_flag = d.ipo;
  luld_tier = d.luld;
  etp_flag = d.etp;
  etp_leverage_factor = d.elf;
  inverse_indicator = d.inv;
}

unfoldable pub on_stock_directory : ℕ → List ℕ → DirectoryFields → MatchingEngine → MatchingEngine
unfolding get_or_create put describe
on_stock_directory locate symbol d e =
    let got = get_or_create locate e.instruments in
    record e {
      instruments = put locate (describe symbol d got.0) got.1;
      stats = elim (e.instruments.slots locate) [
        | none ↦ record e.stats { instruments_registered = inc64 e.stats.instruments_registered }
        | some _ ↦ e.stats
      ];
    }

unfoldable pub on_trading_action : ℕ → ℕ → MatchingEngine → MatchingEngine
unfolding put
on_trading_action locate state e = elim (e.instruments.slots locate) [
  | none ↦ e
  | some inst ↦ record e {
    instruments = put locate (record inst { trading_state = state }) e.instruments;
  }
]

unfoldable pub on_reg_sho : ℕ → ℕ → MatchingEngine → MatchingEngine
unfolding put
on_reg_sho locate action e = elim (e.instruments.slots locate) [
  | none ↦ e
  | some inst ↦ record e {
    instruments = put locate (record inst { reg_sho_action = action }) e.instruments;
  }
]

unfoldable pub on_non_cross_trade : MatchingEngine → MatchingEngine
on_non_cross_trade = with_stats λ st. record st { non_cross_trades = inc64 st.non_cross_trades }

unfoldable pub on_broken_trade : MatchingEngine → MatchingEngine
on_broken_trade = with_stats λ st. record st { broken_trades = inc64 st.broken_trades }
