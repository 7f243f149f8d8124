-- ===== src/Instruments.antt =====
-- include/InstrumentMap.hpp. An instrument is owned by the map and reached through its slot alone,
-- so a change through the pointer writes the slot. The default member values are those of the
-- struct.
use itchparser.Prelude.{ℕ, Option, none, some, List, [], ◌∷◌, update, take, inc64}
use itchparser.Book.State.{OrderBook, make_book}

pub record Instrument : Type 0 where
  pub locate : ℕ
  pub symbol : List ℕ
  pub market_category : ℕ
  pub financial_status : ℕ
  pub round_lot_size : ℕ
  pub round_lots_only : ℕ
  pub authenticity : ℕ
  pub short_scale : ℕ
  pub ipo_flag : ℕ
  pub luld_tier : ℕ
  pub etp_flag : ℕ
  pub etp_leverage_factor : ℕ
  pub inverse_indicator : ℕ
  pub trading_state : ℕ
  pub reg_sho_action : ℕ
  pub book : Option OrderBook

-- `Instrument{}`
unfoldable pub make_instrument : Instrument
make_instrument = record {
  locate = 0;
  symbol = 0 ∷ 0 ∷ 0 ∷ 0 ∷ 0 ∷ 0 ∷ 0 ∷ 0 ∷ [];
  market_category = b' ';
  financial_status = b'N';
  round_lot_size = 100;
  round_lots_only = b'N';
  authenticity = b'P';
  short_scale = b'N';
  ipo_flag = b' ';
  luld_tier = b' ';
  etp_flag = b' ';
  etp_leverage_factor = 1;
  inverse_indicator = b'N';
  trading_state = b'H';
  reg_sho_action = b'0';
  book = none;
}

-- `ensure_book`: the book, made on the first call, and the instrument that now owns it.
unfoldable pub ensure_book : Instrument → OrderBook × Instrument
unfolding make_book
ensure_book inst = elim inst.book [
  | some b ↦ (b, inst)
  | none ↦ (make_book, record inst { book = some make_book })
]

unfoldable pub set_symbol : List ℕ → Instrument → Instrument
set_symbol src inst = record inst { symbol = take 8 src }

pub record InstrumentMap : Type 0 where
  pub slots : ℕ → Option Instrument
  pub count : ℕ

unfoldable pub make_instruments : InstrumentMap
make_instruments = record { slots = λ _. none; count = 0 }

-- A change of the instrument in a slot, through its pointer.
unfoldable pub put : ℕ → Instrument → InstrumentMap → InstrumentMap
put locate inst im = record im { slots = update im.slots locate (some inst) }

unfoldable pub get_or_create : ℕ → InstrumentMap → Instrument × InstrumentMap
unfolding make_instrument
get_or_create locate im = elim (im.slots locate) [
  | some p ↦ (p, im)
  | none ↦
      let p = record make_instrument { locate = locate } in
      (p, record { slots = update im.slots locate (some p); count = inc64 im.count })
]
