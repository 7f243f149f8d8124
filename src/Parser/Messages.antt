-- ===== src/Parser/Messages.antt =====
-- The messages that change a book, as the structs of include/WireFormat.hpp lay them out, and what
-- the engine does with each: an independent description of the handlers of include/Parser.hpp.
use itchparser.Prelude.{ℕ, ◌^◌, ◌<◌, true, false, [], ◌∷◌, ◌++◌}
use itchparser.Endian.{Bytes}
use itchparser.Endian.RoundTrip.{to_be}
use itchparser.Engine.State.{MatchingEngine}
use itchparser.Engine.Add.{on_add_order, no_mpid}
use itchparser.Engine.Reduce.{
  on_order_executed, on_order_executed_with_price, on_order_cancel, on_order_delete,
}
use itchparser.Engine.Replace.{on_order_replace}
use itchparser.Engine.Cross.{on_cross_trade}

pub record Header : Type 0 where
  pub locate : ℕ
  pub tracking : ℕ
  pub ts : ℕ

-- An `Alpha<8>` and an `Alpha<4>`.
pub record Symbol : Type 0 where
  pub s0 : ℕ
  pub s1 : ℕ
  pub s2 : ℕ
  pub s3 : ℕ
  pub s4 : ℕ
  pub s5 : ℕ
  pub s6 : ℕ
  pub s7 : ℕ

pub record Attribution : Type 0 where
  pub m0 : ℕ
  pub m1 : ℕ
  pub m2 : ℕ
  pub m3 : ℕ

abbrev pub symbol_bytes : Symbol → Bytes
symbol_bytes s = s.s0 ∷ s.s1 ∷ s.s2 ∷ s.s3 ∷ s.s4 ∷ s.s5 ∷ s.s6 ∷ s.s7 ∷ []

abbrev pub mpid_bytes : Attribution → Bytes
mpid_bytes m = m.m0 ∷ m.m1 ∷ m.m2 ∷ m.m3 ∷ []

pub data Message : Type 0 where
  add : Header → (id bsi qty : ℕ) → Symbol → (px : ℕ) → Message
  add_mpid : Header → (id bsi qty : ℕ) → Symbol → (px : ℕ) → Attribution → Message
  executed : Header → (id qty number : ℕ) → Message
  executed_with_price : Header → (id qty number printable px : ℕ) → Message
  cancel : Header → (id qty : ℕ) → Message
  delete : Header → (id : ℕ) → Message
  replace : Header → (old_id new_id qty px : ℕ) → Message
  cross : Header → (traded : ℕ) → Symbol → (px number type : ℕ) → Message

abbrev pub header_bytes : ℕ → Header → Bytes
header_bytes type h = type ∷ (to_be 2 h.locate ++ (to_be 2 h.tracking ++ to_be 6 h.ts))

unfoldable pub type_of : Message → ℕ
type_of (add _ _ _ _ _ _) = b'A'
type_of (add_mpid _ _ _ _ _ _ _) = b'F'
type_of (executed _ _ _ _) = b'E'
type_of (executed_with_price _ _ _ _ _ _) = b'C'
type_of (cancel _ _ _) = b'X'
type_of (delete _ _) = b'D'
type_of (replace _ _ _ _ _) = b'U'
type_of (cross _ _ _ _ _ _) = b'Q'

-- What stands behind the header.
unfoldable pub body : Message → Bytes
body (add _ id bsi qty s px) = to_be 8 id ++ (bsi ∷ (to_be 4 qty ++ (symbol_bytes s ++ to_be 4 px)))
body (add_mpid _ id bsi qty s px m) =
    to_be 8 id ++ (bsi ∷ (to_be 4 qty ++ (symbol_bytes s ++ (to_be 4 px ++ mpid_bytes m))))
body (executed _ id qty number) = to_be 8 id ++ (to_be 4 qty ++ to_be 8 number)
body (executed_with_price _ id qty number printable px) =
    to_be 8 id ++ (to_be 4 qty ++ (to_be 8 number ++ (printable ∷ to_be 4 px)))
body (cancel _ id qty) = to_be 8 id ++ to_be 4 qty
body (delete _ id) = to_be 8 id
body (replace _ old_id new_id qty px) =
    to_be 8 old_id ++ (to_be 8 new_id ++ (to_be 4 qty ++ to_be 4 px))
body (cross _ traded s px number type) =
    to_be 8 traded ++ (symbol_bytes s ++ (to_be 4 px ++ (to_be 8 number ++ (type ∷ []))))

unfoldable pub header_of : Message → Header
header_of (add h _ _ _ _ _) = h
header_of (add_mpid h _ _ _ _ _ _) = h
header_of (executed h _ _ _) = h
header_of (executed_with_price h _ _ _ _ _) = h
header_of (cancel h _ _) = h
header_of (delete h _) = h
header_of (replace h _ _ _ _) = h
header_of (cross h _ _ _ _ _) = h

unfoldable pub encode : Message → Bytes
unfolding type_of header_of body to_be
encode m = header_bytes (type_of m) (header_of m) ++ body m

abbrev pub HeaderFits : Header → Type 0
HeaderFits h = (h.locate < 2 ^ 16) × (h.ts < 2 ^ 48)

-- The numbers fit the fields that the engine is given.
abbrev pub Fits : Message → Type 0
Fits (add h id bsi qty s px) = HeaderFits h × (id < 2 ^ 64) × (qty < 2 ^ 32) × (px < 2 ^ 32)
Fits (add_mpid h id bsi qty s px m) = HeaderFits h × (id < 2 ^ 64) × (qty < 2 ^ 32) × (px < 2 ^ 32)
Fits (executed h id qty number) = HeaderFits h × (id < 2 ^ 64) × (qty < 2 ^ 32)
Fits (executed_with_price h id qty number printable px) =
    HeaderFits h × (id < 2 ^ 64) × (qty < 2 ^ 32)
Fits (cancel h id qty) = HeaderFits h × (id < 2 ^ 64) × (qty < 2 ^ 32)
Fits (delete h id) = HeaderFits h × (id < 2 ^ 64)
Fits (replace h old_id new_id qty px) =
    HeaderFits h × (old_id < 2 ^ 64) × (new_id < 2 ^ 64) × (qty < 2 ^ 32) × (px < 2 ^ 32)
Fits (cross h traded s px number type) = HeaderFits h

-- The call of the engine that a message stands for.
unfoldable pub deliver : Message → MatchingEngine → MatchingEngine
deliver (add h id bsi qty s px) =
    on_add_order h.locate id
      (record { bsi = bsi; qty = qty; px = px; ts = h.ts; mpid = no_mpid; attributed = false })
deliver (add_mpid h id bsi qty s px m) =
    on_add_order h.locate id
      (record { bsi = bsi; qty = qty; px = px; ts = h.ts; mpid = mpid_bytes m; attributed = true })
deliver (executed h id qty number) = on_order_executed h.locate id qty
deliver (executed_with_price h id qty number printable px) =
    on_order_executed_with_price h.locate id qty
deliver (cancel h id qty) = on_order_cancel h.locate id qty
deliver (delete h id) = on_order_delete h.locate id
deliver (replace h old_id new_id qty px) =
    on_order_replace h.locate old_id (record { id = new_id; qty = qty; px = px; ts = h.ts })
deliver (cross h traded s px number type) = on_cross_trade h.locate type
