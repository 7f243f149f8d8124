-- ===== src/Report/Names.antt =====
-- `type_name` of include/Stats.hpp: it names the types that have a layout in include/WireFormat.hpp.
use itchparser.Prelude.{
  ℕ, Bool, true, false, ◌≡◌, ◌≢◌, refl, sym, ◌∙◌, subst, ◌==◌, ◌&&◌, not, List, [], ◌∷◌,
  if◌then◌else◌, codes, ◌⊎◌, inl, inr, Bool-cases, eq_of_==, ne_of_==,
}
use mathlib.Core.Bool.{true≢false}
use itchparser.Endian.{Bytes}
use itchparser.Wire.{k_msg_meta, size_in, wire_payload_size}

abbrev pub unknown_name : Bytes
unknown_name = codes "Unknown"

-- The cases of the `switch`.
abbrev type_names : List (ℕ × Bytes)
type_names =
    (b'S', codes "SystemEvent")
    ∷ (b'R', codes "StockDirectory")
    ∷ (b'H', codes "StockTradingAction")
    ∷ (b'Y', codes "RegSHO")
    ∷ (b'L', codes "MarketParticipantPosition")
    ∷ (b'V', codes "MWCBDeclineLevel")
    ∷ (b'W', codes "MWCBStatus")
    ∷ (b'K', codes "IPOQuotingPeriodUpdate")
    ∷ (b'J', codes "LULDAuctionCollar")
    ∷ (b'h', codes "OperationalHalt")
    ∷ (b'A', codes "AddOrder")
    ∷ (b'F', codes "AddOrderMPID")
    ∷ (b'E', codes "OrderExecuted")
    ∷ (b'C', codes "OrderExecutedWithPrice")
    ∷ (b'X', codes "OrderCancel")
    ∷ (b'D', codes "OrderDelete")
    ∷ (b'U', codes "OrderReplace")
    ∷ (b'P', codes "NonCrossTrade")
    ∷ (b'Q', codes "CrossTrade")
    ∷ (b'B', codes "BrokenTrade")
    ∷ (b'I', codes "NOII")
    ∷ (b'N', codes "RPII")
    ∷ (b'O', codes "DLCR")
    ∷ []

unfoldable name_in : List (ℕ × Bytes) → ℕ → Bytes
name_in [] t = unknown_name
name_in ((c, name) ∷ rest) t = if c == t then name else name_in rest t

unfoldable pub type_name : ℕ → Bytes
unfolding name_in
type_name = name_in type_names

abbrev same_text : Bytes → Bytes → Bool
same_text [] [] = true
same_text (a ∷ s) (b ∷ t) = (a == b) && same_text s t
same_text _ _ = false

both : (a b : Bool) → (a && b) ≡ true → (a ≡ true) × (b ≡ true)
both true b h = (refl, h)
both false b h = absurd (true≢false (sym h))

was_not : (a : Bool) → not a ≡ true → a ≡ false
was_not true h = absurd (true≢false (sym h))
was_not false h = refl

-- The tables have the same types in the same order, with sizes and with names.
abbrev matched : List (ℕ × ℕ) → List (ℕ × Bytes) → Bool
matched [] [] = true
matched ((t, size) ∷ sizes) ((c, name) ∷ names) =
    (t == c) && (not (size == 0) && (not (same_text name unknown_name) && matched sizes names))
matched _ _ = false

abbrev Agree : (size : ℕ) → (name : Bytes) → Type 0
Agree size name = ((size ≡ 0) × (name ≡ unknown_name)) ⊎ ((size ≢ 0) × (name ≢ unknown_name))

tables-Agree :
    (sizes : List (ℕ × ℕ)) (names : List (ℕ × Bytes)) (t : ℕ)
    → matched sizes names ≡ true
    → Agree (size_in sizes t) (name_in names t)
unfolding size_in name_in
tables-Agree [] [] t h = inl (refl, refl)
tables-Agree [] (n ∷ names) t h = absurd (true≢false (sym h))
tables-Agree (s ∷ sizes) [] t h = absurd (true≢false (sym h))
tables-Agree ((u, size) ∷ sizes) ((c, name) ∷ names) t h =
    let (keys, rest) = both (u == c) _ h in
    let (sized, rest) = both (not (size == 0)) _ rest in
    let (named, rest) = both (not (same_text name unknown_name)) _ rest in
    let key = eq_of_== u c keys in
    elim (Bool-cases (c == t)) [
      | inl e ↦
          rw (key, e)
            (inr (
              ne_of_== size 0 (was_not (size == 0) sized),
              λ is. true≢false (
                  sym (subst (λ n. same_text n unknown_name ≡ true) (sym is) refl)
                  ∙ was_not (same_text name unknown_name) named),
            ))
      | inr e ↦ rw (key, e) (tables-Agree sizes names t rest)
    ]

-- The report has a name of its own for exactly the types that the registry of sizes has a payload
-- for; it calls all others unknown.
pub type_name_lem :
    (t : ℕ)
    → ((wire_payload_size t ≡ 0) × (type_name t ≡ unknown_name))
      ⊎ ((wire_payload_size t ≢ 0) × (type_name t ≢ unknown_name))
unfolding wire_payload_size type_name k_msg_meta
type_name_lem t = tables-Agree k_msg_meta type_names t refl
