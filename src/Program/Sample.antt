-- ===== src/Program/Sample.antt =====
-- The end of the engine's report, which src/main.cpp and include/ITCHProcessor.hpp both print: the
-- check of the order pool, and the first instruments with live orders.
use itchparser.Prelude.{
  ℕ, zero, suc, ◌+◌, ◌≤◌, ◌&&◌, not, ltb, leb, ◌==◌, Option, none, some, List, [], ◌∷◌, take,
  length, ◌++◌, append_assoc, take-append, take-all, length-append, sub64, if◌then◌else◌, ◌≡◌, refl,
  sym, ap, ◌∙◌, arith, Bool-cases, Option-cases, inl, inr,
}
use mathlib.Core.List.{append-nil}
use itchparser.Types.{k_max_instruments}
use itchparser.Book.State.{Levels, OrderBook}
use itchparser.Book.Walks.{best_bid_price, best_ask_price, best_bid_shares, best_ask_shares}
use itchparser.Instruments.{Instrument, InstrumentMap}

data Lifecycle : Type 0 where
  accounting_bug consistent : Lifecycle
  leak : (in_use : ℕ) → Lifecycle

-- The leak check.
unfoldable lifecycle : (live_orders op_free op_cap : ℕ) → Lifecycle
lifecycle live_orders op_free op_cap =
    if not (live_orders == 0) && (op_free == op_cap)
    then accounting_bug
    else (if (live_orders == 0) && ltb op_free op_cap
        then leak (sub64 op_cap op_free)
        else consistent)

-- A line of the sample.
pub record Line : Type 0 where
  pub symbol : List ℕ
  pub bid : ℕ
  pub bid_shares : ℕ
  pub ask : ℕ
  pub ask_shares : ℕ
  pub live_orders : ℕ

-- What the lambda keeps: `shown`, and the lines that it has printed.
pub record Shown : Type 0 where
  pub shown : ℕ
  pub lines : List Line

abbrev visit : (Instrument → Shown → Shown) → Option Instrument → Shown → Shown
visit fn none s = s
visit fn (some p) s = fn p s

-- `InstrumentMap::for_each` from slot `i` on, with the slots that are left.
unfoldable for_each :
    (Instrument → Shown → Shown) → (ℕ → Option Instrument) → (n i : ℕ) → Shown → Shown
for_each fn slots zero i s = s
for_each fn slots (suc n) i s = for_each fn slots n (i + 1) (visit fn (slots i) s)

module _ (ls : Levels) where
  unfoldable pub book_line : Instrument → OrderBook → Line
  book_line inst b = record {
    symbol = take 8 inst.symbol;
    bid = best_bid_price b ls;
    bid_shares = best_bid_shares b ls;
    ask = best_ask_price b ls;
    ask_shares = best_ask_shares b ls;
    live_orders = b.live_order_count;
  }

  -- The lambda.
  unfoldable show_live : Instrument → Shown → Shown
  unfolding book_line
  show_live inst s = if leb 10 s.shown then s else elim inst.book [
    | none ↦ s
    | some b ↦
        if b.live_order_count == 0
        then s
        else record { shown = s.shown + 1; lines = s.lines ++ (book_line inst b ∷ []) }
  ]

  unfoldable pub sample : InstrumentMap → List Line
  unfolding for_each show_live
  sample im =
      (for_each show_live im.slots k_max_instruments 0 (record { shown = 0; lines = [] })).lines

  -- The line of a slot that has live orders.
  abbrev pub live_line : Option Instrument → List Line
  live_line none = []
  live_line (some inst) = elim inst.book [
    | none ↦ []
    | some b ↦ if b.live_order_count == 0 then [] else book_line inst b ∷ []
  ]

  -- The lines of all instruments with live orders, in the order of their locates.
  abbrev pub live_lines : (ℕ → Option Instrument) → (n i : ℕ) → List Line
  live_lines slots zero i = []
  live_lines slots (suc n) i = live_line (slots i) ++ live_lines slots n (i + 1)

  abbrev Fits : Shown → Type 0
  Fits s = (s.shown ≡ length s.lines) × (s.shown ≤ 10)

  full_stays : (s r q : List Line) → 10 ≤ length s → take 10 (s ++ r) ≡ take 10 (s ++ q)
  full_stays s r q h = take-append 10 s r h ∙ sym (take-append 10 s q h)

  -- One slot.
  show_one :
      (p : Option Instrument) (s : Shown) (rest : List Line)
      → Fits s
      → Fits (visit show_live p s)
        × (take 10 ((visit show_live p s).lines ++ rest)
            ≡ take 10 (s.lines ++ (live_line p ++ rest)))
  unfolding show_live
  show_one none s rest f = (f, refl)
  show_one (some inst) s rest f = elim (Bool-cases (leb 10 s.shown)) [
    | inl e ↦
        rw (show_live, e)
          (f, full_stays s.lines rest (live_line (some inst) ++ rest) (ground arith))
    | inr e ↦ elim (Option-cases inst.book) [
      | inl g ↦ rw (show_live, e, g) (f, refl)
      | inr (b, g) ↦ elim (Bool-cases (b.live_order_count == 0)) [
        | inl h ↦ rw (show_live, e, g, h) (f, refl)
        | inr h ↦
            rw (show_live, e, g, h)
              (
                (
                  rw (length-append s.lines (book_line inst b ∷ [])) (omega (arith, f.0)),
                  ground arith,
                ),
                ap (take 10) (append_assoc s.lines (book_line inst b ∷ []) rest),
              )
      ]
    ]
  ]

  for_each-live_lines :
      (slots : ℕ → Option Instrument) (n i : ℕ) (s : Shown)
      → Fits s
      → (for_each show_live slots n i s).lines ≡ take 10 (s.lines ++ live_lines slots n i)
  unfolding for_each
  for_each-live_lines slots zero i s f =
      rw (append-nil s.lines) (sym (take-all 10 s.lines (omega (arith, f))))
  for_each-live_lines slots (suc n) i s f =
      let (g, e) = show_one (slots i) s (live_lines slots n (i + 1)) f in
      for_each-live_lines slots n (i + 1) (visit show_live (slots i) s) g ∙ e

  -- The sample of the report is the lines of the first ten instruments with live orders, in the
  -- order of their locates.
  pub sample_lem :
      (im : InstrumentMap) → sample im ≡ take 10 (live_lines im.slots k_max_instruments 0)
  unfolding sample
  sample_lem im =
      for_each-live_lines im.slots k_max_instruments 0 (record { shown = 0; lines = [] })
        (refl, omega arith)
