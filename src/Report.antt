-- ===== src/Report.antt =====
-- The breakdown per message type of `print_report` in include/Stats.hpp. The percentages, which are
-- floating-point numbers, are left out.
pub mod Rows
pub mod Listing
pub mod Names
use itchparser.Prelude.{
  ℕ, zero, suc, ◌+◌, List, [], ◌∷◌, ltb, leb, ◌==◌, ◌&&◌, update, if◌then◌else◌,
}

pub record Row : Type 0 where
  pub type : ℕ
  pub count : ℕ

abbrev pub type_count : ℕ
type_count = 256

-- `rows`, filled from the counters
unfoldable pub fill_rows : (ℕ → ℕ) → ℕ → Row
fill_rows per_type i = record { type = i; count = per_type i }

-- The search for the row with the highest count from `j` on, with the rounds that are left.
unfoldable pub best_from : (ℕ → Row) → (n j best : ℕ) → ℕ
best_from rows zero j best = best
best_from rows (suc n) j best =
    best_from rows n (j + 1) (if ltb (rows best).count (rows j).count then j else best)

-- `std::swap(rows[i], rows[best])`
unfoldable pub swap_rows : (ℕ → Row) → (i best : ℕ) → ℕ → Row
swap_rows rows i best = update (update rows i (rows best)) best (rows i)

-- The sort from position `i` on, with the rounds that are left.
unfoldable pub sort_from : (n i : ℕ) → (ℕ → Row) → ℕ → Row
unfolding best_from swap_rows
sort_from zero i rows = rows
sort_from (suc n) i rows =
    let best = best_from rows n (i + 1) i in
    sort_from n (i + 1) (if best == i then rows else swap_rows rows i best)

-- The rows that are printed from position `i` on: the loop stops at the first count of zero.
unfoldable pub printed_from : (n i : ℕ) → (ℕ → Row) → List Row
printed_from zero i rows = []
printed_from (suc n) i rows =
    let rest = printed_from n (i + 1) rows in if (rows i).count == 0 then [] else rows i ∷ rest

unfoldable pub printed_rows : (ℕ → ℕ) → List Row
unfolding fill_rows sort_from printed_from
printed_rows per_type = printed_from type_count 0 (sort_from type_count 0 (fill_rows per_type))
