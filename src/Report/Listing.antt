-- ===== src/Report/Listing.antt =====
-- What `print_report` in include/Stats.hpp lists.
use itchparser.Prelude.{
  ℕ, zero, suc, ◌+◌, ◌≤◌, ◌<◌, ◌≡◌, ◌≢◌, refl, ap, ◌∙◌, subst, arith, ◌==◌, Option, none, some,
  List, [], ◌∷◌, if◌then◌else◌, if_elim, Bool-cases, inl, inr, eq_of_==, ne_of_==, ==_refl, ==_ne,
}
use itchparser.Report.{Row, fill_rows, sort_from, printed_from, printed_rows}
use itchparser.Report.Rows.{IsTable, Placed, fill_rows-IsTable, sort_from_lem}

-- The first line about a type.
abbrev pub listed : ℕ → List Row → Option ℕ
listed t [] = none
listed t (r ∷ rs) = if r.type == t then some r.count else listed t rs

-- No later line has a higher count, and no line is for a type that an earlier line is for.
abbrev pub AllBelow : Row → List Row → Type 0
AllBelow r [] = Unit
AllBelow r (q ∷ rs) = (q.count ≤ r.count) × (q.type ≢ r.type) × AllBelow r rs

abbrev pub IsRanking : List Row → Type 0
IsRanking [] = Unit
IsRanking (r ∷ rs) = AllBelow r rs × IsRanking rs

module _ (m : ℕ) (per_type : ℕ → ℕ) (rows : ℕ → Row) (table : IsTable m per_type rows)
    (placed : Placed m m rows) where
  printed_from-AllBelow :
      (n i a : ℕ) → i + n ≡ m → a < i → AllBelow (rows a) (printed_from n i rows)
  unfolding printed_from
  printed_from-AllBelow zero i a e h = tt
  printed_from-AllBelow (suc n) i a e h =
      if_elim (AllBelow (rows a)) ((rows i).count == 0) [] (rows i ∷ printed_from n (i + 1) rows)
        (λ g. tt)
        (λ g. (
          placed a i (omega arith) h (omega arith),
          (λ same. omega (arith, table.once i a (omega arith) (omega arith) same)),
          printed_from-AllBelow n (i + 1) a (omega arith) (omega arith),
        ))

  printed_from-IsRanking : (n i : ℕ) → i + n ≡ m → IsRanking (printed_from n i rows)
  unfolding printed_from
  printed_from-IsRanking zero i e = tt
  printed_from-IsRanking (suc n) i e =
      if_elim IsRanking ((rows i).count == 0) [] (rows i ∷ printed_from n (i + 1) rows) (λ g. tt)
        (λ g. (
          printed_from-AllBelow n (i + 1) i (omega arith) (omega arith),
          printed_from-IsRanking n (i + 1) (omega arith),
        ))

  -- What the list says of the type in position `p`.
  listed-printed_from :
      (n i p : ℕ)
      → i + n ≡ m
      → i ≤ p
      → p < m
      → listed (rows p).type (printed_from n i rows)
        ≡ (if (rows p).count == 0 then none else some (rows p).count)
  unfolding printed_from
  listed-printed_from zero i p e a b = absurd (omega arith)
  listed-printed_from (suc n) i p e a b = elim (Bool-cases (i == p)) [
    | inl g ↦
        let same = eq_of_== i p g in
        elim (Bool-cases ((rows p).count == 0)) [
          | inl z ↦ rw (same, printed_from, z) refl
          | inr z ↦ rw (same, printed_from, z, ==_refl (rows p).type) refl
        ]
    | inr g ↦
        let next : i + 1 ≤ p = omega (arith, ne_of_== i p g) in
        elim (Bool-cases ((rows i).count == 0)) [
          | inl z ↦
              let least = placed i p (omega arith) (omega arith) b in
              let none_ : (rows p).count ≡ 0 = omega (arith, eq_of_== (rows i).count 0 z) in
              rw (printed_from, z, none_) refl
          | inr z ↦
              let other : (rows i).type ≢ (rows p).type =
                λ same. ne_of_== i p g (table.once i p (omega arith) b same) in
              rw (printed_from, z, ==_ne (rows i).type (rows p).type other)
                (listed-printed_from n (i + 1) p (omega arith) next b)
        ]
  ]

-- The breakdown lists the message types from the highest count to the lowest, none twice: a type
-- below 256 has its counter there if it was seen, and is not there if it was not.
pub printed_rows_lem :
    (per_type : ℕ → ℕ) (t : ℕ)
    → t < 256
    → IsRanking (printed_rows per_type)
      × (listed t (printed_rows per_type) ≡ (if per_type t == 0 then none else some (per_type t)))
unfolding printed_rows
printed_rows_lem per_type t h =
    let (table, placed) =
      sort_from_lem 256 per_type 256 0 (fill_rows per_type) refl (fill_rows-IsTable 256 per_type)
        (λ a b x. absurd (omega arith)) in
    let rows = sort_from 256 0 (fill_rows per_type) in
    let (p, within, is) = table.each t h in
    let count : (rows p).count ≡ per_type t = table.counted p ∙ ap per_type is in
    let found =
      listed-printed_from 256 per_type rows table placed 256 0 p refl (omega arith) within in
    (
      printed_from-IsRanking 256 per_type rows table placed 256 0 refl,
      subst (λ c. listed t (printed_rows per_type) ≡ (if c == 0 then none else some c)) count
          (subst
            (λ u.
              listed u (printed_rows per_type)
              ≡ (if (rows p).count == 0 then none else some (rows p).count))
            is found),
    )
