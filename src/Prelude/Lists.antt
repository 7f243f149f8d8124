-- ===== src/Prelude/Lists.antt =====
-- Lists over the native numbers, and stores: functions from an address to what stands there.
use Prim.Native.Nat.{ℕ, zero, suc, ◌+◌, ◌≤◌}
use Prim.Native.Char.{code}
use Prim.Native.String.{String}
use mathlib.Core.Path.{◌≡◌, refl, ap}
use mathlib.Core.Logic.{◌≢◌}
use mathlib.Core.Bool.{Bool, true, false, ◌||◌}
use mathlib.Core.List.{List, [], ◌∷◌, ◌++◌}
use native.Mathlib.Omega.{arith}
use itchparser.Prelude.Tests.{◌==◌, if◌then◌else◌}

module _ {ℓ} {A : Type ℓ} where
  abbrev pub length : List A → ℕ
  length [] = 0
  length (x ∷ xs) = suc (length xs)

  abbrev pub get_or : List A → ℕ → A → A
  get_or [] i d = d
  get_or (x ∷ xs) zero d = x
  get_or (x ∷ xs) (suc i) d = get_or xs i d

  abbrev pub take : ℕ → List A → List A
  take zero xs = []
  take (suc n) [] = []
  take (suc n) (x ∷ xs) = x ∷ take n xs

  abbrev pub drop : ℕ → List A → List A
  drop zero xs = xs
  drop (suc n) [] = []
  drop (suc n) (x ∷ xs) = drop n xs

  pub length-append : (xs ys : List A) → length (xs ++ ys) ≡ length xs + length ys
  length-append [] ys = omega arith
  length-append (x ∷ xs) ys = omega (arith, length-append xs ys)

  -- A write through a pointer.
  abbrev pub update : (ℕ → A) → ℕ → A → ℕ → A
  update f p v q = if q == p then v else f q

-- The bytes of a literal.
abbrev pub codes : String → List ℕ
codes String.[] = []
codes (String.◌∷◌ c s) = code c ∷ codes s

-- Whether an address stands in a list.
abbrev pub has : ℕ → List ℕ → Bool
has a [] = false
has a (x ∷ xs) = (a == x) || has a xs

-- No address stands in the list twice.
abbrev pub Distinct : List ℕ → Type 0
Distinct [] = Unit {0}
Distinct (x ∷ xs) = (has x xs ≡ false) × Distinct xs

pub has-append : (a : ℕ) (xs ys : List ℕ) → has a (xs ++ ys) ≡ (has a xs || has a ys)
has-append a [] ys = refl
has-append a (x ∷ xs) ys = ground (arith, has-append a xs ys)

pub ne_of_has : (a b : ℕ) (xs : List ℕ) → has a xs ≡ true → has b xs ≡ false → a ≢ b
ne_of_has a b xs h out e = let h' : has b xs ≡ true = rw (← e) h in cc

-- What does not stand in an append stands in neither part.
pub not_has-append :
    (a : ℕ) (xs ys : List ℕ) → has a (xs ++ ys) ≡ false → (has a xs ≡ false) × (has a ys ≡ false)
not_has-append a xs ys h = ground (arith, has-append a xs ys)

module _ (o : ℕ) where
  -- The parts of a list of distinct addresses around one of them.
  pub Distinct-parts :
      (xs ys : List ℕ)
      → Distinct (xs ++ o ∷ ys)
      → Distinct xs
        × Distinct ys
        × (has o xs ≡ false)
        × (has o ys ≡ false)
        × ((a : ℕ) → has a xs ≡ true → has a ys ≡ false)
  Distinct-parts [] ys d = (tt, d.1, refl, d.0, λ a h. cc)
  Distinct-parts (x ∷ xs) ys d =
      let (front, back, fo, bo, apart) = Distinct-parts xs ys d.1 in
      let out = not_has-append x xs (o ∷ ys) d.0 in
      ((out.0, front), back, ground arith, bo, λ a h. ground (arith, apart a))

  pub Distinct-drop : (xs ys : List ℕ) → Distinct (xs ++ o ∷ ys) → Distinct (xs ++ ys)
  Distinct-drop [] ys d = d.1
  Distinct-drop (x ∷ xs) ys d =
      (ground (arith, has-append x xs (o ∷ ys), has-append x xs ys), Distinct-drop xs ys d.1)

  pub Distinct-insert :
      (xs ys : List ℕ) → Distinct (xs ++ ys) → has o (xs ++ ys) ≡ false → Distinct (xs ++ o ∷ ys)
  Distinct-insert [] ys d out = (out, d)
  Distinct-insert (x ∷ xs) ys d out = (
    ground (arith, has-append x xs (o ∷ ys), has-append x xs ys),
    Distinct-insert xs ys d.1 (ground arith),
  )

pub take-append {ℓ} :
    {A : Type ℓ} (n : ℕ) (s r : List A) → n ≤ length s → take n (s ++ r) ≡ take n s
take-append zero s r h = refl
take-append (suc n) [] r h = absurd (omega arith)
take-append (suc n) (x ∷ s) r h = ap (λ t. x ∷ t) (take-append n s r (omega arith))

pub take-all {ℓ} : {A : Type ℓ} (n : ℕ) (s : List A) → length s ≤ n → take n s ≡ s
take-all zero [] h = refl
take-all zero (x ∷ s) h = absurd (omega arith)
take-all (suc n) [] h = refl
take-all (suc n) (x ∷ s) h = ap (λ t. x ∷ t) (take-all n s (omega arith))
