-- ===== src/Parser/Rounds.antt =====
-- `run` of include/Parser.hpp round by round, on any buffer.
use itchparser.Prelude.{
  ℕ, zero, suc, ◌+◌, ◌/◌, ◌%◌, ◌^◌, ◌≤◌, ◌<◌, ◌≡◌, refl, Bool, true, false, List, [], ◌∷◌, ◌++◌,
  ◌⊎◌, arith, ◌∙◌, length, drop, inl, inr, ltb, ◌==◌, sym, subst,
}
use itchparser.Endian.{Bytes, byte, load_be16}
use itchparser.Endian.RoundTrip.{to_be, load_be16-to_be}
use itchparser.RunStats.{on_parse_error}
use itchparser.Parser.Handlers.{Session}
use itchparser.Parser.Dispatch.{dispatch}
use itchparser.Parser.Run.{run_from, run}

length-drop {ℓ} :
    {A : Type ℓ} → (n : ℕ) (xs : List A) → n ≤ length xs → n + length (drop n xs) ≡ length xs
length-drop zero xs h = omega arith
length-drop (suc n) [] h = absurd (omega arith)
length-drop (suc n) (x ∷ xs) h = omega (arith, length-drop n xs (omega arith))

length-drop_le {ℓ} : {A : Type ℓ} → (n : ℕ) (xs : List A) → length (drop n xs) ≤ length xs
length-drop_le zero xs = omega arith
length-drop_le (suc n) [] = omega arith
length-drop_le (suc n) (x ∷ xs) = omega (arith, length-drop_le n xs)

-- A length says more than the bytes that are left, or nothing, or something that is there.
pub round-cases : (n k : ℕ) → (k < n) ⊎ ((n ≡ 0) ⊎ ((0 < n) × (n ≤ k)))
round-cases n k = ground arith

module _ (little : Bool) where
  -- The three ways a round goes that has the two bytes of a length `n`.
  module _ (f : ℕ) (h l : ℕ) (q : Bytes) (c : ℕ) (s : Session) where
    abbrev Short : ℕ → Type 0
    Short n =
        length q < n
        → run_from little (suc f) (h ∷ l ∷ q) c s
          ≡ (c + 2, record s { stats = on_parse_error s.stats })

    abbrev Full : ℕ → Type 0
    Full n =
        0 < n
        → n ≤ length q
        → run_from little (suc f) (h ∷ l ∷ q) c s
          ≡ run_from little f (drop n q) (c + 2 + n) (dispatch little (byte q 0) q n s)

    round-Short : Short (load_be16 little (h ∷ l ∷ q))
    unfolding run_from
    round-Short short =
        let two : ltb (length (h ∷ l ∷ q)) 2 ≡ false = ground arith in
        let t : ltb (length q) (load_be16 little (h ∷ l ∷ q)) ≡ true = ground arith in
        rw (run_from, two, t) refl

    round-Full : Full (load_be16 little (h ∷ l ∷ q))
    unfolding run_from
    round-Full pos fits =
        let two : ltb (length (h ∷ l ∷ q)) 2 ≡ false = ground arith in
        let t : ltb (length q) (load_be16 little (h ∷ l ∷ q)) ≡ false = ground arith in
        let z : (load_be16 little (h ∷ l ∷ q) == 0) ≡ false = ground arith in
        rw (run_from, two, t, z) refl

    pub run_from-empty :
        load_be16 little (h ∷ l ∷ q) ≡ 0
        → run_from little (suc f) (h ∷ l ∷ q) c s
          ≡ run_from little f q (c + 2) (record s { stats = on_parse_error s.stats })
    unfolding run_from
    run_from-empty e =
        let two : ltb (length (h ∷ l ∷ q)) 2 ≡ false = ground arith in
        let t : ltb (length q) (load_be16 little (h ∷ l ∷ q)) ≡ false = ground arith in
        let z : (load_be16 little (h ∷ l ∷ q) == 0) ≡ true = ground arith in
        rw (run_from, two, t, z) refl

    pub run_from-Short : (n : ℕ) → load_be16 little (h ∷ l ∷ q) ≡ n → Short n
    run_from-Short n says = subst Short says round-Short

    pub run_from-Full : (n : ℕ) → load_be16 little (h ∷ l ∷ q) ≡ n → Full n
    run_from-Full n says = subst Full says round-Full

  -- The walk ends by itself: any two numbers of rounds that are at least the number of bytes left
  -- give the same result, so that the bound on the rounds is never what stops the walk.
  pub run_from-enough :
      (f g : ℕ) (p : Bytes) (c : ℕ) (s : Session)
      → length p ≤ f
      → length p ≤ g
      → run_from little f p c s ≡ run_from little g p c s
  unfolding run_from
  run_from-enough zero zero p c s hf hg = refl
  run_from-enough zero (suc g) [] c s hf hg = refl
  run_from-enough zero (suc g) (x ∷ p) c s hf hg = absurd (omega arith)
  run_from-enough (suc f) zero [] c s hf hg = refl
  run_from-enough (suc f) zero (x ∷ p) c s hf hg = absurd (omega arith)
  run_from-enough (suc f) (suc g) [] c s hf hg = refl
  run_from-enough (suc f) (suc g) (x ∷ []) c s hf hg = refl
  run_from-enough (suc f) (suc g) (x ∷ y ∷ q) c s hf hg =
      let n = load_be16 little (x ∷ y ∷ q) in
      let l : length (drop n q) ≤ length q = length-drop_le n q in
      elim (round-cases n (length q)) [
        | inl r ↦ run_from-Short f x y q c s n refl r ∙ sym (run_from-Short g x y q c s n refl r)
        | inr (inl r) ↦
            run_from-empty f x y q c s r
            ∙ run_from-enough f g q (c + 2) (record s { stats = on_parse_error s.stats })
                (omega arith) (omega arith)
            ∙ sym (run_from-empty g x y q c s r)
        | inr (inr (r, t)) ↦
            run_from-Full f x y q c s n refl r t
            ∙ run_from-enough f g (drop n q) (c + 2 + n) (dispatch little (byte q 0) q n s)
                (omega arith) (omega arith)
            ∙ sym (run_from-Full g x y q c s n refl r t)
      ]

  -- The offset is only carried along.
  pub run_from-shift :
      (f : ℕ) (p : Bytes) (c k : ℕ) (s : Session)
      → run_from little f p (c + k) s
        ≡ (c + (run_from little f p k s).0, (run_from little f p k s).1)
  unfolding run_from
  run_from-shift zero p c k s = refl
  run_from-shift (suc f) [] c k s = refl
  run_from-shift (suc f) (x ∷ []) c k s = refl
  run_from-shift (suc f) (x ∷ y ∷ q) c k s =
      let n = load_be16 little (x ∷ y ∷ q) in
      let a : c + k + 2 ≡ c + (k + 2) = omega arith in
      let b : c + k + 2 + n ≡ c + (k + 2 + n) = omega arith in
      elim (round-cases n (length q)) [
        | inl r ↦
            rw (run_from-Short f x y q (c + k) s n refl r, run_from-Short f x y q k s n refl r, a)
              refl
        | inr (inl r) ↦
            rw (run_from-empty f x y q (c + k) s r, run_from-empty f x y q k s r, a)
              (run_from-shift f q c (k + 2) (record s { stats = on_parse_error s.stats }))
        | inr (inr (r, t)) ↦
            rw (run_from-Full f x y q (c + k) s n refl r t, run_from-Full f x y q k s n refl r t, b)
              (run_from-shift f (drop n q) c (k + 2 + n) (dispatch little (byte q 0) q n s))
      ]

  run_from-le :
      (f : ℕ) (p : Bytes) (c : ℕ) (s : Session) → (run_from little f p c s).0 ≤ c + length p
  unfolding run_from
  run_from-le zero p c s = omega arith
  run_from-le (suc f) [] c s = omega arith
  run_from-le (suc f) (x ∷ []) c s = omega arith
  run_from-le (suc f) (x ∷ y ∷ q) c s =
      let n = load_be16 little (x ∷ y ∷ q) in
      elim (round-cases n (length q)) [
        | inl r ↦ rw (run_from-Short f x y q c s n refl r) (omega arith)
        | inr (inl r) ↦
            rw (run_from-empty f x y q c s r)
              (omega (arith, run_from-le f q (c + 2) (record s { stats = on_parse_error s.stats })))
        | inr (inr (r, t)) ↦ rw (run_from-Full f x y q c s n refl r t) (
            omega (
              arith,
              length-drop n q t,
              run_from-le f (drop n q) (c + 2 + n) (dispatch little (byte q 0) q n s),
            ))
      ]

  -- The walk never reports more bytes than the buffer holds.
  pub run-le : (buf : Bytes) (s : Session) → (run little buf s).0 ≤ length buf
  unfolding run
  run-le buf s = omega (arith, run_from-le (length buf) buf 0 s)

  -- A last frame that is cut short, with fewer bytes than its length says, is counted as one
  -- parse error, its two length bytes as consumed, and nothing is delivered.
  pub run-cut :
      (n : ℕ) (p : Bytes) (s : Session)
      → n < 2 ^ 16
      → length p < n
      → run little (to_be 2 n ++ p) s ≡ (2, record s { stats = on_parse_error s.stats })
  unfolding run run_from to_be
  run-cut n p s hn short =
      run_from-Short (suc (length p)) (n / 256 % 256) (n / 1 % 256) p 0 s n
        (load_be16-to_be little n p hn) short
