-- ===== src/Logger/Text.antt =====
-- What the file gets for an entry that `log` filled in.
use itchparser.Prelude.{
  take-append, take-all, ℕ, zero, suc, ◌+◌, ◌-◌, ◌≤◌, ◌<◌, ◌≡◌, refl, ◌≢◌, false, List, [], ◌∷◌,
  ◌++◌, arith, ap, ◌∙◌, inl, inr, Bool-cases, length, length-append, take, drop, lt_of_ltb,
  le_of_ltb, ltb, if◌then◌else◌,
}
use itchparser.Endian.{Bytes}
use itchparser.Logger.{
  LogEntry, LogLevel, trace, debug, info, warn, error, fatal, entry_size, zeros, copy_tag, copy_msg,
  level_to_str, decimal, text, line, kept, append_entry, Call, fill_entry,
}

-- No byte is null.
abbrev pub HasNoNull : Bytes → Type 0
HasNoNull [] = Unit {0}
HasNoNull (c ∷ s) = (c ≢ 0) × HasNoNull s

-- The line that a call asks for: at most 6 bytes of the tag and 239 of the message.
unfoldable pub wanted : ℕ → Call → Bytes
unfolding decimal level_to_str
wanted now c =
    decimal 20 now
    ++ (b' '
        ∷ (level_to_str c.level
            ++ (b' ' ∷ b'[' ∷ (take 6 c.tag ++ (b']' ∷ b' ' ∷ (take 239 c.msg ++ (b'\n' ∷ [])))))))

text-zeros : (n k : ℕ) → text n (zeros k) ≡ []
unfolding text
text-zeros zero k = refl
text-zeros (suc n) zero = refl
text-zeros (suc n) (suc k) = refl

text-take : (n : ℕ) (s r : Bytes) → HasNoNull s → text n (take n s ++ (0 ∷ r)) ≡ take n s
unfolding text
text-take zero s r h = refl
text-take (suc n) [] r h = refl
text-take (suc n) (c ∷ s) r h = ground (arith, text-take n s r h.1)

text-all : (n : ℕ) (s : Bytes) → HasNoNull s → length s ≤ n → (k : ℕ) → text n (s ++ zeros k) ≡ s
unfolding text
text-all n [] h l k = text-zeros n k
text-all zero (c ∷ s) h l k = absurd (omega arith)
text-all (suc n) (c ∷ s) h l k = ground (arith, text-all n s h.1 (omega arith) k)

text-more : (n : ℕ) (s r : Bytes) → HasNoNull s → length s < n → text n (s ++ (0 ∷ r)) ≡ s
unfolding text
text-more zero s r h l = absurd (omega arith)
text-more (suc n) [] r h l = refl
text-more (suc n) (c ∷ s) r h l = ground (arith, text-more n s r h.1 (omega arith))

HasNoNull-take : (n : ℕ) (s : Bytes) → HasNoNull s → HasNoNull (take n s)
HasNoNull-take zero s h = tt
HasNoNull-take (suc n) [] h = tt
HasNoNull-take (suc n) (c ∷ s) h = (h.0, HasNoNull-take n s h.1)

length-take : (n : ℕ) (s : Bytes) → (length (take n s) ≤ n) × (length (take n s) ≤ length s)
length-take zero s = (omega arith, omega arith)
length-take (suc n) [] = (omega arith, omega arith)
length-take (suc n) (c ∷ s) = let (a, b) = length-take n s in (omega arith, omega arith)

-- The tag and the message read back from their arrays.
text-copy_tag : (src : Bytes) → HasNoNull src → text 6 (copy_tag src) ≡ take 6 src
unfolding copy_tag
text-copy_tag src h = elim (Bool-cases (ltb (length src) 6)) [
  | inl e ↦
      let all : take (length src) src ≡ src = take-all (length src) src (omega arith) in
      let six : take 6 src ≡ src = take-all 6 src (ground (arith, e)) in
      rw (e, all, six) (text-all 6 src h (ground (arith, e)) (7 - length src))
  | inr e ↦ rw e (text-take 6 src [] h)
]

text-copy_msg : (dst src : Bytes) → HasNoNull src → text 240 (copy_msg dst src) ≡ take 239 src
unfolding copy_msg
text-copy_msg dst src h = elim (Bool-cases (ltb (length src) 239)) [
  | inl e ↦
      let all : take (length src) src ≡ src = take-all (length src) src (omega arith) in
      let cap : take 239 src ≡ src =
        take-all 239 src (omega (arith, lt_of_ltb (length src) 239 e)) in
      rw (e, all, cap)
        (text-more 240 src (drop (length src + 1) dst) h
          (omega (arith, lt_of_ltb (length src) 239 e)))
  | inr e ↦ rw e (
      text-more 240 (take 239 src) (drop (239 + 1) dst) (HasNoNull-take 239 src h)
        (omega (arith, length-take 239 src)))
]

-- An entry that `log` filled in makes the line that the call asks for.
line-fill_entry :
    (now : ℕ) (c : Call) (e : LogEntry)
    → HasNoNull c.tag
    → HasNoNull c.msg
    → line (fill_entry now c e) ≡ wanted now c
unfolding line fill_entry wanted
line-fill_entry now c e t m = λ i.
    decimal 20 now
    ++ (b' '
        ∷ (level_to_str c.level
            ++ (b' '
                ∷ b'['
                ∷ (text-copy_tag c.tag t i
                    ++ (b']' ∷ b' ' ∷ (text-copy_msg e.message c.msg m i ++ (b'\n' ∷ [])))))))

length-decimal : (n v : ℕ) → length (decimal n v) ≡ n
unfolding decimal
length-decimal zero v = refl
length-decimal (suc n) v = omega (arith, length-decimal n v)

length-level_to_str : (l : LogLevel) → length (level_to_str l) ≡ 5
unfolding level_to_str
length-level_to_str trace = refl
length-level_to_str debug = refl
length-level_to_str info = refl
length-level_to_str warn = refl
length-level_to_str error = refl
length-level_to_str fatal = refl

length-wanted :
    (now : ℕ) (c : Call)
    → length (wanted now c) ≡ 31 + length (take 6 c.tag) + length (take 239 c.msg)
unfolding wanted
length-wanted now c =
    let m = take 239 c.msg ++ (b'\n' ∷ []) in
    let g = take 6 c.tag ++ (b']' ∷ b' ' ∷ m) in
    let v = level_to_str c.level ++ (b' ' ∷ b'[' ∷ g) in
    omega (
      arith,
      length-decimal 20 now,
      length-level_to_str c.level,
      length-append (decimal 20 now) (b' ' ∷ v),
      length-append (level_to_str c.level) (b' ' ∷ b'[' ∷ g),
      length-append (take 6 c.tag) (b']' ∷ b' ' ∷ m),
      length-append (take 239 c.msg) (b'\n' ∷ []),
    )

length-take_of_le {ℓ} : {A : Type ℓ} (n : ℕ) (s : List A) → n ≤ length s → length (take n s) ≡ n
length-take_of_le zero s h = refl
length-take_of_le (suc n) [] h = absurd (omega arith)
length-take_of_le (suc n) (x ∷ s) h = omega (arith, length-take_of_le n s (omega arith))

kept-all : (s : Bytes) → length s < 256 → kept s ≡ s
unfolding kept
kept-all s h =
    let t : ltb entry_size (length s) ≡ false = ground arith in
    let whole : take 255 s ≡ s = take-all 255 s (omega arith) in
    rw (kept, t, whole)
      (take-append (length s) s (0 ∷ []) (omega arith) ∙ take-all (length s) s (omega arith))

-- A longer line is cut to 255 bytes, with a null behind them.
kept-cut : (s : Bytes) → 256 ≤ length s → kept s ≡ take 255 s ++ (0 ∷ [])
unfolding kept
kept-cut s h =
    let w = take 255 s ++ (0 ∷ []) in
    let l : length w ≡ 256 =
      omega (arith, length-append (take 255 s) (0 ∷ []), length-take_of_le 255 s (omega arith)) in
    elim (Bool-cases (ltb entry_size (length s))) [
      | inl e ↦ rw (kept, e) (take-all 256 w (omega arith))
      | inr e ↦ rw (kept, e) (take-all (length s) w (omega arith))
    ]

-- For an entry that a call filled in, with no null in its tag and message, the file gets the line
-- that the call asks for if at most 6 bytes of the tag and at most 239 of the message make fewer
-- than 225 bytes together; otherwise it gets the first 255 bytes of the line and then a null byte.
pub append_entry-fill_entry :
    (now : ℕ) (c : Call) (e : LogEntry)
    → HasNoNull c.tag
    → HasNoNull c.msg
    → append_entry (fill_entry now c e) ≡ (
        if ltb (length (take 6 c.tag) + length (take 239 c.msg)) 225
        then wanted now c
        else take 255 (wanted now c) ++ (0 ∷ []))
unfolding append_entry
append_entry-fill_entry now c e t m =
    let w = wanted now c in
    let size = length (take 6 c.tag) + length (take 239 c.msg) in
    let is : append_entry (fill_entry now c e) ≡ kept w = ap kept (line-fill_entry now c e t m) in
    elim (Bool-cases (ltb size 225)) [
      | inl h ↦ rw h (is ∙ kept-all w (omega (arith, length-wanted now c, lt_of_ltb size 225 h)))
      | inr h ↦ rw h (is ∙ kept-cut w (omega (arith, length-wanted now c, le_of_ltb size 225 h)))
    ]
