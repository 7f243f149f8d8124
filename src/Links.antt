-- ===== src/Links.antt =====
-- Doubly linked lists over slot numbers, for the intrusive lists of include/PriceLevel.hpp and
-- include/OrderBook.hpp. The links are functions from a slot to a pointer.
use itchparser.Prelude.{
  ℕ, ◌≡◌, refl, Bool, true, false, none, some, List, [], ◌∷◌, ◌++◌, arith, ◌==◌, if◌then◌else◌, has,
  Distinct,
}
use itchparser.Types.{Ptr}

-- From `h` the `nx` links lead through `xs` to `e`, the `pv` links lead back to `b`, and `l` points
-- at the last node, or is `b` if there is none.
abbrev pub Seg : (pv nx : ℕ → Ptr) (b h l e : Ptr) → List ℕ → Type 0
Seg pv nx b h l e [] = (h ≡ e) × (l ≡ b)
Seg pv nx b h l e (x ∷ xs) = (h ≡ some x) × (pv x ≡ b) × Seg pv nx (some x) (nx x) l e xs

abbrev pub points_at : Ptr → ℕ → Bool
points_at none a = false
points_at (some t) a = a == t

-- The pointer that a list is entered by, after a write of `q` through `p` or else through it.
abbrev pub redirect : (p q h : Ptr) → Ptr
redirect none q h = q
redirect (some _) q h = h

module _ (pv nx : ℕ → Ptr) where
  pub Seg-last :
      (b h l e : Ptr) (x : ℕ) (xs : List ℕ)
      → Seg pv nx b h l e (x ∷ xs)
      → (t : ℕ) × (l ≡ some t) × (has t (x ∷ xs) ≡ true)
  Seg-last b h l e x [] s = (x, s.2.1, ground arith)
  Seg-last b h l e x (y ∷ ys) s =
      let (t, p, m) = Seg-last (some x) (nx x) l e y ys s.2 in (t, p, ground arith)

  pub Seg-append :
      (b h k m l e : Ptr) (xs ys : List ℕ)
      → Seg pv nx b h k m xs
      → Seg pv nx k m l e ys
      → Seg pv nx b h l e (xs ++ ys)
  Seg-append b h k m l e [] ys s t = rw (s.0, ← s.1) t
  Seg-append b h k m l e (x ∷ xs) ys s t =
      (s.0, s.1, Seg-append (some x) (nx x) k m l e xs ys s.2 t)

  pub Seg-split :
      (b h l e : Ptr) (xs : List ℕ) (o : ℕ) (ys : List ℕ)
      → Seg pv nx b h l e (xs ++ o ∷ ys)
      → Seg pv nx b h (pv o) (some o) xs × Seg pv nx (some o) (nx o) l e ys
  Seg-split b h l e [] o ys s = ((s.0, s.1), s.2)
  Seg-split b h l e (x ∷ xs) o ys s =
      let (front, back) = Seg-split (some x) (nx x) l e xs o ys s.2 in ((s.0, s.1, front), back)

  -- What a list does not pass through may change.
  pub Seg-frame :
      (pv' nx' : ℕ → Ptr) (b h l e : Ptr) (xs : List ℕ)
      → ((a : ℕ) → has a xs ≡ true → (pv' a ≡ pv a) × (nx' a ≡ nx a))
      → Seg pv nx b h l e xs
      → Seg pv' nx' b h l e xs
  Seg-frame pv' nx' b h l e [] same s = s
  Seg-frame pv' nx' b h l e (x ∷ xs) same s =
      let kept = same x (ground arith) in
      (
        s.0,
        rw kept.0 s.1,
        rw kept.1 (Seg-frame pv' nx' (some x) (nx x) l e xs (λ a i. same a (ground arith)) s.2),
      )

  Seg-retarget_cons :
      (pv' nx' : ℕ → Ptr) (b h l e e' : Ptr) (x : ℕ) (xs : List ℕ)
      → Distinct (x ∷ xs)
      → ((a : ℕ) → has a (x ∷ xs) ≡ true → pv' a ≡ pv a)
      → ((a : ℕ) → has a (x ∷ xs) ≡ true → nx' a ≡ (if points_at l a then e' else nx a))
      → Seg pv nx b h l e (x ∷ xs)
      → Seg pv' nx' b h l e' (x ∷ xs)
  Seg-retarget_cons pv' nx' b h l e e' x [] d ps ns s =
      (s.0, rw (ps x (ground arith)) s.1, (ground (arith, ns x (ground arith)), s.2.1))
  Seg-retarget_cons pv' nx' b h l e e' x (y ∷ ys) d ps ns s =
      let (t, p, m) = Seg-last (some x) (nx x) l e y ys s.2 in
      let kept : nx' x ≡ nx x = ground (arith, ns x (ground arith)) in
      (
        s.0,
        rw (ps x (ground arith)) s.1,
        rw kept (
            Seg-retarget_cons pv' nx' (some x) (nx x) l e e' y ys d.1 (λ a i. ps a (ground arith))
              (λ a i. ns a (ground arith)) s.2),
      )

  -- A write of `e'` behind the last node, or to the head of an empty list.
  pub Seg-retarget :
      (pv' nx' : ℕ → Ptr) (h l e e' : Ptr) (xs : List ℕ)
      → Distinct xs
      → ((a : ℕ) → has a xs ≡ true → pv' a ≡ pv a)
      → ((a : ℕ) → has a xs ≡ true → nx' a ≡ (if points_at l a then e' else nx a))
      → Seg pv nx none h l e xs
      → Seg pv' nx' none (redirect l e' h) l e' xs
  Seg-retarget pv' nx' h l e e' [] d ps ns s = rw s.1 (refl, refl)
  Seg-retarget pv' nx' h l e e' (x ∷ xs) d ps ns s =
      let (t, p, m) = Seg-last none h l e x xs s in
      let moved = Seg-retarget_cons pv' nx' none h l e e' x xs d ps ns s in
      rw (let kept : redirect l e' h ≡ h = rw p in kept) moved

  -- A write of `b'` before the first node, or to the last pointer of an empty list.
  pub Seg-rebase :
      (pv' nx' : ℕ → Ptr) (b b' h l : Ptr) (xs : List ℕ)
      → Distinct xs
      → ((a : ℕ) → has a xs ≡ true → nx' a ≡ nx a)
      → ((a : ℕ) → has a xs ≡ true → pv' a ≡ (if points_at h a then b' else pv a))
      → Seg pv nx b h l none xs
      → Seg pv' nx' b' h (redirect h b' l) none xs
  Seg-rebase pv' nx' b b' h l [] d ns ps s = rw s.0 (refl, refl)
  Seg-rebase pv' nx' b b' h l (x ∷ xs) d ns ps s =
      let kept : redirect h b' l ≡ l = rw s.0 in
      rw kept (
        s.0,
        ground (arith, ps x (ground arith)),
        rw (ns x (ground arith)) (
            Seg-frame pv' nx' (some x) (nx x) l none xs
              (λ a i. (ground (arith, ps a (ground arith)), ns a (ground arith))) s.2),
      )

  -- A pointer at the last node points into the list.
  pub Seg-points_last :
      (h l e : Ptr) (o : ℕ) (xs : List ℕ)
      → Seg pv nx none h l e xs
      → has o xs ≡ false
      → points_at l o ≡ false
  Seg-points_last h l e o [] s out = rw s.1
  Seg-points_last h l e o (x ∷ xs) s out =
      let (t, p, m) = Seg-last none h l e x xs s in ground arith

  pub Seg-points_first :
      (b h l : Ptr) (o : ℕ) (xs : List ℕ)
      → Seg pv nx b h l none xs
      → has o xs ≡ false
      → points_at h o ≡ false
  Seg-points_first b h l o [] s out = rw s.0
  Seg-points_first b h l o (x ∷ xs) s out = rw s.0 (ground arith)
