-- ===== src/Mapping/Owners.antt =====
-- Who owns the descriptors and mappings of src/MMapFile.cpp.
use itchparser.Prelude.{
  ℕ, Bool, true, false, ◌&&◌, ◌==◌, Option, none, some, List, [], ◌∷◌, ◌++◌, ◌⊎◌, inl, inr, ◌≡◌,
  refl, arith, Option-cases,
}
use itchparser.Mapping.{
  MMapFile, make_file, ErrorCode, Answers, Event, opened, closed, mapped, unmapped, map_file,
  open_into, unmap, close_fd, release, move_from, assign_from, open_file,
}

pub data Resource : Type 0 where
  descriptor : (fd : ℕ) → Resource
  mapping : (p size : ℕ) → Resource

abbrev pub equal : Resource → Resource → Bool
equal (descriptor a) (descriptor b) = a == b
equal (mapping p s) (mapping q t) = (p == q) && (s == t)
equal _ _ = false

-- The rest, if the resource is there.
abbrev pub give_back : Resource → List Resource → Option (List Resource)
give_back x [] = none
give_back x (y ∷ r) = elim (equal x y) [
  | true ↦ some r
  | false ↦ elim (give_back x r) [ none ↦ none | some r' ↦ some (y ∷ r') ]
]

-- What the process holds after the calls; `none` if it gave back what it did not hold.
abbrev pub after : List Event → List Resource → Option (List Resource)
after [] r = some r
after (opened fd ∷ es) r = after es (descriptor fd ∷ r)
after (mapped p s ∷ es) r = after es (mapping p s ∷ r)
after (closed fd ∷ es) r = elim (give_back (descriptor fd) r) [
  | none ↦ none
  | some r' ↦ after es r'
]
after (unmapped p s ∷ es) r = elim (give_back (mapping p s) r) [
  | none ↦ none
  | some r' ↦ after es r'
]

pub after-append :
    (xs ys : List Event) (r q : List Resource)
    → after xs r ≡ some q
    → after (xs ++ ys) r ≡ after ys q
after-append [] ys r q h = let same : r ≡ q = cc in rw same refl
after-append (opened fd ∷ xs) ys r q h = after-append xs ys (descriptor fd ∷ r) q h
after-append (mapped p s ∷ xs) ys r q h = after-append xs ys (mapping p s ∷ r) q h
after-append (closed fd ∷ xs) ys r q h = elim (Option-cases (give_back (descriptor fd) r)) [
  | inl e ↦ let h' : none ≡ some q = rw (after, e) at h in absurd (ground arith)
  | inr (r', e) ↦
      let h' : after xs r' ≡ some q = rw (after, e) at h in
      rw (after, e) (after-append xs ys r' q h')
]
after-append (unmapped p s ∷ xs) ys r q h = elim (Option-cases (give_back (mapping p s) r)) [
  | inl e ↦ let h' : none ≡ some q = rw (after, e) at h in absurd (ground arith)
  | inr (r', e) ↦
      let h' : after xs r' ≡ some q = rw (after, e) at h in
      rw (after, e) (after-append xs ys r' q h')
]

abbrev pub owned : MMapFile → List Resource
owned m =
    (elim m.data_ [ none ↦ [] | some p ↦ mapping p m.size_ ∷ [] ])
    ++ (elim m.fd_ [ none ↦ [] | some fd ↦ descriptor fd ∷ [] ])

abbrev pub owned_by : ErrorCode ⊎ MMapFile → List Resource
owned_by (inl e) = []
owned_by (inr m) = owned m

-- Whatever the system answers, `open` has given back the descriptor that it took if it ends in an
-- error, and if it succeeds its result owns the descriptor and the mapping that it took, and
-- nothing else is held.
pub open_file_lem :
    (a : Answers) (r : List Resource)
    → after (open_file a).1 r ≡ some (owned_by (open_file a).0 ++ r)
unfolding open_file open_into map_file release move_from make_file unmap close_fd
open_file_lem a r = ground arith

-- `release` gives back what the object owns, once, and leaves it empty; a second call gives back
-- nothing. A move assignment gives back what the target owned and nothing else, makes the target
-- what the source was, and leaves the source empty.
pub release_lem :
    (m other : MMapFile) (r : List Resource)
    → (after (release m).1 (owned m ++ r) ≡ some r)
      × ((release m).0 ≡ make_file)
      × ((release (release m).0).1 ≡ [])
      × (after (assign_from m other).2 (owned m ++ (owned other ++ r)) ≡ some (owned other ++ r))
      × ((assign_from m other).0 ≡ other)
      × ((assign_from m other).1 ≡ make_file)
unfolding release unmap close_fd make_file assign_from
release_lem m other r = (ground arith, refl, refl, ground arith, refl, refl)
