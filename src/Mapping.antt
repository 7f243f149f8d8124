-- ===== src/Mapping.antt =====
-- The class `MMapFile` of src/MMapFile.cpp and include/MMapFile.hpp. What the system answers to a
-- call is an argument; the calls that take or give back a descriptor or a mapping are listed in their
-- order. `advise_sequential` and `prefault`, which change nothing, are left out.
pub mod Owners
use itchparser.Prelude.{
  ℕ, zero, suc, Bool, true, false, ◌&&◌, ◌==◌, Option, none, some, List, [], ◌∷◌, ◌++◌, ◌⊎◌, inl,
  inr, if◌then◌else◌,
}
use itchparser.Types.{Ptr}

-- `fd_` is `none` for -1.
pub record MMapFile : Type 0 where
  pub data_ : Ptr
  pub size_ : ℕ
  pub fd_ : Option ℕ

unfoldable pub make_file : MMapFile
make_file = record { data_ = none; size_ = 0; fd_ = none }

pub data ErrorCode : Type 0 where
  os_error : (errno : ℕ) → ErrorCode
  invalid_argument : ErrorCode

-- What the calls of `open_into` answer; the left is an `errno`. A size is not negative.
pub record Answers : Type 0 where
  pub open_answer : ℕ ⊎ ℕ
  pub fstat_error : Option ℕ
  pub is_regular : Bool
  pub st_size : ℕ
  pub mmap_answer : ℕ ⊎ ℕ

-- The calls that the system has answered.
pub data Event : Type 0 where
  opened closed : (fd : ℕ) → Event
  mapped unmapped : (p size : ℕ) → Event

-- The calls behind `open`, for the descriptor that it gave.
unfoldable pub map_file : Answers → (fd : ℕ) → MMapFile → Option ErrorCode × MMapFile × List Event
map_file a fd m = elim a.fstat_error [
  | some e ↦ (some (os_error e), record m { fd_ = none }, closed fd ∷ [])
  | none ↦ elim a.is_regular [
    | false ↦ (some invalid_argument, record m { fd_ = none }, closed fd ∷ [])
    | true ↦ elim (a.st_size == 0) [
      | true ↦ (some invalid_argument, record m { fd_ = none }, closed fd ∷ [])
      | false ↦ elim a.mmap_answer [
        | inl e ↦ (some (os_error e), record m { size_ = a.st_size; fd_ = none }, closed fd ∷ [])
        | inr p ↦ (
          none,
          record m { data_ = some p; size_ = a.st_size; fd_ = some fd },
          mapped p a.st_size ∷ [],
        )
      ]
    ]
  ]
]

unfoldable pub open_into : Answers → MMapFile → Option ErrorCode × MMapFile × List Event
unfolding map_file
open_into a m = elim a.open_answer [
  | inl e ↦ (some (os_error e), record m { fd_ = none }, [])
  | inr fd ↦ let (ec, m', events) = map_file a fd m in (ec, m', opened fd ∷ events)
]

unfoldable pub unmap : MMapFile → List Event
unmap m = elim m.data_ [ none ↦ [] | some p ↦ unmapped p m.size_ ∷ [] ]

unfoldable pub close_fd : MMapFile → List Event
close_fd m = elim m.fd_ [ none ↦ [] | some fd ↦ closed fd ∷ [] ]

-- `release`, which the destructor calls.
unfoldable pub release : MMapFile → MMapFile × List Event
unfolding unmap close_fd make_file
release m = (make_file, unmap m ++ close_fd m)

-- The move constructor: the new object, and `other`.
unfoldable pub move_from : MMapFile → MMapFile × MMapFile
unfolding make_file
move_from other = (other, make_file)

-- The move assignment to another object: `*this`, `other`.
unfoldable pub assign_from : MMapFile → MMapFile → MMapFile × MMapFile × List Event
unfolding release make_file
assign_from this other = (other, make_file, (release this).1)

-- `open`: on success the local object is moved into the result; it is destroyed either way.
unfoldable pub open_file : Answers → (ErrorCode ⊎ MMapFile) × List Event
unfolding open_into release move_from make_file
open_file a =
    let (ec, m, events) = open_into a make_file in
    elim ec [
      | some e ↦ (inl e, events ++ (release m).1)
      | none ↦ let (result, rest) = move_from m in (inr result, events ++ (release rest).1)
    ]
