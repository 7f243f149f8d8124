-- ===== src/Logger.antt =====
-- The records of include/Logger.hpp: levels, entries, and the text that `drain_loop` makes of an
-- entry. The class `LockFreeLogger` is in System.
pub mod Text
pub mod System
pub mod Slots
pub mod Invariant
pub mod Frames
pub mod Producing
pub mod Starting
pub mod Batches
pub mod Draining
pub mod Safety
pub mod Stopping
use itchparser.Prelude.{
  ℕ, zero, suc, ◌+◌, ◌-◌, ◌/◌, ◌%◌, ◌^◌, true, false, List, [], ◌∷◌, ◌++◌, length, take, drop, ltb,
  ◌==◌, if◌then◌else◌,
}
use itchparser.Endian.{Bytes}

pub data LogLevel : Type 0 where
  trace debug info warn error fatal : LogLevel

-- `std::to_underlying`
unfoldable pub underlying : LogLevel → ℕ
underlying trace = 0
underlying debug = 1
underlying info = 2
underlying warn = 3
underlying error = 4
underlying fatal = 5

-- `tag` has 7 bytes and `message` 240.
pub record LogEntry : Type 0 where
  pub timestamp_ns : ℕ
  pub level : LogLevel
  pub tag : Bytes
  pub message : Bytes

abbrev pub entry_size : ℕ
entry_size = 256

abbrev pub zeros : ℕ → Bytes
zeros zero = []
zeros (suc n) = 0 ∷ zeros n

-- The literal `src` is its bytes without the final null, so `N - 1` is its length.
unfoldable pub copy_tag : Bytes → Bytes
copy_tag src =
    let k_copy = if ltb (length src) 6 then length src else 6 in
    take k_copy src ++ zeros (7 - k_copy)

-- The bytes of `dst` behind the null stay as they were.
unfoldable pub copy_msg : Bytes → Bytes → Bytes
copy_msg dst src =
    let n = if ltb (length src) 239 then length src else 239 in take n src ++ (0 ∷ drop (n + 1) dst)

unfoldable pub level_to_str : LogLevel → Bytes
level_to_str trace = b'T' ∷ b'R' ∷ b'A' ∷ b'C' ∷ b'E' ∷ []
level_to_str debug = b'D' ∷ b'E' ∷ b'B' ∷ b'U' ∷ b'G' ∷ []
level_to_str info = b'I' ∷ b'N' ∷ b'F' ∷ b'O' ∷ b' ' ∷ []
level_to_str warn = b'W' ∷ b'A' ∷ b'R' ∷ b'N' ∷ b' ' ∷ []
level_to_str error = b'E' ∷ b'R' ∷ b'R' ∷ b'O' ∷ b'R' ∷ []
level_to_str fatal = b'F' ∷ b'A' ∷ b'T' ∷ b'A' ∷ b'L' ∷ []

-- `%0nu` of a number below `10 ^ n`
unfoldable pub decimal : ℕ → ℕ → Bytes
decimal zero v = []
decimal (suc n) v = (b'0' + v / 10 ^ n % 10) ∷ decimal n v

-- `%.*s`: at most `n` bytes, up to a null
unfoldable pub text : ℕ → Bytes → Bytes
text zero s = []
text (suc n) [] = []
text (suc n) (c ∷ s) = elim (c == 0) [ true ↦ [] | false ↦ c ∷ text n s ]

-- The line that the format of `drain_loop` makes.
unfoldable pub line : LogEntry → Bytes
unfolding decimal level_to_str text
line e =
    decimal 20 e.timestamp_ns
    ++ (b' '
        ∷ (level_to_str e.level
            ++ (b' '
                ∷ b'['
                ∷ (text 6 e.tag ++ (b']' ∷ b' ' ∷ (text 240 e.message ++ (b'\n' ∷ [])))))))

-- `snprintf` into `size` bytes: what it writes, with its null, and what it returns.
unfoldable pub snprintf : ℕ → Bytes → Bytes × ℕ
snprintf size s = (take (size - 1) s ++ (0 ∷ []), length s)

-- What is kept of a line in `scratch`: `n` bytes, clamped to the size of an entry.
unfoldable pub kept : Bytes → Bytes
unfolding snprintf
kept s =
    let (written, n) = snprintf entry_size s in
    take (if ltb entry_size n then entry_size else n) written

-- What a round of the inner loop of `drain_loop` leaves in `scratch` before `out`.
unfoldable pub append_entry : LogEntry → Bytes
unfolding kept line
append_entry e = kept (line e)

-- The arguments of `log`, for which `info`, `warn`, `error` and `debug` set the level.
pub record Call : Type 0 where
  pub level : LogLevel
  pub tag : Bytes
  pub msg : Bytes

-- The assignments of `log` to a slot, at the time `now`.
unfoldable pub fill_entry : ℕ → Call → LogEntry → LogEntry
unfolding copy_tag copy_msg
fill_entry now c e = record {
  timestamp_ns = now;
  level = c.level;
  tag = copy_tag c.tag;
  message = copy_msg e.message c.msg;
}
