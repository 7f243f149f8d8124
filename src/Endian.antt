-- ===== src/Endian.antt =====
-- include/Endian.hpp. `little` is `kIsLittleEndian`, the byte order of the host; `memcpy` into an
-- integer then reads the bytes in that order. A pointer into the buffer is the list of bytes from
-- there on.
mod Bits
pub mod RoundTrip
use itchparser.Prelude.{ℕ, ◌+◌, ◌*◌, ◌/◌, ◌%◌, ◌^◌, bit_or, Bool, List, if◌then◌else◌, get_or}

abbrev pub Bytes : Type 0
Bytes = List ℕ

abbrev pub byte : Bytes → ℕ → ℕ
byte p i = get_or p i 0

-- `std::byteswap`: the bytes of the value, the lowest first, put together the highest first.
unfoldable pub bswap16 : ℕ → ℕ
bswap16 v = v % 256 * 256 + v / 256 % 256

unfoldable pub bswap32 : ℕ → ℕ
unfolding bswap16
bswap32 v = bswap16 (v % 2 ^ 16) * 2 ^ 16 + bswap16 (v / 2 ^ 16 % 2 ^ 16)

unfoldable pub bswap64 : ℕ → ℕ
unfolding bswap32
bswap64 v = bswap32 (v % 2 ^ 32) * 2 ^ 32 + bswap32 (v / 2 ^ 32 % 2 ^ 32)

-- Two, four and eight bytes as the host stores them.
unfoldable pub copy16 : Bool → Bytes → ℕ → ℕ
copy16 little p i =
    if little then byte p i + 256 * byte p (i + 1) else byte p i * 256 + byte p (i + 1)

unfoldable pub copy32 : Bool → Bytes → ℕ → ℕ
unfolding copy16
copy32 little p i =
    if little
    then copy16 little p i + 2 ^ 16 * copy16 little p (i + 2)
    else copy16 little p i * 2 ^ 16 + copy16 little p (i + 2)

unfoldable pub copy64 : Bool → Bytes → ℕ → ℕ
unfolding copy32
copy64 little p i =
    if little
    then copy32 little p i + 2 ^ 32 * copy32 little p (i + 4)
    else copy32 little p i * 2 ^ 32 + copy32 little p (i + 4)

unfoldable pub load_be16 : Bool → Bytes → ℕ
unfolding copy16 bswap16
load_be16 little p = let v = copy16 little p 0 in if little then bswap16 v else v

unfoldable pub load_be32 : Bool → Bytes → ℕ
unfolding copy32 bswap32
load_be32 little p = let v = copy32 little p 0 in if little then bswap32 v else v

unfoldable pub load_be64 : Bool → Bytes → ℕ
unfolding copy64 bswap64
load_be64 little p = let v = copy64 little p 0 in if little then bswap64 v else v

-- Six bytes, each shifted to its place and ored in; no byte order is involved.
unfoldable pub load_be48 : Bytes → ℕ
load_be48 p =
    let v₁ = bit_or 0 (byte p 0 * 2 ^ 40) in
    let v₂ = bit_or v₁ (byte p 1 * 2 ^ 32) in
    let v₃ = bit_or v₂ (byte p 2 * 2 ^ 24) in
    let v₄ = bit_or v₃ (byte p 3 * 2 ^ 16) in
    let v₅ = bit_or v₄ (byte p 4 * 2 ^ 8) in bit_or v₅ (byte p 5)
