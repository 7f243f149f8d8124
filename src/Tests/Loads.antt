-- ===== src/Tests/Loads.antt =====
-- The loads at concrete words.
use itchparser.Prelude.{◌≡◌, true, [], ◌∷◌, ◌++◌}
use itchparser.Endian.{load_be16, load_be32, load_be64, load_be48}
use itchparser.Endian.RoundTrip.{to_be, loads-to_be}

loads-to_be_example :
    (load_be16 true (to_be 2 0x5678 ++ (7 ∷ [])) ≡ 0x5678)
    × (load_be32 true (to_be 4 0x12345678 ++ (7 ∷ [])) ≡ 0x12345678)
    × (load_be48 (to_be 6 0x9abc12345678 ++ (7 ∷ [])) ≡ 0x9abc12345678)
    × (load_be64 true (to_be 8 0xdef09abc12345678 ++ (7 ∷ [])) ≡ 0xdef09abc12345678)
loads-to_be_example = loads-to_be true 0xdef09abc12345678 (7 ∷ [])
