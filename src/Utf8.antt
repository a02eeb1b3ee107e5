-- ===== src/Utf8.antt =====
-- `std::str::from_utf8`: a text is a list of bytes that is well-formed UTF-8.
use pcap_file.Common.{
  ℕ, zero, suc, List, [], ◌∷◌, Bool, true, false, ◌&&◌, ltb, leb, ◌==◌, if◌then◌else◌, Result, ok,
  err, utf8_error,
}

-- How many continuation bytes a leading byte wants, and the range of the first of them. The range is
-- empty for a byte that begins no character.
abbrev pub lead : ℕ → ℕ × ℕ × ℕ
lead b =
    if ltb b 0x80
    then (0, 0x80, 0xBF)
    else if ltb b 0xC2
    then (1, 1, 0)
    else if ltb b 0xE0
    then (1, 0x80, 0xBF)
    else if b == 0xE0
    then (2, 0xA0, 0xBF)
    else if b == 0xED
    then (2, 0x80, 0x9F)
    else if ltb b 0xF0
    then (2, 0x80, 0xBF)
    else if b == 0xF0
    then (3, 0x90, 0xBF)
    else if ltb b 0xF4
    then (3, 0x80, 0xBF)
    else if b == 0xF4
    then (3, 0x80, 0x8F)
    else (1, 1, 0)

-- The bytes from where `k` continuation bytes are still wanted, the next between `lo` and `hi`.
unfoldable pub continues : ℕ → ℕ → ℕ → List ℕ → Bool
continues zero lo hi [] = true
continues (suc k) lo hi [] = false
continues zero lo hi (b ∷ bs) = let (k, lo', hi') = lead b in continues k lo' hi' bs
continues (suc k) lo hi (b ∷ bs) = (leb lo b && leb b hi) && continues k 0x80 0xBF bs

unfoldable pub is_utf8 : List ℕ → Bool
unfolding continues
is_utf8 bs = continues 0 0x80 0xBF bs

unfoldable pub from_utf8 : List ℕ → Result (List ℕ)
unfolding is_utf8
from_utf8 bs = if is_utf8 bs then ok bs else err utf8_error
