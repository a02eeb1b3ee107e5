-- ===== src/ByteOrder/Bytes.antt =====
-- A decision whether a list is one of bytes.
use pcap_file.Common.{ℕ, ◌≡◌, List, [], ◌∷◌, All, Bool, true, ◌&&◌, ltb, arith}
use pcap_file.ByteOrder.{IsByte}

unfoldable pub is_bytes : List ℕ → Bool
is_bytes [] = true
is_bytes (b ∷ bs) = ltb b 256 && is_bytes bs

pub is_bytes-IsByte : (bs : List ℕ) → is_bytes bs ≡ true → All IsByte bs
unfolding is_bytes
is_bytes-IsByte [] h = tt
is_bytes-IsByte (b ∷ bs) h = (ground arith, is_bytes-IsByte bs (ground arith))
