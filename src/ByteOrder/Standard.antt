-- ===== src/ByteOrder/Standard.antt =====
-- An implementation of the byte order interface, which shows that its laws can be met.
use pcap_file.Common.{
  ℕ, zero, suc, ◌+◌, ◌*◌, ◌/◌, ◌%◌, ◌^◌, ◌≤◌, ◌<◌, ◌≡◌, refl, ap, ◌∙◌, Option, none, some, List, [],
  ◌∷◌, ◌++◌, length, take, drop, All, length-append, arith, leb, if◌then◌else◌,
}
use pcap_file.ByteOrder.{ByteOrder, Endianness, big, little, IsByte, uint_value, be_value}

unfoldable pub le_bytes : ℕ → ℕ → List ℕ
le_bytes zero v = []
le_bytes (suc w) v = (v % 256) ∷ le_bytes w (v / 256)

unfoldable pub be_bytes : ℕ → ℕ → List ℕ
be_bytes zero v = []
be_bytes (suc w) v = be_bytes w (v / 256) ++ ((v % 256) ∷ [])

abbrev pub read : ℕ → Endianness → List ℕ → Option (ℕ × List ℕ)
read w e bs = if leb w (length bs) then some (uint_value e (take w bs), drop w bs) else none

unfoldable pub write : ℕ → Endianness → ℕ → List ℕ
unfolding le_bytes be_bytes
write w big v = be_bytes w v
write w little v = le_bytes w v

length-le_bytes : (w v : ℕ) → length (le_bytes w v) ≡ w
unfolding le_bytes
length-le_bytes zero v = refl
length-le_bytes (suc w) v = ap suc (length-le_bytes w (v / 256))

length-be_bytes : (w v : ℕ) → length (be_bytes w v) ≡ w
unfolding be_bytes
length-be_bytes zero v = refl
length-be_bytes (suc w) v =
    length-append (be_bytes w (v / 256)) ((v % 256) ∷ [])
    ∙ omega (arith, length-be_bytes w (v / 256))

pub length-write : (w : ℕ) (e : Endianness) (v : ℕ) → length (write w e v) ≡ w
unfolding write be_bytes le_bytes
length-write w big v = length-be_bytes w v
length-write w little v = length-le_bytes w v

All-append : (xs ys : List ℕ) → All IsByte xs → All IsByte ys → All IsByte (xs ++ ys)
All-append [] ys h k = k
All-append (x ∷ xs) ys h k = (h.0, All-append xs ys h.1 k)

pub write-IsByte : (w : ℕ) (e : Endianness) (v : ℕ) → All IsByte (write w e v)
unfolding write be_bytes le_bytes
write-IsByte zero big v = tt
write-IsByte (suc w) big v =
    All-append (be_bytes w (v / 256)) _ (write-IsByte w big (v / 256)) (omega arith, tt)
write-IsByte zero little v = tt
write-IsByte (suc w) little v = (omega arith, write-IsByte w little (v / 256))

be_value-append :
    (acc : ℕ) (bs : List ℕ) (b : ℕ) → be_value acc (bs ++ (b ∷ [])) ≡ 256 * be_value acc bs + b
be_value-append acc [] b = refl
be_value-append acc (x ∷ bs) b = be_value-append (256 * acc + x) bs b

pow_step : (w v : ℕ) → v < 256 ^ suc w → v / 256 < 256 ^ w
pow_step w v h = grind arith

pub write_value : (w : ℕ) (e : Endianness) (v : ℕ) → v < 256 ^ w → uint_value e (write w e v) ≡ v
unfolding write be_bytes le_bytes
write_value zero big v h = omega arith
write_value (suc w) big v h =
    be_value-append 0 (be_bytes w (v / 256)) (v % 256)
    ∙ omega (arith, write_value w big (v / 256) (pow_step w v h))
write_value zero little v h = omega arith
write_value (suc w) little v h = omega (arith, write_value w little (v / 256) (pow_step w v h))

pub read_short : (w : ℕ) (e : Endianness) (bs : List ℕ) → length bs < w → read w e bs ≡ none
read_short w e bs h = ground arith

pub read_value :
    (w : ℕ) (e : Endianness) (bs : List ℕ)
    → w ≤ length bs
    → read w e bs ≡ some (uint_value e (take w bs), drop w bs)
read_value w e bs h = ground arith

instance abbrev pub standard : ByteOrder
standard = record {
  read_uint = read;
  write_uint = write;
  read_short = read_short;
  read_value = read_value;
  length-write = length-write;
  write-IsByte = write-IsByte;
  write_value = write_value;
}
