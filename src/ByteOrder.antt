-- ===== src/ByteOrder.antt =====
-- The endianness of src/common.rs, and the byteorder_slice crate as an interface: its reads and
-- writes of unsigned integers, with the behaviour that its documentation states.
pub mod Laws
pub mod Digits
pub mod Calm
pub mod Ends
pub mod Bytes
pub mod Steps
pub mod Standard
use pcap_file.Common.{
  ℕ, zero, suc, ◌+◌, ◌*◌, ◌/◌, ◌%◌, ◌^◌, ◌≤◌, ◌<◌, ◌≡◌, Bool, true, false, Option, none, some, List,
  [], ◌∷◌, length, take, drop, All, ◌==◌, if◌then◌else◌, get_elem?, Result, unwrap, ok, ◌>>=◌,
}

pub data Endianness : Type 0 where
  big little : Endianness

unfoldable pub is_little : Endianness → Bool
is_little big = false
is_little little = true

unfoldable pub is_big : Endianness → Bool
is_big big = true
is_big little = false

abbrev pub IsByte : ℕ → Type 0
IsByte b = b < 256

-- The number that a list of bytes stands for: least significant byte first, or last.
abbrev pub le_value : List ℕ → ℕ
le_value [] = 0
le_value (b ∷ bs) = b + 256 * le_value bs

abbrev pub be_value : ℕ → List ℕ → ℕ
be_value acc [] = acc
be_value acc (b ∷ bs) = be_value (256 * acc + b) bs

abbrev pub uint_value : Endianness → List ℕ → ℕ
uint_value big bs = be_value 0 bs
uint_value little bs = le_value bs

-- `read_uint w e` reads `w` bytes (`read_u16`, `read_u32`, … of `ReadSlice`) and moves the slice on;
-- `write_uint w e v` are the bytes that `write_u16`, `write_u32`, … of `WriteBytesExt` write.
-- A signed integer is read and written by its two's complement pattern.
pub record ByteOrder : Type 0 where
  pub read_uint : ℕ → Endianness → List ℕ → Option (ℕ × List ℕ)
  pub write_uint : ℕ → Endianness → ℕ → List ℕ
  pub read_short : (w : ℕ) (e : Endianness) (bs : List ℕ) → length bs < w → read_uint w e bs ≡ none
  pub read_value :
      (w : ℕ) (e : Endianness) (bs : List ℕ)
      → w ≤ length bs
      → read_uint w e bs ≡ some (uint_value e (take w bs), drop w bs)
  pub length-write : (w : ℕ) (e : Endianness) (v : ℕ) → length (write_uint w e v) ≡ w
  pub write-IsByte : (w : ℕ) (e : Endianness) (v : ℕ) → All IsByte (write_uint w e v)
  pub write_value :
      (w : ℕ) (e : Endianness) (v : ℕ) → v < 256 ^ w → uint_value e (write_uint w e v) ≡ v

module _ ⦃bo : ByteOrder⦄ where
  abbrev pub read_u8 : List ℕ → Option (ℕ × List ℕ)
  read_u8 = bo.read_uint 1 big

  abbrev pub read_u16 : Endianness → List ℕ → Option (ℕ × List ℕ)
  read_u16 = bo.read_uint 2

  abbrev pub read_u32 : Endianness → List ℕ → Option (ℕ × List ℕ)
  read_u32 = bo.read_uint 4

  abbrev pub read_u64 : Endianness → List ℕ → Option (ℕ × List ℕ)
  read_u64 = bo.read_uint 8

  abbrev pub write_u16 : Endianness → ℕ → List ℕ
  write_u16 = bo.write_uint 2

  abbrev pub write_u32 : Endianness → ℕ → List ℕ
  write_u32 = bo.write_uint 4

  abbrev pub write_u64 : Endianness → ℕ → List ℕ
  write_u64 = bo.write_uint 8

  -- `B::read_u32(&[0, 0, 0, 1]) == 1`; the crate's `read_u32` panics on a short buffer.
  unfoldable pub from_byteorder : Endianness → Result Endianness
  from_byteorder e = do
    (v, _) ← unwrap (read_u32 e (0 ∷ 0 ∷ 0 ∷ 1 ∷ []))
    ok (if v == 1 then big else little)

-- `u32::swap_bytes` of the standard library.
abbrev pub swap_bytes : ℕ → ℕ
swap_bytes v =
    v % 256 * 16777216 + v / 256 % 256 * 65536 + v / 65536 % 256 * 256 + v / 16777216 % 256
