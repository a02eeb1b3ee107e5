-- ===== src/PcapNg/RawBlock.antt =====
-- `RawBlock` of src/pcapng/blocks/block_common.rs. `usize` has 64 bits.
pub mod Laws
pub mod Stable
pub mod Section
use pcap_file.Common.{
  ℕ, ◌+◌, ◌-◌, ◌%◌, ◌<◌, ◌^◌, ◌≡◌, List, ◌++◌, length, Result, ok, err, ◌>>=◌, ◌>>◌, guard, unwrap,
  ok_or, invalid_field, incomplete_buffer, ltb, ◌==◌, if◌then◌else◌, slice_to, slice_from, not,
}
use pcap_file.ByteOrder.{ByteOrder, Endianness, big, little, read_u32, write_u32, swap_bytes}

pub record RawBlock : Type 0 where
  pub type_ : ℕ
  pub initial_len : ℕ
  pub body : List ℕ
  pub trailer_len : ℕ

abbrev pub section_header_block : ℕ
section_header_block = 0x0A0D0D0A

module _ ⦃bo : ByteOrder⦄ where
  -- `inner_parse`, on the slice behind the type and the length.
  unfoldable pub inner_parse : Endianness → List ℕ → ℕ → ℕ → Result (List ℕ × RawBlock)
  inner_parse e slice type_ initial_len =
      if not (initial_len % 4 == 0)
      then err (invalid_field "Block: (initial_len % 4) != 0")
      else if ltb initial_len 12
      then err (invalid_field "Block: initial_len < 12")
      else if ltb (length slice) (initial_len - 8)
      then err incomplete_buffer
      else do
        body ← slice_to (initial_len - 12) slice
        rem ← slice_from (initial_len - 12) slice
        (trailer_len, rest) ← unwrap (read_u32 e rem)
        if initial_len == trailer_len
            then ok (
              rest,
              record {
                type_ = type_;
                initial_len = initial_len;
                body = body;
                trailer_len = trailer_len;
              },
            )
            else err (invalid_field "Block: initial_length != trailer_length")

  -- The branch for a section header: its byte order is that of the magic number behind the length.
  unfoldable pub section_header_parse : List ℕ → ℕ → ℕ → ℕ → Result (List ℕ × RawBlock)
  unfolding inner_parse
  section_header_parse slice type_ initial_len magic =
      if magic == 0x1A2B3C4D
      then inner_parse big slice type_ initial_len
      else if magic == 0x4D3C2B1A
      then inner_parse little slice type_ (swap_bytes initial_len)
      else err (invalid_field "SectionHeaderBlock: invalid magic number")

  -- `RawBlock::from_slice`
  unfoldable pub from_slice : Endianness → List ℕ → Result (List ℕ × RawBlock)
  unfolding section_header_parse
  from_slice e slice = if ltb (length slice) 12 then err incomplete_buffer else do
    (type_, s₁) ← unwrap (read_u32 e slice)
    if type_ == section_header_block
        then (do
          (initial_len, s₂) ← unwrap (read_u32 big s₁)
          (magic, _) ← unwrap (read_u32 big s₂)
          section_header_parse s₂ type_ initial_len magic)
        else (do
          (initial_len, s₂) ← ok_or (read_u32 e s₁) incomplete_buffer
          inner_parse e s₂ type_ initial_len)

  -- `RawBlock::write_to`: the bytes written, and the count that is returned.
  unfoldable pub write_to : Endianness → RawBlock → List ℕ × ℕ
  write_to e b = (
    write_u32 e b.type_ ++ (write_u32 e b.initial_len ++ (b.body ++ write_u32 e b.trailer_len)),
    length b.body + 6,
  )
