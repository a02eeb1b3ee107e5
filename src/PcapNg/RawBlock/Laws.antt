-- ===== src/PcapNg/RawBlock/Laws.antt =====
-- Reading back the raw blocks that were written.
use pcap_file.Common.{
  ℕ, ◌+◌, ◌-◌, ◌%◌, ◌<◌, ◌≤◌, ◌≡◌, ◌≢◌, refl, List, ◌++◌, append_assoc, length, length-append,
  take-append, ne→==, drop-append, ok, arith, ◌==◌, le→ltb, slice_to_lem, slice_from_lem, true,
}
use pcap_file.ByteOrder.{ByteOrder, Endianness}
use pcap_file.ByteOrder.Laws.{read-write}
use pcap_file.PcapNg.RawBlock.{RawBlock, section_header_block, inner_parse, from_slice, write_to}

-- A raw block as `inner_parse` accepts it: whole words, its length at both ends, and no section
-- header, whose length has a byte order of its own.
pub record IsValid (b : RawBlock) : Type 0 where
  pub type_u32 : b.type_ < 4294967296
  pub len_u32 : b.initial_len < 4294967296
  pub no_section_header : b.type_ ≢ section_header_block
  pub whole_words : b.initial_len % 4 ≡ 0
  pub body_len : b.initial_len ≡ length b.body + 12
  pub trailer : b.trailer_len ≡ b.initial_len

-- The raw block of a body.
abbrev pub raw_of : ℕ → List ℕ → RawBlock
raw_of code bytes = record {
  type_ = code;
  initial_len = length bytes + 12;
  body = bytes;
  trailer_len = length bytes + 12;
}

-- The whole block fits the 32 bits of its length.
abbrev pub Fits : ℕ → Type 0
Fits n = n + 12 < 4294967296

module _ ⦃bo : ByteOrder⦄ where
  pub inner_parse_lem :
      (e : Endianness) (b : RawBlock) (rest : List ℕ)
      → b.initial_len < 4294967296
      → b.initial_len % 4 ≡ 0
      → b.initial_len ≡ length b.body + 12
      → b.trailer_len ≡ b.initial_len
      → inner_parse e (b.body ++ (bo.write_uint 4 e b.trailer_len ++ rest)) b.type_ b.initial_len
        ≡ ok (rest, b)
  unfolding inner_parse
  inner_parse_lem e b rest u w l t = rw (
    whole,
    le→ltb b.initial_len 12 (omega (arith, l)),
    le→ltb (length src) (b.initial_len - 8) (omega (arith, long, l)),
    body_end,
    slice_to_lem (length b.body) src (omega (arith, long)),
    slice_from_lem (length b.body) src (omega (arith, long)),
    take-append (length b.body) b.body after refl,
    drop-append (length b.body) b.body after refl,
    read-write 4 e b.trailer_len rest (omega (arith, t, u)),
    same,
  )
    where
      after : List ℕ
      after = bo.write_uint 4 e b.trailer_len ++ rest

      src : List ℕ
      src = b.body ++ after

      long : length b.body + 4 ≤ length src
      long = simp (length-append, bo.length-write) (omega arith)

      whole : (b.initial_len % 4 == 0) ≡ true
      whole = ground (arith, w)

      body_end : b.initial_len - 12 ≡ length b.body
      body_end = omega (arith, l)

      same : (b.initial_len == b.trailer_len) ≡ true
      same = ground (arith, t)

  -- `RawBlock::write_to` writes six bytes more than it returns.
  pub length-write_to_raw_block :
      (e : Endianness) (b : RawBlock) → length (write_to e b).0 ≡ (write_to e b).1 + 6
  unfolding write_to
  length-write_to_raw_block e b = simp (length-append, bo.length-write) (omega arith)

  -- A valid raw block other than a section header is read back from what was written for it, and
  -- what follows it is left.
  pub from_slice-write_to_raw_block :
      (e : Endianness) (b : RawBlock) (rest : List ℕ)
      → IsValid b
      → from_slice e ((write_to e b).0 ++ rest) ≡ ok (rest, b)
  unfolding from_slice
  from_slice-write_to_raw_block e b rest v = rw (le→ltb _ 12 long) (
      unfold write_to in
      simp (
        append_assoc,
        read-write 4 e b.type_ _ v.type_u32,
        ne→== b.type_ section_header_block v.no_section_header,
        read-write 4 e b.initial_len _ v.len_u32,
        inner_parse_lem e b rest v.len_u32 v.whole_words v.body_len v.trailer,
      ))
    where
      long : 12 ≤ length ((write_to e b).0 ++ rest)
      long = unfold write_to in simp (length-append, bo.length-write) (omega arith)
