-- ===== src/PcapNg/Block/RoundTrip.antt =====
-- Blocks in a file: the block with its type, its lengths and its body.
use pcap_file.Common.{ℕ, ◌+◌, ◌%◌, ◌^◌, ◌≡◌, ◌≢◌, refl, ap, List, ◌++◌, length, ok, arith}
use pcap_file.ByteOrder.{ByteOrder, Endianness}
use pcap_file.PcapNg.Options.{pad_len, write_opts_to}
use pcap_file.PcapNg.Blocks.SectionHeader
use pcap_file.PcapNg.Blocks.SectionHeader.{SectionHeaderBlock, section_header_option}
use pcap_file.PcapNg.RawBlock
use pcap_file.PcapNg.RawBlock.{RawBlock, section_header_block}
use pcap_file.PcapNg.RawBlock.Laws
use pcap_file.PcapNg.RawBlock.Laws.{
  raw_of, Fits, from_slice-write_to_raw_block, length-write_to_raw_block,
}
use pcap_file.PcapNg.RawBlock.Section.{section_body, from_slice-write_to_section_raw}
use pcap_file.PcapNg.Block.{
  Block, section_header, interface_description, packet, simple_packet, name_resolution,
  interface_statistics, enhanced_packet, systemd_journal_export, unknown, block_code, from_slice,
  write_body, inner_write_to, write_to,
}
use pcap_file.PcapNg.Block.Valid.{
  IsValid, InOrder, code_u32, length-write_body, try_from_raw_block-write_body,
}

whole_words : (n : ℕ) → n % 4 ≡ 0 → pad_len n ≡ 0
whole_words n h = omega (arith, h)

module _ ⦃bo : ByteOrder⦄ where
  -- The raw block of a valid block.
  abbrev pub written_raw : Endianness → Block → RawBlock
  written_raw e b = raw_of (block_code b) (write_body e b).0

  inner_write_to_raw :
      (e : Endianness) (code n : ℕ) (bytes : List ℕ)
      → length bytes ≡ n
      → n % 4 ≡ 0
      → Fits n
      → inner_write_to e code (bytes, n) ≡ ((RawBlock.write_to e (raw_of code bytes)).0, n + 12)
  unfolding inner_write_to RawBlock.write_to
  inner_write_to_raw e code n bytes l w f = rw (whole_words n w, l, sum, len)
    where
      sum : n + 0 + 12 ≡ n + 12
      sum = omega arith

      len : (n + 12) % 2 ^ 32 ≡ n + 12
      len = omega (arith, f)

  write_to_raw :
      (e : Endianness) (b : Block)
      → IsValid b
      → Fits (write_body e b).1
      → write_to e b ≡ ((RawBlock.write_to e (written_raw e b)).0, (write_body e b).1 + 12)
  unfolding write_to
  write_to_raw e b v f =
      let (l, w) = length-write_body e b v in
      inner_write_to_raw e (block_code b) (write_body e b).1 (write_body e b).0 l w f

  -- A block's `write_to` returns the number of bytes that it writes, whole words, for a valid block that
  -- fits the length field.
  pub length-write_to_block :
      (e : Endianness) (b : Block)
      → IsValid b
      → Fits (write_body e b).1
      → (length (write_to e b).0 ≡ (write_to e b).1) × ((write_to e b).1 % 4 ≡ 0)
  length-write_to_block e b v f =
      let (l, w) = length-write_body e b v in
      rw (write_to_raw e b v f)
        (omega (arith, l, length-write_to_raw_block e (written_raw e b), counted), omega (arith, w))
    where
      counted : (RawBlock.write_to e (written_raw e b)).1 ≡ length (write_body e b).0 + 6
      counted = unfold RawBlock.write_to in refl

  raw-IsValid :
      (e : Endianness) (b : Block)
      → IsValid b
      → Fits (write_body e b).1
      → block_code b ≢ section_header_block
      → Laws.IsValid (written_raw e b)
  raw-IsValid e b v f ne =
      let (l, w) = length-write_body e b v in
      record {
        type_u32 = code_u32 b v;
        len_u32 = omega (arith, l, f);
        no_section_header = ne;
        whole_words = omega (arith, l, w);
        body_len = refl;
        trailer = refl;
      }

  section_bytes :
      (e : Endianness) (a : SectionHeaderBlock)
      → a.endianness ≡ e
      → (more : List ℕ) × ((SectionHeader.write_to e a).0 ≡ section_body e more)
  unfolding SectionHeader.write_to
  section_bytes e a q =
      let more =
        bo.write_uint 2 e a.major_version
        ++ (bo.write_uint 2 e a.minor_version
            ++ (bo.write_uint 8 e a.section_length
                ++ (write_opts_to section_header_option e a.options).0)) in
      (more, ap (λ (x : Endianness). section_body x more) q)

  -- A section header, in any byte order of the reader.
  section_raw :
      (e e' : Endianness) (a : SectionHeaderBlock) (rest : List ℕ)
      → a.endianness ≡ e
      → IsValid (section_header a)
      → Fits (write_body e (section_header a)).1
      → RawBlock.from_slice e' ((RawBlock.write_to e (written_raw e (section_header a))).0 ++ rest)
        ≡ ok (rest, written_raw e (section_header a))
  unfolding write_body
  section_raw e e' a rest q v f =
      let (l, w) = length-write_body e (section_header a) v in
      let (more, m) = section_bytes e a q in
      rw m (
        from_slice-write_to_section_raw e e' more rest (omega (arith, l, f, ap length m))
          (omega (arith, l, w, ap length m)))

  other_raw :
      (e e' : Endianness) (b : Block) (rest : List ℕ)
      → IsValid b
      → e' ≡ e
      → Fits (write_body e b).1
      → block_code b ≢ section_header_block
      → RawBlock.from_slice e' ((RawBlock.write_to e (written_raw e b)).0 ++ rest)
        ≡ ok (rest, written_raw e b)
  other_raw e e' b rest v q f ne =
      rw q (from_slice-write_to_raw_block e (written_raw e b) rest (raw-IsValid e b v f ne))

  pub raw_from_slice :
      (e e' : Endianness) (b : Block) (rest : List ℕ)
      → IsValid b
      → InOrder e e' b
      → Fits (write_body e b).1
      → RawBlock.from_slice e' ((write_to e b).0 ++ rest) ≡ ok (rest, written_raw e b)
  unfolding InOrder IsValid
  raw_from_slice e e' b rest v i f = rw (write_to_raw e b v f) (go b v i f)
    where
      go :
          (b : Block)
          → IsValid b
          → InOrder e e' b
          → Fits (write_body e b).1
          → RawBlock.from_slice e' ((RawBlock.write_to e (written_raw e b)).0 ++ rest)
            ≡ ok (rest, written_raw e b)
      go (section_header a) v i f = section_raw e e' a rest i v f
      go (unknown a) v i f = other_raw e e' (unknown a) rest v i f v.ne_section_header
      go (interface_description a) v i f =
          other_raw e e' (interface_description a) rest v i f (omega arith)
      go (packet a) v i f = other_raw e e' (packet a) rest v i f (omega arith)
      go (simple_packet a) v i f = other_raw e e' (simple_packet a) rest v i f (omega arith)
      go (name_resolution a) v i f = other_raw e e' (name_resolution a) rest v i f (omega arith)
      go (interface_statistics a) v i f =
          other_raw e e' (interface_statistics a) rest v i f (omega arith)
      go (enhanced_packet a) v i f = other_raw e e' (enhanced_packet a) rest v i f (omega arith)
      go (systemd_journal_export a) v i f =
          other_raw e e' (systemd_journal_export a) rest v i f (omega arith)

  -- A valid block of any type that fits the length field is read back from a file, and what follows it
  -- is left. A section header is written in its own byte order and read in any; any other block is read
  -- in the byte order it was written in.
  pub from_slice-write_to_block :
      (e e' : Endianness) (b : Block) (rest : List ℕ)
      → IsValid b
      → InOrder e e' b
      → Fits (write_body e b).1
      → from_slice e' ((write_to e b).0 ++ rest) ≡ ok (rest, b)
  unfolding from_slice
  from_slice-write_to_block e e' b rest v i f =
      rw (raw_from_slice e e' b rest v i f, try_from_raw_block-write_body e e' b v i)
