-- ===== src/PcapNg/Parser.antt =====
-- `PcapNgParser` of src/pcapng/parser.rs.
pub mod Laws
pub mod Stable
pub mod Lawful
pub mod Panics
pub mod Written
use pcap_file.Common.{
  ℕ, List, [], ◌∷◌, ◌++◌, get_elem?, Option, some, none, Result, ok, err, panic, ◌>>=◌, unwrap,
  invalid_field, ◌==◌, if◌then◌else◌,
}
use pcap_file.ByteOrder.{ByteOrder, Endianness, big, little}
use pcap_file.PcapNg.Blocks.SectionHeader.{SectionHeaderBlock}
use pcap_file.PcapNg.Blocks.InterfaceDescription.{InterfaceDescriptionBlock}
use pcap_file.PcapNg.Blocks.EnhancedPacket.{EnhancedPacketBlock}
use pcap_file.PcapNg.RawBlock
use pcap_file.PcapNg.RawBlock.{RawBlock, section_header_block}
use pcap_file.PcapNg.Block
use pcap_file.PcapNg.Block.{
  Block, section_header, try_from_raw_block, into_section_header, into_interface_description,
  interface_description_block,
}

-- `section()` and `interfaces()` are the fields.
pub record PcapNgParser : Type 0 where
  pub section : SectionHeaderBlock
  pub interfaces : List InterfaceDescriptionBlock

-- `PcapNgParser::packet_interface`
abbrev pub packet_interface : PcapNgParser → EnhancedPacketBlock → Option InterfaceDescriptionBlock
packet_interface parser packet = get_elem? parser.interfaces packet.interface_id

-- The match of `PcapNgParser::new` on the first block.
unfoldable pub first_section : List ℕ × Block → Result (List ℕ × PcapNgParser)
first_section (rem, section_header section) =
    ok (rem, record { section = section; interfaces = [] })
first_section (rem, _) = err (invalid_field "PcapNg: SectionHeader invalid or missing")

module _ ⦃bo : ByteOrder⦄ where
  -- `PcapNgParser::new`
  unfoldable pub new : List ℕ → Result (List ℕ × PcapNgParser)
  unfolding first_section
  new src = Block.from_slice big src >>= first_section

  -- What a raw block does to the parser's state, in `next_raw_block_inner`. The state changes only
  -- behind the last `?` of its branch.
  unfoldable pub note_block : Endianness → PcapNgParser → RawBlock → Result PcapNgParser
  note_block e parser raw =
      if raw.type_ == section_header_block
      then (do
        block ← try_from_raw_block e raw
        section ← unwrap (into_section_header block)
        ok (record { section = section; interfaces = [] }))
      else if raw.type_ == interface_description_block
      then (do
        block ← try_from_raw_block e raw
        interface ← unwrap (into_interface_description block)
        ok (record parser { interfaces = parser.interfaces ++ (interface ∷ []) }))
      else ok parser

  -- The answer and the state behind `note_block`.
  unfoldable pub noted :
      PcapNgParser
      → List ℕ
      → RawBlock
      → Result PcapNgParser
      → Result (List ℕ × RawBlock) × PcapNgParser
  noted parser rem raw (ok parser') = (ok (rem, raw), parser')
  noted parser rem raw (err e) = (err e, parser)
  noted parser rem raw panic = (panic, parser)

  unfoldable pub on_raw_block :
      Endianness
      → PcapNgParser
      → Result (List ℕ × RawBlock)
      → Result (List ℕ × RawBlock) × PcapNgParser
  unfolding note_block noted
  on_raw_block e parser (ok (rem, raw)) = noted parser rem raw (note_block e parser raw)
  on_raw_block e parser (err x) = (err x, parser)
  on_raw_block e parser panic = (panic, parser)

  -- `next_raw_block_inner`: the answer, and the parser's state behind it.
  unfoldable pub next_raw_block_inner :
      Endianness → PcapNgParser → List ℕ → Result (List ℕ × RawBlock) × PcapNgParser
  unfolding on_raw_block
  next_raw_block_inner e parser src = on_raw_block e parser (RawBlock.from_slice e src)

  -- `PcapNgParser::next_raw_block`
  unfoldable pub next_raw_block : PcapNgParser → List ℕ → Result (List ℕ × RawBlock) × PcapNgParser
  unfolding next_raw_block_inner
  next_raw_block parser src = next_raw_block_inner parser.section.endianness parser src

  -- The arms of `next_block`, which hold the byte order of the section before the block.
  unfoldable pub block_of :
      Endianness
      → Result (List ℕ × RawBlock) × PcapNgParser
      → Result (List ℕ × Block) × PcapNgParser
  block_of e (ok (rem, raw), parser) =
      (do block ← try_from_raw_block e raw; ok (rem, block), parser)
  block_of e (err x, parser) = (err x, parser)
  block_of e (panic, parser) = (panic, parser)

  -- `PcapNgParser::next_block`
  unfoldable pub next_block : PcapNgParser → List ℕ → Result (List ℕ × Block) × PcapNgParser
  unfolding block_of next_raw_block_inner
  next_block parser src =
      block_of parser.section.endianness (next_raw_block_inner parser.section.endianness parser src)
