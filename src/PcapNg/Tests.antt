-- ===== src/PcapNg/Tests.antt =====
-- The theorems of the pcapng modules at concrete blocks.
mod Files
use pcap_file.Common.{
  ℕ, ◌+◌, ◌%◌, ◌≡◌, ◌≢◌, refl, List, [], ◌∷◌, ◌++◌, length, All, ok, err, invalid_interface_id,
  arith, slice_to, slice_from,
}
use pcap_file.ByteOrder.{Endianness, big, little, from_byteorder}
use pcap_file.ByteOrder.Standard.{standard, write, le_bytes, be_bytes}
use pcap_file.DataLink.{ethernet, to_u32, from_u32, find_link}
use pcap_file.PcapNg.Options.{
  opts_from_slice, write_opts_to, write_each, write_bytes_opt, write_u32_opt,
}
use pcap_file.Utf8.{is_utf8, continues}
use pcap_file.PcapNg.Options.RoundTrip.{opts_from_slice-write_opts_to, length-write_opts_to}
use pcap_file.PcapNg.Blocks.SectionHeader
use pcap_file.PcapNg.Blocks.SectionHeader.{SectionHeaderBlock}
use pcap_file.PcapNg.Blocks.InterfaceDescription
use pcap_file.PcapNg.Blocks.InterfaceDescription.{InterfaceDescriptionBlock}
use pcap_file.PcapNg.Blocks.EnhancedPacket
use pcap_file.PcapNg.Blocks.EnhancedPacket.{
  EnhancedPacketBlock, EnhancedPacketOption, comment, flags, enhanced_packet_option,
}
use pcap_file.PcapNg.Blocks.EnhancedPacket.RoundTrip
use pcap_file.PcapNg.Blocks.EnhancedPacket.Options.{IsValidOption, options-IsReadable}
use pcap_file.PcapNg.Blocks.EnhancedPacket.RoundTrip.{from_slice-write_to_enhanced}
use pcap_file.PcapNg.RawBlock
use pcap_file.PcapNg.RawBlock.{RawBlock}
use pcap_file.PcapNg.RawBlock.Laws
use pcap_file.PcapNg.RawBlock.Laws.{Fits, length-write_to_raw_block, from_slice-write_to_raw_block}
use pcap_file.PcapNg.Block
use pcap_file.PcapNg.Block.{
  Block, enhanced_packet, interface_description, try_from_raw_block, owned,
}
use pcap_file.PcapNg.Block.Valid.{IsValid, InOrder, try_from_raw_block-write_body}
use pcap_file.PcapNg.Block.RoundTrip.{written_raw, from_slice-write_to_block, length-write_to_block}
use pcap_file.PcapNg.Parser.{
  PcapNgParser, new, first_section, noted, block_of, note_block, next_raw_block,
  next_raw_block_inner, on_raw_block, next_block,
}
use pcap_file.PcapNg.Parser.Laws.{Agrees, note_block-Agrees}
use pcap_file.PcapNg.Parser.Written.{next_block-write_block}
use pcap_file.PcapNg.Writer.{
  PcapNgWriter, with_endianness, with_section_header, register, registered, write_block,
  raw_section, raw_registered, write_raw_block,
}
use pcap_file.PcapNg.Writer.Laws.{checked_interface, brought, IsKnown, write_block_unknown}

abbrev options : List EnhancedPacketOption
options = comment (104 ∷ 105 ∷ []) ∷ flags 5 ∷ []

options-IsValid : All IsValidOption options
unfolding IsValidOption is_utf8 continues
options-IsValid = ((omega arith, refl), (omega arith, tt))

abbrev pub block : EnhancedPacketBlock
block = record {
  interface_id = 0;
  timestamp = record { secs = 7; nanos = 9 };
  original_len = 3;
  payload = 1 ∷ 2 ∷ 3 ∷ [];
  options = options;
}

pub block-IsValid : RoundTrip.IsValid block
block-IsValid = record {
  interface_u32 = omega arith;
  original_u32 = omega arith;
  payload_u32 = omega arith;
  timestamp_nanos = omega arith;
  timestamp_u64 = omega arith;
  options_valid = options-IsValid;
}

pub block-Fits : (e : Endianness) → Fits (Block.write_body e (enhanced_packet block)).1
unfolding Block.write_body EnhancedPacket.write_to write_opts_to write_each
    EnhancedPacket.write_option write_bytes_opt write_u32_opt
block-Fits e = omega arith

abbrev pub raw_block : RawBlock
raw_block = record { type_ = 77; initial_len = 16; body = 1 ∷ 2 ∷ 3 ∷ 4 ∷ []; trailer_len = 16 }

pub raw_block-IsValid : Laws.IsValid raw_block
raw_block-IsValid = record {
  type_u32 = omega arith;
  len_u32 = omega arith;
  no_section_header = omega arith;
  whole_words = refl;
  body_len = refl;
  trailer = refl;
}

abbrev pub interface : InterfaceDescriptionBlock
interface = record { linktype = ethernet; snaplen = 0; options = [] }

abbrev writer : PcapNgWriter
writer = record { section = SectionHeader.default; interfaces = interface ∷ []; writer = 9 ∷ [] }

abbrev pub parser : PcapNgParser
parser = record { section = SectionHeader.default; interfaces = interface ∷ [] }

block-IsKnown : IsKnown writer (enhanced_packet block)
unfolding IsKnown checked_interface
block-IsKnown i q = let e : 0 ≡ i = cc q in omega (arith, e)

next_block-write_block_example :
    (bytes : List ℕ) × (p' : PcapNgParser) × (write_block writer (enhanced_packet block) ≡ (
      ok (length bytes),
      record (brought writer (enhanced_packet block)) { writer = writer.writer ++ bytes },
    ))
    × (next_block parser (bytes ++ (1 ∷ [])) ≡ (ok (1 ∷ [], enhanced_packet block), p'))
    × Agrees p' (brought writer (enhanced_packet block))
next_block-write_block_example =
    next_block-write_block writer parser (enhanced_packet block) (1 ∷ [])
      (record { same_section = refl; same_interfaces = refl }) block-IsKnown
      (unfold IsValid in block-IsValid)
      (block-Fits (brought writer (enhanced_packet block)).section.endianness)

length-write_to_block_example :
    (length (Block.write_to little (enhanced_packet block)).0
      ≡ (Block.write_to little (enhanced_packet block)).1)
    × ((Block.write_to little (enhanced_packet block)).1 % 4 ≡ 0)
length-write_to_block_example =
    length-write_to_block little (enhanced_packet block) (unfold IsValid in block-IsValid)
      (block-Fits little)

from_slice-write_to_block_example :
    Block.from_slice little ((Block.write_to little (enhanced_packet block)).0 ++ (1 ∷ []))
    ≡ ok (1 ∷ [], enhanced_packet block)
from_slice-write_to_block_example =
    from_slice-write_to_block little little (enhanced_packet block) (1 ∷ [])
      (unfold IsValid in block-IsValid) (unfold InOrder in refl) (block-Fits little)

from_slice-write_to_raw_block_example :
    RawBlock.from_slice big ((RawBlock.write_to big raw_block).0 ++ (1 ∷ []))
    ≡ ok (1 ∷ [], raw_block)
from_slice-write_to_raw_block_example =
    from_slice-write_to_raw_block big raw_block (1 ∷ []) raw_block-IsValid

length-write_to_raw_block_example :
    length (RawBlock.write_to big raw_block).0 ≡ (RawBlock.write_to big raw_block).1 + 6
length-write_to_raw_block_example = length-write_to_raw_block big raw_block

opts_from_slice-write_opts_to_example :
    opts_from_slice enhanced_packet_option big (write_opts_to enhanced_packet_option big options).0
    ≡ ok ([], options)
opts_from_slice-write_opts_to_example =
    opts_from_slice-write_opts_to enhanced_packet_option big options
      (options-IsReadable big options options-IsValid)

abbrev unregistered : Block
unregistered = enhanced_packet (record block { interface_id = 1 })

write_block_unknown_example :
    write_block writer unregistered ≡ (err (invalid_interface_id 1), writer)
write_block_unknown_example =
    write_block_unknown writer unregistered 1 (unfold checked_interface in refl) (omega arith)

note_block-Agrees_example :
    (p' : PcapNgParser) × (note_block big parser (written_raw big (enhanced_packet block)) ≡ ok p')
    × Agrees p' (brought writer (enhanced_packet block))
note_block-Agrees_example =
    note_block-Agrees big parser writer (written_raw big (enhanced_packet block))
      (enhanced_packet block) (record { same_section = refl; same_interfaces = refl })
      (try_from_raw_block-write_body big big (enhanced_packet block)
        (unfold IsValid in block-IsValid) (unfold InOrder in refl))

-- A writer's file, parsed block by block.
abbrev started : PcapNgWriter
started = with_endianness [] little

abbrev described : PcapNgWriter
described = (write_block started (interface_description interface)).1

file_parsed :
    new described.writer
    ≡ ok (
      (Block.write_to little (interface_description interface)).0,
      record { section = record SectionHeader.default { endianness = little }; interfaces = [] },
    )
unfolding write le_bytes be_bytes with_endianness with_section_header write_block register
    registered new first_section Block.from_slice Block.try_from_raw_block Block.write_to
    Block.write_body Block.inner_write_to RawBlock.from_slice RawBlock.section_header_parse
    RawBlock.inner_parse SectionHeader.from_slice SectionHeader.parse_inner SectionHeader.write_to
    InterfaceDescription.write_to opts_from_slice write_opts_to slice_to slice_from to_u32
file_parsed = refl

interface_parsed :
    next_block
      (record { section = record SectionHeader.default { endianness = little }; interfaces = [] })
      (Block.write_to little (interface_description interface)).0
    ≡ (
      ok ([], interface_description interface),
      record {
        section = record SectionHeader.default { endianness = little };
        interfaces = interface ∷ [];
      },
    )
unfolding write le_bytes be_bytes next_block next_raw_block_inner on_raw_block note_block noted
    block_of Block.try_from_raw_block Block.write_to Block.write_body Block.inner_write_to
    RawBlock.from_slice RawBlock.inner_parse InterfaceDescription.from_slice
    InterfaceDescription.write_to opts_from_slice write_opts_to slice_to slice_from to_u32 from_u32
    find_link
interface_parsed = refl

-- A raw block goes out as it is, and its count is six bytes short.
raw_written :
    write_raw_block started owned raw_block
    ≡ (ok 10, record started { writer = started.writer ++ (RawBlock.write_to little raw_block).0 })
unfolding with_endianness with_section_header write_raw_block raw_section raw_registered
    RawBlock.write_to
raw_written = refl

byteorder_of : from_byteorder little ≡ ok little
unfolding from_byteorder
byteorder_of = refl
