-- ===== src/PcapNg/Tests/Files.antt =====
-- The theorems of the parser, the reader and whole files at concrete bytes.
use pcap_file.Common.{
  some, ℕ, ◌≡◌, ◌≢◌, refl, ap, List, [], ◌∷◌, ◌++◌, length, All, ok, panic, arith,
}
use pcap_file.ByteOrder.{IsByte, Endianness, big, write_u16}
use pcap_file.ByteOrder.Standard.{standard, write, le_bytes, be_bytes}
use pcap_file.ReadBuffer.{ReadBuffer, IsValid as ValidBuffer, Source, chunk, fault, with_capacity}
use pcap_file.ReadBuffer.Fill.{stream, pending, with_capacity-IsValid}
use pcap_file.ByteOrder.Bytes.{is_bytes, is_bytes-IsByte}
use pcap_file.PcapNg.Options.{write_opts_to}
use pcap_file.PcapNg.Blocks.SectionHeader
use pcap_file.PcapNg.Blocks.NameResolution.{records_loop, record_from_slice}
use pcap_file.PcapNg.Blocks.NameResolution.Records.{
  RecordsRun, records_loop_ends, record_from_slice_unpadded,
}
use pcap_file.PcapNg.RawBlock
use pcap_file.PcapNg.RawBlock.{RawBlock}
use pcap_file.PcapNg.RawBlock.Laws.{Fits, from_slice-write_to_raw_block}
use pcap_file.PcapNg.Drain.{read_blocks, read_blocks-write_blocks}
use pcap_file.PcapNg.Block
use pcap_file.PcapNg.Blocks.EnhancedPacket
use pcap_file.PcapNg.Options.{write_each, write_bytes_opt, write_u32_opt}
use pcap_file.PcapNg.Block.{
  Block, section_header, interface_description, enhanced_packet, name_resolution_block, write_body,
}
use pcap_file.PcapNg.Block.Valid.{IsValid}
use pcap_file.DataLink.{to_u32, from_u32, find_link}
use pcap_file.PcapNg.Blocks.InterfaceDescription
use pcap_file.PcapNg.Writer.{PcapNgWriter, with_section_header, write_block, register, registered}
use pcap_file.PcapNg.Writer.Laws.{checked_interface, IsKnown}
use pcap_file.PcapNg.WholeFile.{AllStorable, write_blocks, next_blocks, next_blocks-write_blocks}
use pcap_file.PcapNg.Parser.{PcapNgParser}
use pcap_file.PcapNg.Parser
use pcap_file.PcapNg.Parser.Panics.{next_raw_block-ne-panic, next_block-ne-panic}
use pcap_file.PcapNg.Reader.{PcapNgReader, open_buffer, next_block}
use pcap_file.PcapNg.Reader.Laws.{
  ReaderOutcome, OpenOutcome, next_block-ReaderOutcome, open_buffer_section-OpenOutcome,
}
use pcap_file.PcapNg.Tests.{
  parser, interface, block, block-IsValid, block-Fits, raw_block, raw_block-IsValid,
}

records_loop_ends_example :
    RecordsRun big (0 ∷ 0 ∷ 0 ∷ 0 ∷ []) (records_loop big 5 (0 ∷ 0 ∷ 0 ∷ 0 ∷ []))
records_loop_ends_example = records_loop_ends big (0 ∷ 0 ∷ 0 ∷ 0 ∷ [])

record_from_slice_unpadded_example :
    record_from_slice big (write_u16 big 3 ++ (write_u16 big 1 ++ (7 ∷ []))) ≡ panic
record_from_slice_unpadded_example =
    record_from_slice_unpadded big 3 (7 ∷ []) (omega arith) (omega arith) (omega arith) (λ q. cc q)

abbrev raw_bytes : List ℕ
raw_bytes = (RawBlock.write_to big raw_block).0

next_raw_block-ne-panic_example : (Parser.next_raw_block parser raw_bytes).0 ≢ panic
next_raw_block-ne-panic_example = next_raw_block-ne-panic parser raw_bytes

-- The block in front is not one for name resolution.
first_type :
    (rem : List ℕ) (raw : RawBlock)
    → RawBlock.from_slice big (raw_bytes ++ (1 ∷ [])) ≡ ok (rem, raw)
    → raw.type_ ≢ name_resolution_block
first_type rem raw q =
    let read = from_slice-write_to_raw_block big raw_block (1 ∷ []) raw_block-IsValid in
    let same : raw_block ≡ raw = cc (read, q) in
    let type : 77 ≡ raw.type_ = ap (λ (r : RawBlock). r.type_) same in λ z. omega (arith, type, z)

next_block-ne-panic_example : (Parser.next_block parser (raw_bytes ++ (1 ∷ []))).0 ≢ panic
next_block-ne-panic_example = next_block-ne-panic parser (raw_bytes ++ (1 ∷ [])) first_type

-- A reader that delivers a block in two pieces, and fails in between.
abbrev pieces : Source
pieces =
    chunk (0 ∷ 0 ∷ 0 ∷ 77 ∷ 0 ∷ [])
    ∷ chunk (0 ∷ 0 ∷ 16 ∷ 1 ∷ 2 ∷ 3 ∷ 4 ∷ 0 ∷ 0 ∷ 0 ∷ 16 ∷ [])
    ∷ fault
    ∷ []

abbrev buffer : ReadBuffer
buffer = with_capacity pieces 32

abbrev reader : PcapNgReader
reader = record { parser = parser; reader = buffer }

buffer-IsValid : ValidBuffer buffer
buffer-IsValid = (with_capacity-IsValid pieces 32).0

buffer_bytes : All IsByte (stream buffer)
unfolding is_bytes with_capacity
buffer_bytes = is_bytes-IsByte (stream buffer) refl

next_block-ReaderOutcome_example : ReaderOutcome Parser.next_block reader (next_block reader)
next_block-ReaderOutcome_example = next_block-ReaderOutcome reader buffer-IsValid buffer_bytes

abbrev section_source : Source
section_source =
    chunk (10 ∷ 13 ∷ 13 ∷ 10 ∷ 0 ∷ 0 ∷ 0 ∷ 28 ∷ 26 ∷ 43 ∷ 60 ∷ 77 ∷ 0 ∷ 1 ∷ 0 ∷ 0 ∷ [])
    ∷ chunk (255 ∷ 255 ∷ 255 ∷ 255 ∷ 255 ∷ 255 ∷ 255 ∷ 255 ∷ 0 ∷ 0 ∷ 0 ∷ 28 ∷ [])
    ∷ []

open_buffer_section-OpenOutcome_example :
    OpenOutcome Parser.new section_source 64 (open_buffer (with_capacity section_source 64))
open_buffer_section-OpenOutcome_example =
    open_buffer_section-OpenOutcome section_source 64
      (unfold is_bytes in is_bytes-IsByte (pending section_source) refl)

-- A file of an interface and a packet.
abbrev file_blocks : List Block
file_blocks = interface_description interface ∷ enhanced_packet block ∷ []

section-IsValid : IsValid (section_header SectionHeader.default)
unfolding IsValid
section-IsValid = record {
  major_u16 = omega arith;
  minor_u16 = omega arith;
  section_length_u64 = omega arith;
  options_valid = tt;
}

section-Fits : Fits (write_body big (section_header SectionHeader.default)).1
unfolding write_body SectionHeader.write_to write_opts_to
section-Fits = omega arith

interface-IsValid : IsValid (interface_description interface)
unfolding IsValid to_u32 from_u32 find_link
interface-IsValid = record {
  linktype_u16 = omega arith;
  linktype_canonical = refl;
  snaplen_u32 = omega arith;
  options_valid = tt;
}

interface-Fits : (e : Endianness) → Fits (write_body e (interface_description interface)).1
unfolding write_body InterfaceDescription.write_to write_opts_to
interface-Fits e = omega arith

file_blocks-AllStorable : AllStorable (with_section_header [] SectionHeader.default) file_blocks
unfolding AllStorable with_section_header write_block register registered
file_blocks-AllStorable = (
  record {
    known = unfold IsKnown checked_interface in λ i q. cc q;
    valid = interface-IsValid;
    fits = interface-Fits _;
  },
  (
    record {
      known = unfold IsKnown checked_interface in λ i q. let e : 0 ≡ i = cc q in omega (arith, e);
      valid = unfold IsValid in block-IsValid;
      fits = block-Fits _;
    },
    tt,
  ),
)

next_blocks-write_blocks_example :
    (w : PcapNgWriter) × (rem : List ℕ) × (p : PcapNgParser) × (write_blocks
        (with_section_header [] SectionHeader.default)
        file_blocks
      ≡ ok w)
    × (Parser.new w.writer ≡ ok (rem, p))
    × (p.section ≡ SectionHeader.default)
    × (next_blocks (length file_blocks) p rem ≡ ok ([], file_blocks))
next_blocks-write_blocks_example =
    next_blocks-write_blocks SectionHeader.default file_blocks section-IsValid section-Fits
      file_blocks-AllStorable

-- The file, byte by byte, as a reader delivers it in three pieces.
abbrev file_start : List ℕ
file_start =
    10 ∷ 13 ∷ 13 ∷ 10 ∷ 0 ∷ 0 ∷ 0 ∷ 28 ∷ 26 ∷ 43 ∷ 60 ∷ 77 ∷ 0 ∷ 1 ∷ 0 ∷ 0 ∷ 255 ∷ 255 ∷ 255 ∷ 255
    ∷ 255 ∷ 255 ∷ 255 ∷ 255 ∷ 0 ∷ 0 ∷ 0 ∷ 28 ∷ 0 ∷ 0 ∷ 0 ∷ 1 ∷ 0 ∷ []

abbrev file_middle : List ℕ
file_middle =
    0 ∷ 0 ∷ 20 ∷ 0 ∷ 1 ∷ 0 ∷ 0 ∷ 0 ∷ 0 ∷ 0 ∷ 0 ∷ 0 ∷ 0 ∷ 0 ∷ 20 ∷ 0 ∷ 0 ∷ 0 ∷ 6 ∷ 0 ∷ 0 ∷ 0 ∷ 56 ∷ 0
    ∷ []

abbrev file_end : List ℕ
file_end =
    0 ∷ 0 ∷ 0 ∷ 0 ∷ 0 ∷ 0 ∷ 1 ∷ 161 ∷ 59 ∷ 134 ∷ 9 ∷ 0 ∷ 0 ∷ 0 ∷ 3 ∷ 0 ∷ 0 ∷ 0 ∷ 3 ∷ 1 ∷ 2 ∷ 3 ∷ 0
    ∷ 0 ∷ 1 ∷ 0 ∷ 2 ∷ 104 ∷ 105 ∷ 0 ∷ 0 ∷ 0 ∷ 2 ∷ 0 ∷ 4 ∷ 0 ∷ 0 ∷ 0 ∷ 5 ∷ 0 ∷ 0 ∷ 0 ∷ 0 ∷ 0 ∷ 0 ∷ 0
    ∷ 56 ∷ []

abbrev file_source : Source
file_source = chunk file_start ∷ chunk file_middle ∷ chunk file_end ∷ []

abbrev written : PcapNgWriter
written = record {
  section = SectionHeader.default;
  interfaces = interface ∷ [];
  writer = file_start ++ (file_middle ++ file_end);
}

file_written : write_blocks (with_section_header [] SectionHeader.default) file_blocks ≡ ok written
unfolding write le_bytes be_bytes write_blocks with_section_header write_block register registered
    Block.write_to write_body Block.inner_write_to SectionHeader.write_to
    InterfaceDescription.write_to EnhancedPacket.write_to EnhancedPacket.write_option write_opts_to
    write_each write_bytes_opt write_u32_opt to_u32
file_written = refl

read_blocks-write_blocks_example :
    (r : PcapNgReader) × (open_buffer (with_capacity file_source 256) ≡ some (ok r))
    × (r.parser.section ≡ SectionHeader.default)
    × (read_blocks 3 r ≡ some (ok file_blocks))
read_blocks-write_blocks_example =
    read_blocks-write_blocks SectionHeader.default file_blocks written file_source 256
      section-IsValid section-Fits file_blocks-AllStorable file_written
      (omega arith, (omega arith, (omega arith, tt)))
      (unfold is_bytes in is_bytes-IsByte (pending file_source) refl) refl (omega arith)
      (omega arith)
