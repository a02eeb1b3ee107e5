-- ===== src/PcapNg/Writer.antt =====
-- `PcapNgWriter` of src/pcapng/writer.rs. The underlying writer is a `Vec<u8>`: the bytes written so
-- far, to which writing appends and never fails.
pub mod Laws
use pcap_file.Common.{
  ℕ, List, [], ◌∷◌, ◌++◌, length, Option, some, none, Result, ok, err, panic, ◌>>=◌, unwrap,
  invalid_interface_id, leb, ◌==◌, if◌then◌else◌,
}
use pcap_file.ByteOrder.{ByteOrder, Endianness, big, little}
use pcap_file.PcapNg.Blocks.SectionHeader
use pcap_file.PcapNg.Blocks.SectionHeader.{SectionHeaderBlock}
use pcap_file.PcapNg.Blocks.InterfaceDescription.{InterfaceDescriptionBlock}
use pcap_file.PcapNg.RawBlock
use pcap_file.PcapNg.RawBlock.{RawBlock, section_header_block}
use pcap_file.PcapNg.Block
use pcap_file.PcapNg.Block.{
  Block, section_header, interface_description, interface_statistics, enhanced_packet, BodyForm,
  try_into_block, into_section_header,
}

-- `section()`, `interfaces()`, `get_ref()` and `into_inner()` are the fields.
pub record PcapNgWriter : Type 0 where
  pub section : SectionHeaderBlock
  pub interfaces : List InterfaceDescriptionBlock
  pub writer : List ℕ

-- The match of `write_block`: the sections and interfaces that the block brings, and the check of
-- the interface that it names.
unfoldable pub register : PcapNgWriter → Block → Result PcapNgWriter
register w (section_header a) = ok (record w { section = a; interfaces = [] })
register w (interface_description a) = ok (record w { interfaces = w.interfaces ++ (a ∷ []) })
register w (interface_statistics a) =
    if leb (length w.interfaces) a.interface_id
    then err (invalid_interface_id a.interface_id)
    else ok w
register w (enhanced_packet a) =
    if leb (length w.interfaces) a.interface_id
    then err (invalid_interface_id a.interface_id)
    else ok w
register w _ = ok w

-- Appends what was written, and returns its count.
abbrev pub emit : PcapNgWriter → List ℕ × ℕ → Result ℕ × PcapNgWriter
emit w (bytes, n) = (ok n, record w { writer = w.writer ++ bytes })

module _ ⦃bo : ByteOrder⦄ where
  -- `PcapNgWriter::with_section_header`
  unfoldable pub with_section_header : List ℕ → SectionHeaderBlock → PcapNgWriter
  with_section_header writer section = record {
    section = section;
    interfaces = [];
    writer = writer ++ (Block.write_to section.endianness (section_header section)).0;
  }

  -- `PcapNgWriter::with_endianness`
  unfoldable pub with_endianness : List ℕ → Endianness → PcapNgWriter
  unfolding with_section_header
  with_endianness writer endianness =
      with_section_header writer (record SectionHeader.default { endianness = endianness })

  -- `PcapNgWriter::new`, by the byte order of the machine, `Endianness::native()`.
  abbrev pub new : Endianness → List ℕ → PcapNgWriter
  new native writer = with_endianness writer native

  -- `write_block` behind its match.
  unfoldable pub registered : PcapNgWriter → Block → Result PcapNgWriter → Result ℕ × PcapNgWriter
  registered w block (ok w') = emit w' (Block.write_to w'.section.endianness block)
  registered w block (err e) = (err e, w)
  registered w block panic = (panic, w)

  -- `PcapNgWriter::write_block`
  unfoldable pub write_block : PcapNgWriter → Block → Result ℕ × PcapNgWriter
  unfolding register registered
  write_block w block = registered w block (register w block)

  -- `PcapNgWriter::write_pcapng_block`, by the `into_block` of the block's type: the constructor of
  -- `Block` for it.
  abbrev pub write_pcapng_block :
      {B : Type 0} → (B → Block) → PcapNgWriter → B → Result ℕ × PcapNgWriter
  write_pcapng_block into_block w block = write_block w (into_block block)

  -- The section that `inner` of `write_raw_block` leaves.
  unfoldable pub raw_section : PcapNgWriter → BodyForm → RawBlock → Result SectionHeaderBlock
  raw_section w form block =
      if block.type_ == section_header_block
      then (do
        parsed ← try_into_block w.section.endianness form block
        unwrap (into_section_header parsed))
      else ok w.section

  -- `inner` of `write_raw_block`, which writes in the byte order of the section before the block.
  unfoldable pub raw_registered :
      PcapNgWriter → RawBlock → Result SectionHeaderBlock → Result ℕ × PcapNgWriter
  raw_registered w block (ok section) =
      emit (record w { section = section }) (RawBlock.write_to w.section.endianness block)
  raw_registered w block (err e) = (err e, w)
  raw_registered w block panic = (panic, w)

  -- `PcapNgWriter::write_raw_block`, for a raw block whose body has that form.
  unfoldable pub write_raw_block : PcapNgWriter → BodyForm → RawBlock → Result ℕ × PcapNgWriter
  unfolding raw_section raw_registered
  write_raw_block w form block = raw_registered w block (raw_section w form block)
