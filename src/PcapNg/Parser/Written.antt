-- ===== src/PcapNg/Parser/Written.antt =====
-- The parser on the blocks that the writer wrote.
use pcap_file.Common.{ℕ, ◌≡◌, refl, ap, List, ◌++◌, length, ok}
use pcap_file.ByteOrder.{ByteOrder, Endianness}
use pcap_file.PcapNg.Blocks.SectionHeader.{SectionHeaderBlock}
use pcap_file.PcapNg.RawBlock.Laws.{Fits}
use pcap_file.PcapNg.Block
use pcap_file.PcapNg.Block.{Block, section_header, interface_description, write_body}
use pcap_file.PcapNg.Block.Valid.{IsValid, InOrder, try_from_raw_block-write_body}
use pcap_file.PcapNg.Block.RoundTrip.{written_raw, raw_from_slice, length-write_to_block}
use pcap_file.PcapNg.Parser.{
  PcapNgParser, noted, on_raw_block, next_raw_block_inner, block_of, next_block,
}
use pcap_file.PcapNg.Parser.Laws.{Agrees, note_block-Agrees}
use pcap_file.PcapNg.Writer.{PcapNgWriter, write_block}
use pcap_file.PcapNg.Writer.Laws.{write_block_known, brought, IsKnown}

-- The byte order in which the writer writes a block.
abbrev pub order_of : PcapNgWriter → Block → Endianness
order_of w b = (brought w b).section.endianness

-- A parser that agrees with the writer reads a block in the order it was written in, unless that is its own.
in_order :
    (w : PcapNgWriter) (p : PcapNgParser) (b : Block)
    → Agrees p w
    → InOrder (order_of w b) p.section.endianness b
unfolding InOrder brought
in_order w p (section_header a) h = refl
in_order w p _ h = ap (λ (s : SectionHeaderBlock). s.endianness) h.same_section

module _ ⦃bo : ByteOrder⦄ where
  next_block_written :
      (w : PcapNgWriter) (p : PcapNgParser) (b : Block)
      → Agrees p w
      → IsValid b
      → Fits (write_body (order_of w b) b).1
      → (p' : PcapNgParser) × ((rest : List ℕ)
          → next_block p ((Block.write_to (order_of w b) b).0 ++ rest) ≡ (ok (rest, b), p'))
        × Agrees p' (brought w b)
  unfolding next_block next_raw_block_inner on_raw_block noted block_of
  next_block_written w p b a v f =
      let e = order_of w b in
      let e' = p.section.endianness in
      let i = in_order w p b a in
      let body = try_from_raw_block-write_body e e' b v i in
      let (p', n, a') = note_block-Agrees e' p w (written_raw e b) b a body in
      (p', λ rest. rw (raw_from_slice e e' b rest v i f, n, body) refl, a')

  -- What the writer appends for a block, and the parser reads whatever follows it.
  pub block_written :
      (w : PcapNgWriter) (p : PcapNgParser) (b : Block)
      → Agrees p w
      → IsKnown w b
      → IsValid b
      → Fits (write_body (order_of w b) b).1
      → (bytes : List ℕ) × (p' : PcapNgParser) × (write_block w b
          ≡ (ok (length bytes), record (brought w b) { writer = w.writer ++ bytes }))
        × ((rest : List ℕ) → next_block p (bytes ++ rest) ≡ (ok (rest, b), p'))
        × Agrees p' (brought w b)
  block_written w p b a k v f =
      let (p', q, a') = next_block_written w p b a v f in
      (
        (Block.write_to (order_of w b) b).0,
        p',
        rw ((length-write_to_block (order_of w b) b v f).0) (write_block_known w b k),
        q,
        a',
      )

  -- A valid block of any type that fits the length field, and whose interface was registered in this
  -- section if it is an enhanced packet or interface statistics: the writer appends bytes and returns their number, and from them a
  -- parser that holds the writer's section and interfaces reads the block back, with what follows left
  -- over; then it holds the section and the interfaces that the writer holds.
  pub next_block-write_block :
      (w : PcapNgWriter) (p : PcapNgParser) (b : Block) (rest : List ℕ)
      → Agrees p w
      → IsKnown w b
      → IsValid b
      → Fits (write_body (order_of w b) b).1
      → (bytes : List ℕ) × (p' : PcapNgParser) × (write_block w b
          ≡ (ok (length bytes), record (brought w b) { writer = w.writer ++ bytes }))
        × (next_block p (bytes ++ rest) ≡ (ok (rest, b), p'))
        × Agrees p' (brought w b)
  next_block-write_block w p b rest a k v f =
      let (bytes, p', q, r, a') = block_written w p b a k v f in (bytes, p', q, r rest, a')
