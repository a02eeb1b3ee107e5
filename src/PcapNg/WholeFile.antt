-- ===== src/PcapNg/WholeFile.antt =====
-- A whole pcapng file: what a client writes block by block, and reads back block by block.
use pcap_file.Common.{
  ℕ, zero, suc, ◌≡◌, refl, sym, ap, ◌∙◌, List, [], ◌∷◌, ◌++◌, append_assoc, append-nil, length,
  Result, ok, err, panic, ◌>>=◌,
}
use pcap_file.ByteOrder.{ByteOrder, big}
use pcap_file.PcapNg.Blocks.SectionHeader.{SectionHeaderBlock}
use pcap_file.PcapNg.RawBlock.Laws.{Fits}
use pcap_file.PcapNg.Block.{Block, section_header, write_body}
use pcap_file.PcapNg.Block.Valid.{IsValid, InOrder}
use pcap_file.PcapNg.Block.RoundTrip.{from_slice-write_to_block}
use pcap_file.PcapNg.Parser
use pcap_file.PcapNg.Parser.{PcapNgParser, next_block}
use pcap_file.PcapNg.Parser.Laws.{Agrees}
use pcap_file.PcapNg.Parser.Written.{order_of, block_written}
use pcap_file.PcapNg.Writer.{PcapNgWriter, with_section_header, write_block}
use pcap_file.PcapNg.Writer.Laws.{IsKnown, brought}

module _ ⦃bo : ByteOrder⦄ where
  -- A block that the writer, as it is, can store.
  pub record Storable (w : PcapNgWriter) (b : Block) : Type 0 where
    pub known : IsKnown w b
    pub valid : IsValid b
    pub fits : Fits (write_body (order_of w b) b).1

  -- The writer can store each block, as the ones before leave it.
  unfoldable pub AllStorable : PcapNgWriter → List Block → Type 0
  AllStorable w [] = Unit
  AllStorable w (b ∷ bs) = Storable w b × AllStorable (write_block w b).1 bs

  -- The loop of a client that writes blocks until one is refused.
  unfoldable pub write_blocks : PcapNgWriter → List Block → Result PcapNgWriter
  write_blocks w [] = ok w
  write_blocks w (b ∷ bs) =
      let (result, w') = write_block w b in
      let rest = write_blocks w' bs in elim result [ ok _ ↦ rest | err e ↦ err e | panic ↦ panic ]

  -- What a client does with an answer of `next_block`: it stops at the first error.
  unfoldable pub blocks_behind :
      (PcapNgParser → List ℕ → Result (List ℕ × List Block))
      → Result (List ℕ × Block) × PcapNgParser
      → Result (List ℕ × List Block)
  blocks_behind again (ok (rem, b), p) = do (rest, bs) ← again p rem; ok (rest, b ∷ bs)
  blocks_behind again (err e, p) = err e
  blocks_behind again (panic, p) = panic

  -- The loop of a client that parses a number of blocks.
  unfoldable pub next_blocks : ℕ → PcapNgParser → List ℕ → Result (List ℕ × List Block)
  unfolding blocks_behind
  next_blocks zero p slice = ok (slice, [])
  next_blocks (suc n) p slice = blocks_behind (next_blocks n) (next_block p slice)

  write_blocks_step :
      (w w' : PcapNgWriter) (b : Block) (bs : List Block) (n : ℕ)
      → write_block w b ≡ (ok n, w')
      → write_blocks w (b ∷ bs) ≡ write_blocks w' bs
  unfolding write_blocks
  write_blocks_step w w' b bs n e =
      rw (e, write_blocks) (ap (λ (x : Result ℕ × PcapNgWriter). write_blocks x.1 bs) e)

  -- The blocks that follow the section header, written by `w` behind what it has written already.
  blocks_written :
      (w : PcapNgWriter) (p : PcapNgParser) (bs : List Block)
      → Agrees p w
      → AllStorable w bs
      → (w' : PcapNgWriter) × (bytes : List ℕ) × (write_blocks w bs ≡ ok w')
        × (w'.writer ≡ w.writer ++ bytes)
        × ((rest : List ℕ) → next_blocks (length bs) p (bytes ++ rest) ≡ ok (rest, bs))
  unfolding write_blocks next_blocks AllStorable
  blocks_written w p [] a s = (w, [], refl, sym (append-nil w.writer), λ rest. refl)
  blocks_written w p (b ∷ bs) a (s, ss) =
      let (bytes, p', q, read, a') = block_written w p b a s.known s.valid s.fits in
      let w₁ : PcapNgWriter = record (brought w b) { writer = w.writer ++ bytes } in
      let agree : Agrees p' w₁ = record {
        same_section = a'.same_section;
        same_interfaces = a'.same_interfaces;
      } in
      let (w', more, all, out, back) = blocks_written w₁ p' bs agree (rw q at ss) in
      (
        w',
        bytes ++ more,
        write_blocks_step w w₁ b bs (length bytes) q ∙ all,
        out ∙ append_assoc w.writer bytes more,
        λ rest. rw (append_assoc bytes more rest, read (more ++ rest), back rest),
      )

  -- The round trip of a file: a valid section header that fits the length field, and blocks of any type
  -- that the writer can store, each as the ones before leave it: all are written, and parsing the bytes
  -- gives the section header and the blocks, in order and with nothing left over.
  pub next_blocks-write_blocks :
      (section : SectionHeaderBlock) (bs : List Block)
      → IsValid (section_header section)
      → Fits (write_body section.endianness (section_header section)).1
      → AllStorable (with_section_header [] section) bs
      → (w : PcapNgWriter) × (rem : List ℕ) × (parser : PcapNgParser) × (write_blocks
            (with_section_header [] section)
            bs
          ≡ ok w)
        × (Parser.new w.writer ≡ ok (rem, parser))
        × (parser.section ≡ section)
        × (next_blocks (length bs) parser rem ≡ ok ([], bs))
  unfolding with_section_header Parser.new Parser.first_section InOrder
  next_blocks-write_blocks section bs valid fits storable =
      let parser : PcapNgParser = record { section = section; interfaces = [] } in
      let (w, bytes, all, out, back) =
        blocks_written (with_section_header [] section) parser bs
          (record { same_section = refl; same_interfaces = refl }) storable in
      (
        w,
        bytes,
        parser,
        all,
        rw (
          out,
          from_slice-write_to_block section.endianness big (section_header section) bytes valid refl
              fits,
        ),
        refl,
        rw append-nil at (back []),
      )
