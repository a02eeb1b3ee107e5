-- ===== src/PcapNg/Parser/Laws.antt =====
-- The state of the pcapng parser, and its agreement with the writer's.
use pcap_file.Common.{◌≡◌, refl, [], ◌∷◌, ◌++◌, ok, ◌==◌, Bool-cases, inl, inr, ap}
use pcap_file.ByteOrder.{ByteOrder, Endianness}
use pcap_file.PcapNg.RawBlock.{RawBlock, section_header_block}
use pcap_file.PcapNg.Block.{
  Block, section_header, interface_description, try_from_raw_block, interface_description_block,
}
use pcap_file.PcapNg.Block.Laws.{IsPlain, header_block, interface_block, try_from_raw_block-IsPlain}
use pcap_file.PcapNg.Parser.{PcapNgParser, note_block}
use pcap_file.PcapNg.Writer.{PcapNgWriter}
use pcap_file.PcapNg.Writer.Laws.{brought}

-- The parser and the writer hold the same section and the same interfaces.
pub record Agrees (p : PcapNgParser) (w : PcapNgWriter) : Type 0 where
  pub same_section : p.section ≡ w.section
  pub same_interfaces : p.interfaces ≡ w.interfaces

brought_plain : (w : PcapNgWriter) (b : Block) → IsPlain b → brought w b ≡ w
unfolding brought IsPlain
brought_plain w (section_header a) h = elim h [ ]
brought_plain w (interface_description a) h = elim h [ ]
brought_plain w _ h = refl

module _ ⦃bo : ByteOrder⦄ where
  -- The parser keeps the same section and interfaces as a writer that accepts the same block: if they
  -- agree before a raw block, and its body is that of a block, then they agree behind it.
  pub note_block-Agrees :
      (e : Endianness) (p : PcapNgParser) (w : PcapNgWriter) (raw : RawBlock) (b : Block)
      → Agrees p w
      → try_from_raw_block e raw ≡ ok b
      → (p' : PcapNgParser) × (note_block e p raw ≡ ok p') × Agrees p' (brought w b)
  unfolding note_block brought
  note_block-Agrees e p w raw b a q = elim (Bool-cases (raw.type_ == section_header_block)) [
    | inl s ↦
        let (h, eb) = header_block e raw b s q in
        rw (s, q, eb)
          (
            record { section = h; interfaces = [] },
            refl,
            record { same_section = refl; same_interfaces = refl },
          )
    | inr s ↦ elim (Bool-cases (raw.type_ == interface_description_block)) [
      | inl i ↦
          let (d, eb) = interface_block e raw b s i q in
          rw (s, i, q, eb)
            (
              record p { interfaces = p.interfaces ++ (d ∷ []) },
              refl,
              record {
                same_section = a.same_section;
                same_interfaces = ap (λ is. is ++ (d ∷ [])) a.same_interfaces;
              },
            )
      | inr i ↦ rw (s, i, brought_plain w b (try_from_raw_block-IsPlain e raw b s i q)) (p, refl, a)
    ]
  ]
