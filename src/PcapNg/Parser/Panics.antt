-- ===== src/PcapNg/Parser/Panics.antt =====
-- Where the parser panics.
use pcap_file.Common.{
  ℕ, ◌≡◌, ◌≢◌, refl, List, [], ◌++◌, Result, ok, err, panic, Bool-cases, inl, inr, ◌==◌,
  >>=-ne-panic, arith,
}
use pcap_file.ByteOrder.{ByteOrder, Endianness}
use pcap_file.ByteOrder.Steps.{Extends}
use pcap_file.PcapNg.RawBlock
use pcap_file.PcapNg.RawBlock.{RawBlock, section_header_block}
use pcap_file.PcapNg.RawBlock.Stable.{from_slice_raw_block-Extends}
use pcap_file.PcapNg.Block.{try_from_raw_block, name_resolution_block, interface_description_block}
use pcap_file.PcapNg.Block.Laws.{header_block, interface_block}
use pcap_file.PcapNg.Block.Calm.{try_from_raw_block-ne-panic}
use pcap_file.PcapNg.Parser.{
  PcapNgParser, note_block, noted, on_raw_block, next_raw_block, next_raw_block_inner, block_of,
  next_block,
}

module _ ⦃bo : ByteOrder⦄ where
  noted_raw_ne_panic :
      (p : PcapNgParser) (rem : List ℕ) (raw : RawBlock) (n : Result PcapNgParser)
      → n ≢ panic
      → (noted p rem raw n).0 ≢ panic
  unfolding noted
  noted_raw_ne_panic p rem raw (ok _) h = λ q. cc q
  noted_raw_ne_panic p rem raw (err _) h = λ q. cc q
  noted_raw_ne_panic p rem raw panic h = λ q. h refl

  -- The two `unwrap`s of the parser succeed: a block of that type has been read.
  note_block_ne_panic :
      (e : Endianness) (p : PcapNgParser) (raw : RawBlock) → note_block e p raw ≢ panic
  unfolding note_block
  note_block_ne_panic e p raw = elim (Bool-cases (raw.type_ == section_header_block)) [
    | inl s ↦ rw s (
        >>=-ne-panic (try_from_raw_block e raw) _ (calm (ground (arith, s)))
          λ b q. let (_, eb) = header_block e raw b s q in rw eb (λ z. cc z))
    | inr s ↦ elim (Bool-cases (raw.type_ == interface_description_block)) [
      | inl i ↦
          rw (s, i)
            (>>=-ne-panic (try_from_raw_block e raw) _ (calm (ground (arith, i)))
              λ b q. let (_, eb) = interface_block e raw b s i q in rw eb (λ z. cc z))
      | inr i ↦ rw (s, i) (λ q. cc q)
    ]
  ]
    where
      calm : raw.type_ ≢ name_resolution_block → try_from_raw_block e raw ≢ panic
      calm = try_from_raw_block-ne-panic e raw

  -- `PcapNgParser::next_raw_block` never panics: it reads the bodies of section headers and interface
  -- descriptions only, and its two `unwrap`s succeed.
  pub next_raw_block-ne-panic : (p : PcapNgParser) (src : List ℕ) → (next_raw_block p src).0 ≢ panic
  unfolding next_raw_block next_raw_block_inner on_raw_block
  next_raw_block-ne-panic p src =
      go (RawBlock.from_slice p.section.endianness src)
        (from_slice_raw_block-Extends p.section.endianness src [])
    where
      go :
          (r : Result (List ℕ × RawBlock))
          → Extends [] r (RawBlock.from_slice p.section.endianness (src ++ []))
          → (on_raw_block p.section.endianness p r).0 ≢ panic
      go (ok (rem, raw)) h =
          noted_raw_ne_panic p rem raw _ (note_block_ne_panic p.section.endianness p raw)
      go (err _) h = λ q. cc q
      go panic h = elim h [ ]

  -- `PcapNgParser::next_block` does not panic, unless the slice begins with a name resolution block.
  pub next_block-ne-panic :
      (p : PcapNgParser) (src : List ℕ)
      → ((rem : List ℕ) (raw : RawBlock)
          → RawBlock.from_slice p.section.endianness src ≡ ok (rem, raw)
          → raw.type_ ≢ name_resolution_block)
      → (next_block p src).0 ≢ panic
  unfolding next_block next_raw_block_inner on_raw_block block_of noted
  next_block-ne-panic p src ne =
      go (RawBlock.from_slice p.section.endianness src)
        (from_slice_raw_block-Extends p.section.endianness src []) ne
    where
      behind :
          (rem : List ℕ) (raw : RawBlock) (n : Result PcapNgParser)
          → n ≢ panic
          → raw.type_ ≢ name_resolution_block
          → (block_of p.section.endianness (noted p rem raw n)).0 ≢ panic
      behind rem raw (ok _) h k =
          >>=-ne-panic (try_from_raw_block p.section.endianness raw) _
            (try_from_raw_block-ne-panic p.section.endianness raw k) λ b _ q. cc q
      behind rem raw (err _) h k = λ q. cc q
      behind rem raw panic h k = λ q. h refl

      go :
          (r : Result (List ℕ × RawBlock))
          → Extends [] r (RawBlock.from_slice p.section.endianness (src ++ []))
          → ((rem : List ℕ) (raw : RawBlock)
              → r ≡ ok (rem, raw)
              → raw.type_ ≢ name_resolution_block)
          → (block_of p.section.endianness (on_raw_block p.section.endianness p r)).0 ≢ panic
      go (ok (rem, raw)) h k =
          behind rem raw _ (note_block_ne_panic p.section.endianness p raw) (k rem raw refl)
      go (err _) h k = λ q. cc q
      go panic h k = elim h [ ]
