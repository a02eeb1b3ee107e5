-- ===== src/PcapNg/Parser/Lawful.antt =====
-- `PcapNgParser::next_block` and `PcapNgParser::new` as closures.
use pcap_file.Common.{
  ℕ, ◌≡◌, ◌≢◌, refl, ap, ◌∙◌, List, ◌++◌, Result, ok, err, panic, ◌>>=◌, incomplete_buffer,
  io_error, invalid_field, utf8_error, from_utf8_error, invalid_interface_id, IoErrorKind,
  >>=-eq-ok,
}
use pcap_file.ByteOrder.{ByteOrder, Endianness, big}
use pcap_file.ByteOrder.Steps.{Extends}
use pcap_file.ReadBuffer.Parse.{IsLawful, ExtendsFrom}
use pcap_file.ReadBuffer.Stateless.{stateless, result_of}
use pcap_file.PcapNg.RawBlock
use pcap_file.PcapNg.RawBlock.{RawBlock, section_header_block}
use pcap_file.PcapNg.RawBlock.Stable.{from_slice_raw_block-Extends, from_slice_raw_block-LeavesEnd}
use pcap_file.PcapNg.Block
use pcap_file.PcapNg.Block.{
  Block, section_header, try_from_raw_block, name_resolution_block, interface_description_block,
}
use pcap_file.PcapNg.Parser.{
  PcapNgParser, new, first_section, note_block, noted, on_raw_block, next_raw_block_inner, block_of,
  next_block,
}
use pcap_file.PcapNg.Parser.Stable.{note_ne_io, note_block_kept, try_ne_io, on_raw_block-eq-ok}

module _ ⦃bo : ByteOrder⦄ where
  -- The block behind a raw block that has been noted; `p'` is `p` unless the block is read.
  block-ExtendsFrom :
      (p p' : PcapNgParser) (rem more : List ℕ) (r : Result Block)
      → ((k : IoErrorKind) → r ≢ err (io_error k))
      → (((b : Block) → r ≢ ok b) → p' ≡ p)
      → ExtendsFrom p more
          ((r >>= λ block. ok (rem, block)), p')
          ((r >>= λ block. ok (rem ++ more, block)), p')
  block-ExtendsFrom p p' rem more (ok b) h k = refl
  block-ExtendsFrom p p' rem more (err (io_error x)) h k = h x refl
  block-ExtendsFrom p p' rem more (err incomplete_buffer) h k = k λ b q. cc q
  block-ExtendsFrom p p' rem more (err (invalid_field _)) h k = refl
  block-ExtendsFrom p p' rem more (err utf8_error) h k = refl
  block-ExtendsFrom p p' rem more (err from_utf8_error) h k = refl
  block-ExtendsFrom p p' rem more (err (invalid_interface_id _)) h k = refl
  block-ExtendsFrom p p' rem more panic h k = refl

  noted_block-ExtendsFrom :
      (e : Endianness) (p : PcapNgParser) (rem more : List ℕ) (raw : RawBlock)
      (n : Result PcapNgParser)
      → note_block e p raw ≡ n
      → ExtendsFrom p more
          (block_of e (noted p rem raw n))
          (block_of e (noted p (rem ++ more) raw n))
  unfolding block_of noted
  noted_block-ExtendsFrom e p rem more raw (ok p') q =
      block-ExtendsFrom p p' rem more (try_from_raw_block e raw) (try_ne_io e raw)
        (note_block_kept e p p' raw q)
  noted_block-ExtendsFrom e p rem more raw (err (io_error k)) q = note_ne_io e p raw k q
  noted_block-ExtendsFrom e p rem more raw (err incomplete_buffer) q = refl
  noted_block-ExtendsFrom e p rem more raw (err (invalid_field _)) q = refl
  noted_block-ExtendsFrom e p rem more raw (err utf8_error) q = refl
  noted_block-ExtendsFrom e p rem more raw (err from_utf8_error) q = refl
  noted_block-ExtendsFrom e p rem more raw (err (invalid_interface_id _)) q = refl
  noted_block-ExtendsFrom e p rem more raw panic q = refl

  block_of-ExtendsFrom :
      (e : Endianness) (p : PcapNgParser) (more : List ℕ) (r q : Result (List ℕ × RawBlock))
      → Extends more r q
      → ExtendsFrom p more (block_of e (on_raw_block e p r)) (block_of e (on_raw_block e p q))
  unfolding on_raw_block block_of
  block_of-ExtendsFrom e p more (ok (rem, raw)) q h =
      rw h (noted_block-ExtendsFrom e p rem more raw (note_block e p raw) refl)
  block_of-ExtendsFrom e p more (err incomplete_buffer) q h = refl
  block_of-ExtendsFrom e p more (err (io_error _)) q h = elim h [ ]
  block_of-ExtendsFrom e p more (err (invalid_field _)) q h = rw h
  block_of-ExtendsFrom e p more (err utf8_error) q h = rw h
  block_of-ExtendsFrom e p more (err from_utf8_error) q h = rw h
  block_of-ExtendsFrom e p more (err (invalid_interface_id _)) q h = rw h
  block_of-ExtendsFrom e p more panic q h = elim h [ ]

  block_of-eq-ok :
      (e : Endianness) (a : Result (List ℕ × RawBlock) × PcapNgParser) (rem : List ℕ) (b : Block)
      → (block_of e a).0 ≡ ok (rem, b)
      → (raw : RawBlock) × (a.0 ≡ ok (rem, raw))
  unfolding block_of
  block_of-eq-ok e (ok (rem', raw), _) rem b q =
      let (_, _, q') = >>=-eq-ok (try_from_raw_block e raw) _ q in
      let same : rem' ≡ rem = cc q' in (raw, rw same)
  block_of-eq-ok e (err _, _) rem b q = cc q
  block_of-eq-ok e (panic, _) rem b q = cc q

  -- As a closure, `PcapNgParser::next_block` is lawful.
  pub next_block-IsLawful : IsLawful next_block
  unfolding next_block next_raw_block_inner
  next_block-IsLawful = record {
    leaves = λ s s' slice rem b _ q.
        let e = s.section.endianness in
        let (raw, q') =
          block_of-eq-ok e (on_raw_block e s (RawBlock.from_slice e slice)) rem b
            (ap (λ (x : Result (List ℕ × Block) × PcapNgParser). x.0) q) in
        (from_slice_raw_block-LeavesEnd e slice).ends rem raw (on_raw_block-eq-ok e s _ rem raw q');
    extends = λ s slice more _.
        block_of-ExtendsFrom s.section.endianness s more _ _
          (from_slice_raw_block-Extends s.section.endianness slice more);
  }

  -- The first block, and the section it must be, behind a raw block.
  first-ExtendsFrom :
      (rem more : List ℕ) (r : Result Block)
      → ((k : IoErrorKind) → r ≢ err (io_error k))
      → ExtendsFrom tt more
          ((r >>= λ block. ok (rem, block)) >>= first_section, tt)
          ((r >>= λ block. ok (rem ++ more, block)) >>= first_section, tt)
  unfolding first_section
  first-ExtendsFrom rem more (ok (section_header _)) h = refl
  first-ExtendsFrom rem more (ok _) h = refl
  first-ExtendsFrom rem more (err (io_error x)) h = h x refl
  first-ExtendsFrom rem more (err incomplete_buffer) h = refl
  first-ExtendsFrom rem more (err (invalid_field _)) h = refl
  first-ExtendsFrom rem more (err utf8_error) h = refl
  first-ExtendsFrom rem more (err from_utf8_error) h = refl
  first-ExtendsFrom rem more (err (invalid_interface_id _)) h = refl
  first-ExtendsFrom rem more panic h = refl

  new-ExtendsFrom :
      (more : List ℕ) (r q : Result (List ℕ × RawBlock))
      → Extends more r q
      → ExtendsFrom tt more
          (
            (r >>= λ (rem, raw). try_from_raw_block big raw >>= λ block. ok (rem, block))
                >>= first_section,
            tt,
          )
          (
            (q >>= λ (rem, raw). try_from_raw_block big raw >>= λ block. ok (rem, block))
                >>= first_section,
            tt,
          )
  new-ExtendsFrom more (ok (rem, raw)) q h =
      rw h (first-ExtendsFrom rem more (try_from_raw_block big raw) (try_ne_io big raw))
  new-ExtendsFrom more (err incomplete_buffer) q h = refl
  new-ExtendsFrom more (err (io_error _)) q h = elim h [ ]
  new-ExtendsFrom more (err (invalid_field _)) q h = rw h
  new-ExtendsFrom more (err utf8_error) q h = rw h
  new-ExtendsFrom more (err from_utf8_error) q h = rw h
  new-ExtendsFrom more (err (invalid_interface_id _)) q h = rw h
  new-ExtendsFrom more panic q h = elim h [ ]

  first_section-eq-ok :
      (rem rem' : List ℕ) (b : Block) (p : PcapNgParser)
      → first_section (rem', b) ≡ ok (rem, p)
      → rem' ≡ rem
  unfolding first_section
  first_section-eq-ok rem rem' (section_header _) p q = cc q
  first_section-eq-ok rem rem' _ p q = cc q

  -- As a closure without a state, `PcapNgParser::new` is lawful.
  pub new-IsLawful : IsLawful (stateless new)
  unfolding new Block.from_slice
  new-IsLawful = record {
    leaves = λ s s' slice rem p _ q.
        let ((rem₁, b₁), q₁, q₂) =
          >>=-eq-ok (Block.from_slice big slice) first_section (result_of q) in
        let ((rem₂, raw), q₃, q₄) = >>=-eq-ok (RawBlock.from_slice big slice) _ q₁ in
        let (b₂, _, q₅) = >>=-eq-ok (try_from_raw_block big raw) _ q₄ in
        let left₁ : rem₂ ≡ rem₁ = cc q₅ in
        let left₂ : rem₂ ≡ rem = left₁ ∙ first_section-eq-ok rem rem₁ b₁ p q₂ in
        rw (← left₂) ((from_slice_raw_block-LeavesEnd big slice).ends rem₂ raw q₃);
    extends =
        λ s slice more _. new-ExtendsFrom more _ _ (from_slice_raw_block-Extends big slice more);
  }
