-- ===== src/PcapNg/Parser/Stable.antt =====
-- The parser's methods as closures over a slice that may still grow.
use pcap_file.Common.{
  ℕ, ◌≡◌, ◌≢◌, refl, ap, List, ◌++◌, Option, some, none, Result, ok, err, panic, ◌>>=◌, unwrap,
  incomplete_buffer, io_error, invalid_field, utf8_error, from_utf8_error, invalid_interface_id,
  IoErrorKind, false, Bool-cases, inl, inr, ◌==◌, >>=-eq-ok,
}
use pcap_file.ByteOrder.{ByteOrder, Endianness}
use pcap_file.ByteOrder.Steps.{Extends}
use pcap_file.ReadBuffer.Parse.{IsLawful, ExtendsFrom}
use pcap_file.PcapNg.RawBlock.{RawBlock, section_header_block}
use pcap_file.PcapNg.RawBlock.Stable.{from_slice_raw_block-Extends, from_slice_raw_block-LeavesEnd}
use pcap_file.PcapNg.Block.{
  Block, try_from_raw_block, into_section_header, into_interface_description,
  interface_description_block,
}
use pcap_file.PcapNg.Block.Calm.{try_from_raw_block-IsCalm}
use pcap_file.PcapNg.Parser.{
  PcapNgParser, note_block, noted, on_raw_block, next_raw_block, next_raw_block_inner,
}

-- What follows a step that makes no I/O error, if it is a field taken out of its result.
field-ne-io :
    {A B C : Type 0} (k : IoErrorKind) (m : Result A) (pick : A → Option B) (f : B → C)
    → m ≢ err (io_error k)
    → (m >>= λ a. unwrap (pick a) >>= λ b. ok (f b)) ≢ err (io_error k)
field-ne-io k panic pick f h = λ q. cc q
field-ne-io k (err e) pick f h = λ q. h (cc q)
field-ne-io k (ok a) pick f h = go (pick a)
  where
    go : (o : Option _) → (unwrap o >>= λ b. ok (f b)) ≢ err (io_error k)
    go none = λ q. cc q
    go (some b) = λ q. cc q

module _ ⦃bo : ByteOrder⦄ where
  pub try_ne_io :
      (e : Endianness) (raw : RawBlock) (k : IoErrorKind)
      → try_from_raw_block e raw ≢ err (io_error k)
  try_ne_io e raw k = (try_from_raw_block-IsCalm {strict = false} e raw λ _. refl).ne_io_error k

  pub note_ne_io :
      (e : Endianness) (p : PcapNgParser) (raw : RawBlock) (k : IoErrorKind)
      → note_block e p raw ≢ err (io_error k)
  unfolding note_block
  note_ne_io e p raw k = elim (Bool-cases (raw.type_ == section_header_block)) [
    | inl s ↦
        rw s (field-ne-io k (try_from_raw_block e raw) into_section_header _ (try_ne_io e raw k))
    | inr s ↦ elim (Bool-cases (raw.type_ == interface_description_block)) [
      | inl i ↦
          rw (s, i)
            (field-ne-io k (try_from_raw_block e raw) into_interface_description _
              (try_ne_io e raw k))
      | inr i ↦ rw (s, i) (λ q. cc q)
    ]
  ]

  -- The state changes only where the body is that of a block.
  pub note_block_kept :
      (e : Endianness) (p p' : PcapNgParser) (raw : RawBlock)
      → note_block e p raw ≡ ok p'
      → ((b : Block) → try_from_raw_block e raw ≢ ok b)
      → p' ≡ p
  unfolding note_block
  note_block_kept e p p' raw q h = elim (Bool-cases (raw.type_ == section_header_block)) [
    | inl s ↦ let (b, q', _) = >>=-eq-ok (try_from_raw_block e raw) _ (rw s at q) in absurd (h b q')
    | inr s ↦ elim (Bool-cases (raw.type_ == interface_description_block)) [
      | inl i ↦
          let (b, q', _) = >>=-eq-ok (try_from_raw_block e raw) _ (rw (s, i) at q) in
          absurd (h b q')
      | inr i ↦ let same : ok p ≡ ok p' = rw (s, i) at q in cc same
    ]
  ]

  noted-ExtendsFrom :
      (p : PcapNgParser) (rem more : List ℕ) (raw : RawBlock) (r : Result PcapNgParser)
      → ((k : IoErrorKind) → r ≢ err (io_error k))
      → ExtendsFrom p more (noted p rem raw r) (noted p (rem ++ more) raw r)
  unfolding noted
  noted-ExtendsFrom p rem more raw (ok p') h = refl
  noted-ExtendsFrom p rem more raw (err (io_error k)) h = h k refl
  noted-ExtendsFrom p rem more raw (err incomplete_buffer) h = refl
  noted-ExtendsFrom p rem more raw (err (invalid_field _)) h = refl
  noted-ExtendsFrom p rem more raw (err utf8_error) h = refl
  noted-ExtendsFrom p rem more raw (err from_utf8_error) h = refl
  noted-ExtendsFrom p rem more raw (err (invalid_interface_id _)) h = refl
  noted-ExtendsFrom p rem more raw panic h = refl

  on_raw_block-ExtendsFrom :
      (e : Endianness) (p : PcapNgParser) (more : List ℕ) (r q : Result (List ℕ × RawBlock))
      → Extends more r q
      → ExtendsFrom p more (on_raw_block e p r) (on_raw_block e p q)
  unfolding on_raw_block
  on_raw_block-ExtendsFrom e p more (ok (rem, raw)) q h =
      rw h (noted-ExtendsFrom p rem more raw (note_block e p raw) (note_ne_io e p raw))
  on_raw_block-ExtendsFrom e p more (err incomplete_buffer) q h = refl
  on_raw_block-ExtendsFrom e p more (err (io_error _)) q h = elim h [ ]
  on_raw_block-ExtendsFrom e p more (err (invalid_field _)) q h = rw h
  on_raw_block-ExtendsFrom e p more (err utf8_error) q h = rw h
  on_raw_block-ExtendsFrom e p more (err from_utf8_error) q h = rw h
  on_raw_block-ExtendsFrom e p more (err (invalid_interface_id _)) q h = rw h
  on_raw_block-ExtendsFrom e p more panic q h = elim h [ ]

  -- A raw block that was answered is the one of the slice.
  pub on_raw_block-eq-ok :
      (e : Endianness) (p : PcapNgParser) (r : Result (List ℕ × RawBlock)) (rem : List ℕ)
      (raw : RawBlock)
      → (on_raw_block e p r).0 ≡ ok (rem, raw)
      → r ≡ ok (rem, raw)
  unfolding on_raw_block noted
  on_raw_block-eq-ok e p (ok (rem', raw')) rem raw q = go (note_block e p raw') q
    where
      go :
          (n : Result PcapNgParser)
          → (noted p rem' raw' n).0 ≡ ok (rem, raw)
          → ◌≡◌ {A = Result (List ℕ × RawBlock)} (ok (rem', raw')) (ok (rem, raw))
      go (ok _) q = q
      go (err _) q = cc q
      go panic q = cc q
  on_raw_block-eq-ok e p (err x) rem raw q = cc q
  on_raw_block-eq-ok e p panic rem raw q = cc q

  -- As a closure, `PcapNgParser::next_raw_block` is lawful.
  pub next_raw_block-IsLawful : IsLawful next_raw_block
  unfolding next_raw_block next_raw_block_inner
  next_raw_block-IsLawful = record {
    leaves = λ s s' slice rem raw _ q.
        (from_slice_raw_block-LeavesEnd s.section.endianness slice).ends rem raw (
          on_raw_block-eq-ok s.section.endianness s _ rem raw
            (ap (λ (x : Result (List ℕ × RawBlock) × PcapNgParser). x.0) q));
    extends = λ s slice more _.
        on_raw_block-ExtendsFrom s.section.endianness s more _ _
          (from_slice_raw_block-Extends s.section.endianness slice more);
  }
