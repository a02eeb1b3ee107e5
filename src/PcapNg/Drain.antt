-- ===== src/PcapNg/Drain.antt =====
-- A whole pcapng file through the reader: the loop of a client that reads blocks until the end.
use pcap_file.Common.{
  ℕ, zero, suc, ◌≡◌, ◌≤◌, ◌<◌, refl, sym, ap, ◌∙◌, List, [], ◌∷◌, length, All, Option, some, none,
  Result, ok, err, panic, ◌>>=◌, >>=-eq-ok, arith,
}
use pcap_file.ByteOrder.{ByteOrder, IsByte}
use pcap_file.ReadBuffer.{Source, with_capacity}
use pcap_file.ReadBuffer.Fill.{stream, pending, with_capacity-IsValid}
use pcap_file.ReadBuffer.Steady.{IsSteady}
use pcap_file.ReadBuffer.Stateless.{stateless}
use pcap_file.ReadBuffer.Drain.{
  IsReady, with_capacity-IsReady, parse_with_ok, next_with_ok, next_with_end,
}
use pcap_file.PcapNg.Blocks.SectionHeader.{SectionHeaderBlock}
use pcap_file.PcapNg.RawBlock
use pcap_file.PcapNg.RawBlock.Laws.{Fits}
use pcap_file.PcapNg.Block.{Block, section_header, write_body}
use pcap_file.PcapNg.Block.Valid.{IsValid}
use pcap_file.PcapNg.Parser
use pcap_file.PcapNg.Parser.{PcapNgParser}
use pcap_file.PcapNg.Parser.Lawful.{next_block-IsLawful, new-IsLawful}
use pcap_file.PcapNg.Reader.{PcapNgReader, opened, answered, open_buffer, next_block}
use pcap_file.PcapNg.Writer.{PcapNgWriter, with_section_header}
use pcap_file.PcapNg.WholeFile.{
  AllStorable, write_blocks, blocks_behind, next_blocks, next_blocks-write_blocks,
}

module _ ⦃bo : ByteOrder⦄ where
  -- What a client does with an answer of `next_block`: it stops at the end and at the first error.
  unfoldable pub read_behind :
      (PcapNgReader → Option (Result (List Block)))
      → Option (Option (Result Block) × PcapNgReader)
      → Option (Result (List Block))
  read_behind again none = none
  read_behind again (some (none, r)) = some (ok [])
  read_behind again (some (some (ok b), r)) = elim (again r) [
    | none ↦ none
    | some rest ↦ some (rest >>= λ bs. ok (b ∷ bs))
  ]
  read_behind again (some (some (err e), r)) = some (err e)
  read_behind again (some (some panic, r)) = some panic

  -- The loop of a client, `while let Some(block) = reader.next_block()`, with fuel for its rounds.
  unfoldable pub read_blocks : ℕ → PcapNgReader → Option (Result (List Block))
  unfolding read_behind
  read_blocks zero r = none
  read_blocks (suc n) r = read_behind (read_blocks n) (next_block r)

  -- A block takes bytes.
  not_from_nothing :
      (p p' : PcapNgParser) (s rem : List ℕ) (b : Block)
      → Parser.next_block p s ≡ (ok (rem, b), p')
      → 0 < length s
  unfolding Parser.next_block Parser.next_raw_block_inner Parser.on_raw_block Parser.block_of
      RawBlock.from_slice
  not_from_nothing p p' [] rem b q = cc (ap (λ (x : Result (List ℕ × Block) × PcapNgParser). x.0) q)
  not_from_nothing p p' (x ∷ xs) rem b q = omega arith

  read_blocks_step :
      (n : ℕ) (r r' : PcapNgReader) (b : Block) (bs : List Block)
      → next_block r ≡ some (some (ok b), r')
      → read_blocks n r' ≡ some (ok bs)
      → read_blocks (suc n) r ≡ some (ok (b ∷ bs))
  unfolding read_blocks
  read_blocks_step n r r' b bs e h = rw e (unfold read_behind in rw h refl)

  read_blocks_lem :
      (n : ℕ) (r : PcapNgReader) (bs : List Block)
      → IsReady r.reader
      → next_blocks n r.parser (stream r.reader) ≡ ok ([], bs)
      → read_blocks (suc n) r ≡ some (ok bs)
  unfolding next_blocks read_blocks next_block answered blocks_behind
  read_blocks_lem zero r bs ready q =
      let nothing : stream r.reader ≡ [] = cc q in
      let none_read : [] ≡ bs = cc q in
      let (rb', e) =
        next_with_end Parser.next_block next_block-IsLawful r.parser r.reader ready nothing in
      rw e (unfold read_behind in ap (λ (x : List Block). some (ok x)) none_read)
  read_blocks_lem (suc n) r bs ready q =
      go (Parser.next_block r.parser (stream r.reader)) refl q
        λ r' bs' ready' q'. read_blocks_lem n r' bs' ready' q'
    where
      go :
          (a : Result (List ℕ × Block) × PcapNgParser)
          → Parser.next_block r.parser (stream r.reader) ≡ a
          → blocks_behind (next_blocks n) a ≡ ok ([], bs)
          → ((r' : PcapNgReader) (bs' : List Block)
              → IsReady r'.reader
              → next_blocks n r'.parser (stream r'.reader) ≡ ok ([], bs')
              → read_blocks (suc n) r' ≡ some (ok bs'))
          → read_blocks (suc (suc n)) r ≡ some (ok bs)
      go (ok (rem, b), p') e k again =
          let ((rest, bs'), k₁, k₂) = >>=-eq-ok (next_blocks n p' rem) _ k in
          let done : rest ≡ [] = cc k₂ in
          let all : b ∷ bs' ≡ bs = cc k₂ in
          let (rb', e', ready', left) =
            next_with_ok Parser.next_block next_block-IsLawful r.parser p' r.reader rem b ready
              (not_from_nothing r.parser p' (stream r.reader) rem b e) e in
          let r' : PcapNgReader = record { parser = p'; reader = rb' } in
          let later = again r' bs' ready' (rw left (k₁ ∙ ap (λ (x : List ℕ). ok (x, bs')) done)) in
          let given : next_block r ≡ some (some (ok b), r') = rw e' refl in
          read_blocks_step (suc n) r r' b bs' given later ∙ ap (λ (x : List Block). some (ok x)) all
      go (err x, p') e k again = cc k
      go (panic, p') e k again = cc k

  opened-IsReady :
      (source : Source) (capacity : ℕ) (rem : List ℕ) (p : PcapNgParser)
      → IsSteady source
      → All IsByte (pending source)
      → 0 < capacity
      → length (pending source) ≤ capacity
      → Parser.new (pending source) ≡ ok (rem, p)
      → (r : PcapNgReader) × (open_buffer (with_capacity source capacity) ≡ some (ok r))
        × IsReady r.reader
        × (r.parser ≡ p)
        × (stream r.reader ≡ rem)
  unfolding open_buffer
  opened-IsReady source capacity rem p steady bytes room fits q =
      let ready = with_capacity-IsReady source capacity steady bytes room fits in
      let (_, s, _) = with_capacity-IsValid source capacity in
      let rb = with_capacity source capacity in
      let (rb', e, ready', left) =
        parse_with_ok (stateless Parser.new) new-IsLawful (suc (length rb.buffer)) tt tt rb rem p
          ready (omega arith)
          (ap (λ (x : Result (List ℕ × PcapNgParser)). (x, tt)) (ap Parser.new s ∙ q)) in
      (record { parser = p; reader = rb' }, rw e (unfold opened in refl), ready', refl, left)

  -- A file through the reader: a writer wrote a section header and blocks of any type, each
  -- valid, within the length field, and with its interface registered where the writer checks
  -- that. A source of bytes that does not fail delivers what was written, in any pieces that are
  -- not empty, to a buffer that can hold the whole file. Then the reader opens with that
  -- section, and a client's loop over `next_block` gets all blocks, in order, and ends, in a
  -- round for each block and one more.
  pub read_blocks-write_blocks :
      (section : SectionHeaderBlock) (bs : List Block) (w : PcapNgWriter) (source : Source)
      (capacity : ℕ)
      → IsValid (section_header section)
      → Fits (write_body section.endianness (section_header section)).1
      → AllStorable (with_section_header [] section) bs
      → write_blocks (with_section_header [] section) bs ≡ ok w
      → IsSteady source
      → All IsByte (pending source)
      → pending source ≡ w.writer
      → 0 < capacity
      → length w.writer ≤ capacity
      → (r : PcapNgReader) × (open_buffer (with_capacity source capacity) ≡ some (ok r))
        × (r.parser.section ≡ section)
        × (read_blocks (suc (length bs)) r ≡ some (ok bs))
  read_blocks-write_blocks section bs w source capacity valid fits storable written steady bytes
        same room hold =
      let (w', rem, p, all, new_ok, sec, read) =
        next_blocks-write_blocks section bs valid fits storable in
      let w_same : w' ≡ w = cc (sym all ∙ written) in
      let input : pending source ≡ w'.writer =
        same ∙ ap (λ (x : PcapNgWriter). x.writer) (sym w_same) in
      let (r, o, ready, parser_same, left) =
        opened-IsReady source capacity rem p steady bytes room (omega (arith, ap length same, hold))
          (ap Parser.new input ∙ new_ok) in
      (
        r,
        o,
        ap (λ (x : PcapNgParser). x.section) parser_same ∙ sec,
        read_blocks_lem (length bs) r bs ready (rw (parser_same, left) read),
      )
