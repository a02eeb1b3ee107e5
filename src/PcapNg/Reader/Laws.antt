-- ===== src/PcapNg/Reader/Laws.antt =====
-- The reader answers what the parser answers on the stream, however the input is cut into pieces.
use pcap_file.Common.{
  ℕ, ◌<◌, ◌≡◌, List, [], All, Option, some, none, Result, ok, err, panic, incomplete_buffer,
  io_error, invalid_field, utf8_error, from_utf8_error, invalid_interface_id, unexpected_eof, other,
}
use pcap_file.ByteOrder.{ByteOrder, IsByte}
use pcap_file.ReadBuffer
use pcap_file.ReadBuffer.{ReadBuffer, Source, Closure, NextRun, window, parse_with, next_with}
use pcap_file.ReadBuffer.Fill.{stream, pending}
use pcap_file.ReadBuffer.Next.{NextOutcome, next_with-NextOutcome}
use pcap_file.ReadBuffer.Failures.{faults}
use pcap_file.ReadBuffer.Opening.{Starved, Opens, parse_with-Opens}
use pcap_file.PcapNg.Parser
use pcap_file.PcapNg.Parser.{PcapNgParser}
use pcap_file.PcapNg.Parser.Stable.{next_raw_block-IsLawful}
use pcap_file.PcapNg.Parser.Lawful.{next_block-IsLawful, new-IsLawful}
use pcap_file.PcapNg.Reader.{
  PcapNgReader, opened, answered, open_buffer, next_block, next_raw_block,
}

-- What a `next_*` method of the reader says, by its answer, with the parser's method `p` applied to
-- the reader's state and the whole stream: the bytes in the buffer and all that the underlying reader
-- still delivers.
abbrev pub ReaderOutcome :
    {O : Type 0}
    → Closure PcapNgParser O
    → PcapNgReader
    → Option (Option (Result O) × PcapNgReader)
    → Type 0
ReaderOutcome p r none = ⊥
ReaderOutcome p r (some (none, r')) =
    ReadBuffer.IsValid r'.reader
    × (r'.parser ≡ r.parser)
    × (stream r'.reader ≡ stream r.reader)
    × (window r'.reader ≡ [])
ReaderOutcome p r (some (some (ok o), r')) =
    ReadBuffer.IsValid r'.reader
    × (p r.parser (stream r.reader) ≡ (ok (stream r'.reader, o), r'.parser))
ReaderOutcome p r (some (some (err (io_error unexpected_eof)), r')) =
    ReadBuffer.IsValid r'.reader
    × (r'.parser ≡ r.parser)
    × (stream r'.reader ≡ stream r.reader)
    × (p r.parser (window r'.reader) ≡ (err incomplete_buffer, r.parser))
ReaderOutcome p r (some (some (err (io_error other)), r')) =
    ReadBuffer.IsValid r'.reader × (r'.parser ≡ r.parser)
ReaderOutcome p r (some (some (err e), r')) =
    ReadBuffer.IsValid r'.reader
    × (stream r'.reader ≡ stream r.reader)
    × (p r.parser (stream r.reader) ≡ (err e, r'.parser))
ReaderOutcome p r (some (some panic, r')) = p r.parser (stream r.reader) ≡ (panic, r'.parser)

answered-ReaderOutcome :
    {O : Type 0} (p : Closure PcapNgParser O) (r : PcapNgReader) (run : NextRun PcapNgParser O)
    → NextOutcome p r.parser r.reader run
    → ReaderOutcome p r (answered run)
unfolding answered
answered-ReaderOutcome p r none h = h
answered-ReaderOutcome p r (some (none, _, rb)) (v, s, w, q) = (v, q, s, w)
answered-ReaderOutcome p r (some (some (ok o), _, rb)) (v, _, e) = (v, e)
answered-ReaderOutcome p r (some (some (err (io_error unexpected_eof)), _, rb)) (v, _, s, q, e) =
    (v, q, s, e)
answered-ReaderOutcome p r (some (some (err (io_error other)), _, rb)) (v, _, q) = (v, q)
answered-ReaderOutcome p r (some (some (err incomplete_buffer), _, rb)) (v, _, s, e) = (v, s, e)
answered-ReaderOutcome p r (some (some (err (invalid_field _)), _, rb)) (v, _, s, e) = (v, s, e)
answered-ReaderOutcome p r (some (some (err utf8_error), _, rb)) (v, _, s, e) = (v, s, e)
answered-ReaderOutcome p r (some (some (err from_utf8_error), _, rb)) (v, _, s, e) = (v, s, e)
answered-ReaderOutcome p r (some (some (err (invalid_interface_id _)), _, rb)) (v, _, s, e) =
    (v, s, e)
answered-ReaderOutcome p r (some (some panic, _, rb)) h = h

-- What `PcapNgReader::new` says, by its answer, of all that its source delivers. It reports the error of a
-- read only where the source fails, and `UnexpectedEof` only where the parser asks for more.
abbrev pub OpenOutcome :
    (List ℕ → Result (List ℕ × PcapNgParser)) → Source → ℕ → Option (Result PcapNgReader) → Type 0
OpenOutcome p source capacity none = ⊥
OpenOutcome p source capacity (some (ok r)) =
    ReadBuffer.IsValid r.reader × (p (pending source) ≡ ok (stream r.reader, r.parser))
OpenOutcome p source capacity (some (err (io_error unexpected_eof))) = Starved p source capacity
OpenOutcome p source capacity (some (err (io_error other))) = 0 < faults source
OpenOutcome p source capacity (some (err e)) = p (pending source) ≡ err e
OpenOutcome p source capacity (some panic) = p (pending source) ≡ panic

opened-OpenOutcome :
    (p : List ℕ → Result (List ℕ × PcapNgParser)) (source : Source) (capacity : ℕ)
    (run : ReadBuffer.Run (Unit {0}) PcapNgParser)
    → Opens p source capacity run
    → OpenOutcome p source capacity (opened run)
unfolding opened
opened-OpenOutcome p source capacity none h = h
opened-OpenOutcome p source capacity (some (ok _, _, rb)) h = h
opened-OpenOutcome p source capacity (some (err (io_error unexpected_eof), _, rb)) h = h
opened-OpenOutcome p source capacity (some (err (io_error other), _, rb)) h = h
opened-OpenOutcome p source capacity (some (err incomplete_buffer, _, rb)) h = h
opened-OpenOutcome p source capacity (some (err (invalid_field _), _, rb)) h = h
opened-OpenOutcome p source capacity (some (err utf8_error, _, rb)) h = h
opened-OpenOutcome p source capacity (some (err from_utf8_error, _, rb)) h = h
opened-OpenOutcome p source capacity (some (err (invalid_interface_id _), _, rb)) h = h
opened-OpenOutcome p source capacity (some (panic, _, rb)) h = h

module _ ⦃bo : ByteOrder⦄ where
  -- `PcapNgReader::next_block` on a valid buffer over a stream of bytes, however the reader cuts the
  -- stream into pieces: it answers with the block, the error or the panic of
  -- `PcapNgParser::next_block` on the whole stream, with the section and interfaces that this leaves;
  -- or it ends where no byte is left in the buffer and the reader has none; or it reports an I/O
  -- error, with the parser's state as before. Exactly the bytes of the block go from the stream.
  pub next_block-ReaderOutcome :
      (r : PcapNgReader)
      → ReadBuffer.IsValid r.reader
      → All IsByte (stream r.reader)
      → ReaderOutcome Parser.next_block r (next_block r)
  unfolding next_block
  next_block-ReaderOutcome r v bytes =
      answered-ReaderOutcome Parser.next_block r _
        (next_with-NextOutcome Parser.next_block next_block-IsLawful r.parser r.reader v bytes)

  -- `PcapNgReader::next_raw_block` on a valid buffer over a stream of bytes, in the same way against
  -- `PcapNgParser::next_raw_block`.
  pub next_raw_block-ReaderOutcome :
      (r : PcapNgReader)
      → ReadBuffer.IsValid r.reader
      → All IsByte (stream r.reader)
      → ReaderOutcome Parser.next_raw_block r (next_raw_block r)
  unfolding next_raw_block
  next_raw_block-ReaderOutcome r v bytes = answered-ReaderOutcome Parser.next_raw_block r _ (
      next_with-NextOutcome Parser.next_raw_block next_raw_block-IsLawful r.parser r.reader v bytes)

  -- `PcapNgReader::new` over a buffer of any capacity, from a source of bytes: it answers with the
  -- section that `PcapNgParser::new` finds in all the source delivers, and what follows it is the
  -- stream that is left; or with the parser's error or panic; or with the error of a read, only where
  -- the source fails; or with `UnexpectedEof`, only where the parser asks for more than a front of the
  -- input that fills the buffer, or is all of it, or where the source has a read without bytes.
  pub open_buffer_section-OpenOutcome :
      (source : Source) (capacity : ℕ)
      → All IsByte (pending source)
      → OpenOutcome Parser.new source capacity
          (open_buffer (ReadBuffer.with_capacity source capacity))
  unfolding open_buffer
  open_buffer_section-OpenOutcome source capacity bytes =
      opened-OpenOutcome Parser.new source capacity _
        (parse_with-Opens Parser.new source capacity new-IsLawful bytes)
