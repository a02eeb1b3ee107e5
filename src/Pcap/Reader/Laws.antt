-- ===== src/Pcap/Reader/Laws.antt =====
-- The reader answers what the parser answers on the stream, however the input is cut into pieces.
use pcap_file.Common.{
  ℕ, ◌<◌, ◌≡◌, ◌≢◌, refl, sym, ◌∙◌, List, [], All, Option, some, none, Result, ok, err, panic,
  incomplete_buffer, io_error, invalid_field, utf8_error, from_utf8_error, invalid_interface_id,
  unexpected_eof, other, >>=-eq-ok,
}
use pcap_file.ByteOrder.{ByteOrder, IsByte}
use pcap_file.ReadBuffer
use pcap_file.ReadBuffer.{ReadBuffer, Source, Closure, NextRun, window, parse_with, next_with}
use pcap_file.ReadBuffer.Fill.{stream, pending}
use pcap_file.ReadBuffer.Parse.{IsLawful}
use pcap_file.ReadBuffer.Next.{NextOutcome, next_with-NextOutcome}
use pcap_file.Pcap.Header
use pcap_file.Pcap.Header.WriteBack
use pcap_file.Pcap.RawPacket.Laws
use pcap_file.Pcap.Packet.Laws as PacketLaws
use pcap_file.Pcap.Parser
use pcap_file.Pcap.Parser.{PcapParser}
use pcap_file.Pcap.Parser.Laws as ParserLaws
use pcap_file.ReadBuffer.Failures.{faults}
use pcap_file.ReadBuffer.Opening.{Starved, Opens, parse_with-Opens}
use pcap_file.ReadBuffer.Stateless.{stateless, result_of, stateless-IsLawful, stable-ne-panic}
use pcap_file.ByteOrder.Ends.{Leaves}
use pcap_file.Pcap.Reader.{PcapReader, opened, answered, open_buffer, next_packet, next_raw_packet}

-- What a `next_*` method of the reader says, by its answer. The parser `p` is applied to the whole
-- stream: the bytes in the buffer and all that the underlying reader still delivers.
abbrev pub ReaderOutcome :
    {O : Type 0}
    → (List ℕ → Result (List ℕ × O))
    → PcapReader
    → Option (Option (Result O) × PcapReader)
    → Type 0
ReaderOutcome p r none = ⊥
ReaderOutcome p r (some (none, r')) =
    ReadBuffer.IsValid r'.reader
    × (r'.parser ≡ r.parser)
    × (stream r'.reader ≡ stream r.reader)
    × (window r'.reader ≡ [])
ReaderOutcome p r (some (some (ok o), r')) =
    ReadBuffer.IsValid r'.reader
    × (r'.parser ≡ r.parser)
    × (p (stream r.reader) ≡ ok (stream r'.reader, o))
ReaderOutcome p r (some (some (err (io_error unexpected_eof)), r')) =
    ReadBuffer.IsValid r'.reader
    × (r'.parser ≡ r.parser)
    × (stream r'.reader ≡ stream r.reader)
    × (p (window r'.reader) ≡ err incomplete_buffer)
ReaderOutcome p r (some (some (err (io_error other)), r')) =
    ReadBuffer.IsValid r'.reader × (r'.parser ≡ r.parser)
ReaderOutcome p r (some (some (err e), r')) =
    ReadBuffer.IsValid r'.reader
    × (r'.parser ≡ r.parser)
    × (stream r'.reader ≡ stream r.reader)
    × (p (stream r.reader) ≡ err e)
ReaderOutcome p r (some (some panic, r')) = ⊥

answered-ReaderOutcome :
    {O : Type 0} (p : List ℕ → Result (List ℕ × O)) (r : PcapReader) (run : NextRun (Unit {0}) O)
    → p (stream r.reader) ≢ panic
    → NextOutcome (stateless p) tt r.reader run
    → ReaderOutcome p r (answered r run)
unfolding answered
answered-ReaderOutcome p r none np h = h
answered-ReaderOutcome p r (some (none, _, rb)) np (v, s, w, _) = (v, refl, s, w)
answered-ReaderOutcome p r (some (some (ok o), _, rb)) np (v, _, e) = (v, refl, result_of e)
answered-ReaderOutcome p r (some (some (err (io_error unexpected_eof)), _, rb)) np (v, _, s, _, e) =
    (v, refl, s, result_of e)
answered-ReaderOutcome p r (some (some (err (io_error other)), _, rb)) np (v, _, _) = (v, refl)
answered-ReaderOutcome p r (some (some (err incomplete_buffer), _, rb)) np (v, _, s, e) =
    (v, refl, s, result_of e)
answered-ReaderOutcome p r (some (some (err (invalid_field _)), _, rb)) np (v, _, s, e) =
    (v, refl, s, result_of e)
answered-ReaderOutcome p r (some (some (err utf8_error), _, rb)) np (v, _, s, e) =
    (v, refl, s, result_of e)
answered-ReaderOutcome p r (some (some (err from_utf8_error), _, rb)) np (v, _, s, e) =
    (v, refl, s, result_of e)
answered-ReaderOutcome p r (some (some (err (invalid_interface_id _)), _, rb)) np (v, _, s, e) =
    (v, refl, s, result_of e)
answered-ReaderOutcome p r (some (some panic, _, rb)) np h = np (result_of h)

-- What `PcapReader::new` says, by its answer, of all that its source delivers. It reports the error of a
-- read only where the source fails, and `UnexpectedEof` only where the parser asks for more.
abbrev pub OpenOutcome :
    (List ℕ → Result (List ℕ × PcapParser)) → Source → ℕ → Option (Result PcapReader) → Type 0
OpenOutcome p source capacity none = ⊥
OpenOutcome p source capacity (some (ok r)) =
    ReadBuffer.IsValid r.reader × (p (pending source) ≡ ok (stream r.reader, r.parser))
OpenOutcome p source capacity (some (err (io_error unexpected_eof))) = Starved p source capacity
OpenOutcome p source capacity (some (err (io_error other))) = 0 < faults source
OpenOutcome p source capacity (some (err e)) = p (pending source) ≡ err e
OpenOutcome p source capacity (some panic) = ⊥

opened-OpenOutcome :
    (p : List ℕ → Result (List ℕ × PcapParser)) (source : Source) (capacity : ℕ)
    (run : ReadBuffer.Run (Unit {0}) PcapParser)
    → p (pending source) ≢ panic
    → Opens p source capacity run
    → OpenOutcome p source capacity (opened run)
unfolding opened
opened-OpenOutcome p source capacity none np h = h
opened-OpenOutcome p source capacity (some (ok _, _, rb)) np h = h
opened-OpenOutcome p source capacity (some (err (io_error unexpected_eof), _, rb)) np h = h
opened-OpenOutcome p source capacity (some (err (io_error other), _, rb)) np h = h
opened-OpenOutcome p source capacity (some (err incomplete_buffer, _, rb)) np h = h
opened-OpenOutcome p source capacity (some (err (invalid_field _), _, rb)) np h = h
opened-OpenOutcome p source capacity (some (err utf8_error, _, rb)) np h = h
opened-OpenOutcome p source capacity (some (err from_utf8_error, _, rb)) np h = h
opened-OpenOutcome p source capacity (some (err (invalid_interface_id _), _, rb)) np h = h
opened-OpenOutcome p source capacity (some (panic, _, rb)) np h = np h

module _ ⦃bo : ByteOrder⦄ where
  new-Leaves : Leaves Parser.new
  unfolding Parser.new
  new-Leaves slice rem parser bytes q =
      let (m, q₁, q₂) = >>=-eq-ok (Header.from_slice slice) _ q in
      let q₃ : Header.from_slice slice ≡ ok (rem, m.1) = cc (q₁, q₂) in
      (_, (WriteBack.write_to-from_slice_header slice rem m.1 bytes q₃).1)

  next_packet-Leaves : (parser : PcapParser) → Leaves (Parser.next_packet parser)
  next_packet-Leaves parser slice rem p bytes q =
      let (_, _, back) =
        PacketLaws.write_to-from_slice_packet parser.header.endianness slice rem p
          parser.header.ts_resolution parser.header.snaplen bytes
          (sym (ParserLaws.next_packet_lem parser slice) ∙ q) in
      (back.0, back.2)

  next_raw_packet-Leaves : (parser : PcapParser) → Leaves (Parser.next_raw_packet parser)
  next_raw_packet-Leaves parser slice rem p bytes q = (
    _,
    (Laws.write_to-from_slice_raw parser.header.endianness slice rem p bytes
        (sym (ParserLaws.next_raw_packet_lem parser slice) ∙ q)).1,
  )

  pub new-IsLawful : IsLawful (stateless Parser.new)
  new-IsLawful = stateless-IsLawful Parser.new new-Leaves ParserLaws.new-IsStable

  pub next_packet-IsLawful :
      (parser : PcapParser) → IsLawful (stateless (Parser.next_packet parser))
  next_packet-IsLawful parser =
      stateless-IsLawful (Parser.next_packet parser) (next_packet-Leaves parser)
        (ParserLaws.next_packet-IsStable parser)

  -- `PcapReader::next_packet` on a valid buffer over a stream of bytes, however the reader cuts the
  -- stream into pieces: it answers with the packet or the error of `PcapParser::next_packet` on the
  -- whole stream, from which exactly that packet has gone, or ends where no byte is left in the
  -- buffer and the reader has none, or reports an I/O error. It never panics.
  pub next_packet-ReaderOutcome :
      (r : PcapReader)
      → ReadBuffer.IsValid r.reader
      → All IsByte (stream r.reader)
      → ReaderOutcome (Parser.next_packet r.parser) r (next_packet r)
  unfolding next_packet
  next_packet-ReaderOutcome r v bytes =
      answered-ReaderOutcome (Parser.next_packet r.parser) r _
        (stable-ne-panic _ _ (ParserLaws.next_packet-IsStable r.parser) bytes)
        (next_with-NextOutcome (stateless (Parser.next_packet r.parser))
          (next_packet-IsLawful r.parser) tt r.reader v bytes)

  -- `PcapReader::next_raw_packet` on a valid buffer over a stream of bytes: it answers with the raw
  -- packet or the error of `PcapParser::next_raw_packet` on the whole stream, from which exactly that
  -- packet has gone, or ends where no byte is left in the buffer and the reader has none, or reports
  -- an I/O error. It never panics.
  pub next_raw_packet-ReaderOutcome :
      (r : PcapReader)
      → ReadBuffer.IsValid r.reader
      → All IsByte (stream r.reader)
      → ReaderOutcome (Parser.next_raw_packet r.parser) r (next_raw_packet r)
  unfolding next_raw_packet
  next_raw_packet-ReaderOutcome r v bytes =
      answered-ReaderOutcome (Parser.next_raw_packet r.parser) r _
        (stable-ne-panic _ _ (ParserLaws.next_raw_packet-IsStable r.parser) bytes)
        (next_with-NextOutcome (stateless (Parser.next_raw_packet r.parser))
          (stateless-IsLawful (Parser.next_raw_packet r.parser) (next_raw_packet-Leaves r.parser)
            (ParserLaws.next_raw_packet-IsStable r.parser))
          tt r.reader v bytes)

  -- `PcapReader::new` over a buffer of any capacity, from a source of bytes: it answers with the
  -- header that `PcapParser::new` finds in all the source delivers, and what follows the header is
  -- the stream that is left; or with the parser's error; or with the error of a read, only where the
  -- source fails; or with `UnexpectedEof`, only where the parser asks for more than a front of the
  -- input that fills the buffer, or is all of it, or where the source has a read without bytes. It never panics.
  pub open_buffer-OpenOutcome :
      (source : Source) (capacity : ℕ)
      → All IsByte (pending source)
      → OpenOutcome Parser.new source capacity
          (open_buffer (ReadBuffer.with_capacity source capacity))
  unfolding open_buffer
  open_buffer-OpenOutcome source capacity bytes =
      opened-OpenOutcome Parser.new source capacity _
        (stable-ne-panic _ _ ParserLaws.new-IsStable bytes)
        (parse_with-Opens Parser.new source capacity new-IsLawful bytes)
