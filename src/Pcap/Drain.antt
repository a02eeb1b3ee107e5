-- ===== src/Pcap/Drain.antt =====
-- A whole pcap file through the reader: the loop of a client that reads packets until the end.
use pcap_file.Common.{
  ℕ, zero, suc, ◌≡◌, ◌≤◌, ◌<◌, refl, sym, ap, ◌∙◌, List, [], ◌∷◌, length, All, Option, some, none,
  Result, ok, err, panic, ◌>>=◌, >>=-eq-ok, arith,
}
use mathlib.Core.List.{map}
use pcap_file.ByteOrder.{ByteOrder, IsByte}
use pcap_file.ReadBuffer.{Source, with_capacity}
use pcap_file.ReadBuffer.Fill.{stream, pending, with_capacity-IsValid}
use pcap_file.ReadBuffer.Steady.{IsSteady}
use pcap_file.ReadBuffer.Stateless.{stateless}
use pcap_file.ReadBuffer.Drain.{
  IsReady, with_capacity-IsReady, parse_with_ok, next_with_ok, next_with_end,
}
use pcap_file.Pcap.Header
use pcap_file.Pcap.Header.{PcapHeader}
use pcap_file.Pcap.RawPacket
use pcap_file.Pcap.Packet
use pcap_file.Pcap.Packet.{PcapPacket}
use pcap_file.Pcap.Packet.Laws.{kept}
use pcap_file.Pcap.Parser
use pcap_file.Pcap.Parser.{PcapParser}
use pcap_file.Pcap.Parser.Laws.{next_packet_lem}
use pcap_file.Pcap.Reader.{PcapReader, opened, answered, open_buffer, next_packet}
use pcap_file.Pcap.Reader.Laws.{next_packet-IsLawful, new-IsLawful}
use pcap_file.Pcap.Writer.{PcapWriter, with_header}
use pcap_file.Pcap.WholeFile.{Storable, write_packets, next_packets, next_packets-write_packets}

module _ ⦃bo : ByteOrder⦄ where
  -- What a client does with an answer of `next_packet`: it stops at the end and at the first error.
  unfoldable pub read_behind :
      (PcapReader → Option (Result (List PcapPacket)))
      → Option (Option (Result PcapPacket) × PcapReader)
      → Option (Result (List PcapPacket))
  read_behind again none = none
  read_behind again (some (none, r)) = some (ok [])
  read_behind again (some (some (ok p), r)) = elim (again r) [
    | none ↦ none
    | some rest ↦ some (rest >>= λ ps. ok (p ∷ ps))
  ]
  read_behind again (some (some (err e), r)) = some (err e)
  read_behind again (some (some panic, r)) = some panic

  -- The loop of a client, `while let Some(packet) = reader.next_packet()`, with fuel for its rounds.
  unfoldable pub read_packets : ℕ → PcapReader → Option (Result (List PcapPacket))
  unfolding read_behind
  read_packets zero r = none
  read_packets (suc n) r = read_behind (read_packets n) (next_packet r)

  read_packets_step :
      (n : ℕ) (r r' : PcapReader) (p : PcapPacket) (ps : List PcapPacket)
      → next_packet r ≡ some (some (ok p), r')
      → read_packets n r' ≡ some (ok ps)
      → read_packets (suc n) r ≡ some (ok (p ∷ ps))
  unfolding read_packets
  read_packets_step n r r' p ps e h = rw e (unfold read_behind in rw h refl)

  -- A packet takes bytes.
  not_from_nothing :
      (parser : PcapParser) (s rem : List ℕ) (p : PcapPacket)
      → Parser.next_packet parser s ≡ ok (rem, p)
      → 0 < length s
  unfolding Packet.from_slice RawPacket.from_slice
  not_from_nothing parser [] rem p q = cc (sym (next_packet_lem parser []) ∙ q)
  not_from_nothing parser (x ∷ xs) rem p q = omega arith

  read_packets_lem :
      (n : ℕ) (r : PcapReader) (ps : List PcapPacket)
      → IsReady r.reader
      → next_packets n r.parser (stream r.reader) ≡ ok ([], ps)
      → read_packets (suc n) r ≡ some (ok ps)
  unfolding next_packets read_packets next_packet answered
  read_packets_lem zero r ps ready q =
      let nothing : stream r.reader ≡ [] = cc q in
      let none_read : [] ≡ ps = cc q in
      let (rb', e) =
        next_with_end (stateless (Parser.next_packet r.parser)) (next_packet-IsLawful r.parser) tt
          r.reader ready nothing in
      rw e (unfold read_behind in ap (λ (x : List PcapPacket). some (ok x)) none_read)
  read_packets_lem (suc n) r ps ready q =
      let ((rem, p), e, k) = >>=-eq-ok (Parser.next_packet r.parser (stream r.reader)) _ q in
      let ((rest, ps'), k₁, k₂) = >>=-eq-ok (next_packets n r.parser rem) _ k in
      let done : rest ≡ [] = cc k₂ in
      let all : p ∷ ps' ≡ ps = cc k₂ in
      let (rb', e', ready', left) =
        next_with_ok (stateless (Parser.next_packet r.parser)) (next_packet-IsLawful r.parser) tt tt
          r.reader rem p ready (not_from_nothing r.parser (stream r.reader) rem p e)
          (ap (λ (x : Result (List ℕ × PcapPacket)). (x, tt)) e) in
      let r' : PcapReader = record r { reader = rb' } in
      let later =
        read_packets_lem n r' ps' ready' (rw left (k₁ ∙ ap (λ (x : List ℕ). ok (x, ps')) done)) in
      let given : next_packet r ≡ some (some (ok p), r') = rw e' refl in
      read_packets_step (suc n) r r' p ps' given later
      ∙ ap (λ (x : List PcapPacket). some (ok x)) all

  opened-IsReady :
      (source : Source) (capacity : ℕ) (rem : List ℕ) (p : PcapParser)
      → IsSteady source
      → All IsByte (pending source)
      → 0 < capacity
      → length (pending source) ≤ capacity
      → Parser.new (pending source) ≡ ok (rem, p)
      → (r : PcapReader) × (open_buffer (with_capacity source capacity) ≡ some (ok r))
        × IsReady r.reader
        × (r.parser ≡ p)
        × (stream r.reader ≡ rem)
  unfolding open_buffer
  opened-IsReady source capacity rem p steady bytes room fits q =
      let ready = with_capacity-IsReady source capacity steady bytes room fits in
      let (_, s, _) = with_capacity-IsValid source capacity in
      let rb = with_capacity source capacity in
      let (rb', e, ready', left) =
        parse_with_ok (stateless Parser.new) new-IsLawful (suc (length rb.buffer)) tt tt rb rem p
          ready (omega arith)
          (ap (λ (x : Result (List ℕ × PcapParser)). (x, tt)) (ap Parser.new s ∙ q)) in
      (record { parser = p; reader = rb' }, rw e (unfold opened in refl), ready', refl, left)

  -- A file through the reader: a writer wrote a valid header and packets that are each valid and
  -- fit the snap length with their original length too. A source of bytes that does not fail
  -- delivers what was written, in any pieces that are not empty, to a buffer that can hold the
  -- whole file. Then the reader opens with that header, and a client's loop over `next_packet`
  -- gets all packets, in order, and ends, in a round for each packet and one more. A packet
  -- loses only what the resolution of the file cannot tell of its timestamp.
  pub read_packets-write_packets :
      (h : PcapHeader) (ps : List PcapPacket) (w : PcapWriter) (source : Source) (capacity : ℕ)
      → Header.IsValid h
      → All (Storable h.snaplen) ps
      → write_packets (with_header [] h) ps ≡ ok w
      → IsSteady source
      → All IsByte (pending source)
      → pending source ≡ w.writer
      → 0 < capacity
      → length w.writer ≤ capacity
      → (r : PcapReader) × (open_buffer (with_capacity source capacity) ≡ some (ok r))
        × (r.parser.header ≡ h)
        × (read_packets (suc (length ps)) r ≡ some (ok (map (kept h.ts_resolution) ps)))
  read_packets-write_packets h ps w source capacity valid storable written steady bytes same room
        hold =
      let (w', rem, p, all, new_ok, head, read) = next_packets-write_packets h ps valid storable in
      let w_same : w' ≡ w = cc (sym all ∙ written) in
      let input : pending source ≡ w'.writer =
        same ∙ ap (λ (x : PcapWriter). x.writer) (sym w_same) in
      let (r, o, ready, parser_same, left) =
        opened-IsReady source capacity rem p steady bytes room (omega (arith, ap length same, hold))
          (ap Parser.new input ∙ new_ok) in
      (
        r,
        o,
        ap (λ (x : PcapParser). x.header) parser_same ∙ head,
        read_packets_lem (length ps) r _ ready (rw (parser_same, left) read),
      )
