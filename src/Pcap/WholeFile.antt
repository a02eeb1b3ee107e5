-- ===== src/Pcap/WholeFile.antt =====
-- A whole pcap file: what a client writes packet by packet, and reads back packet by packet.
use pcap_file.Common.{
  ℕ, zero, suc, ◌≡◌, refl, sym, ap, ◌∙◌, List, [], ◌∷◌, ◌++◌, append_assoc, append-nil, length, All,
  Result, ok, err, panic, ◌>>=◌,
}
use mathlib.Core.List.{map}
use pcap_file.ByteOrder.{ByteOrder}
use pcap_file.Pcap.Header
use pcap_file.Pcap.Header.{PcapHeader}
use pcap_file.Pcap.Header.RoundTrip.{from_slice-write_to_header}
use pcap_file.Pcap.Packet
use pcap_file.Pcap.Packet.{PcapPacket}
use pcap_file.Pcap.Packet.Laws.{Fits, kept, from_slice-write_to_packet}
use pcap_file.Pcap.Parser
use pcap_file.Pcap.Parser.{PcapParser, next_packet}
use pcap_file.Pcap.Parser.Laws.{next_packet_lem}
use pcap_file.Pcap.Writer.{PcapWriter, with_header, write_packet}
use pcap_file.Pcap.Writer.Laws.{write_packet_lem}

-- A packet that a writer with this snap length can store.
abbrev pub Storable : ℕ → PcapPacket → Type 0
Storable snap_len p = Packet.IsValid p × Fits p snap_len

module _ ⦃bo : ByteOrder⦄ where
  -- The loop of a client that writes packets until one is refused.
  unfoldable pub write_packets : PcapWriter → List PcapPacket → Result PcapWriter
  write_packets w [] = ok w
  write_packets w (p ∷ ps) =
      let (result, w') = write_packet w p in
      elim result [ ok _ ↦ write_packets w' ps | err e ↦ err e | panic ↦ panic ]

  -- The loop of a client that parses a number of packets.
  unfoldable pub next_packets : ℕ → PcapParser → List ℕ → Result (List ℕ × List PcapPacket)
  next_packets zero parser slice = ok (slice, [])
  next_packets (suc n) parser slice = do
    (rem, p) ← next_packet parser slice
    (rest, ps) ← next_packets n parser rem
    ok (rest, p ∷ ps)

  write_packets_step :
      (w w' : PcapWriter) (p : PcapPacket) (ps : List PcapPacket) (n : ℕ)
      → write_packet w p ≡ (ok n, w')
      → write_packets w (p ∷ ps) ≡ write_packets w' ps
  unfolding write_packets
  write_packets_step w w' p ps n e =
      rw (e, write_packets) (ap (λ (x : Result ℕ × PcapWriter). write_packets x.1 ps) e)

  -- The packets that follow the header, written by `w` behind what it has written already.
  packets_written :
      (h : PcapHeader) (w : PcapWriter) (ps : List PcapPacket)
      → w.endianness ≡ h.endianness
      → w.snaplen ≡ h.snaplen
      → w.ts_resolution ≡ h.ts_resolution
      → All (Storable h.snaplen) ps
      → (w' : PcapWriter) × (bytes : List ℕ) × (write_packets w ps ≡ ok w')
        × (w'.writer ≡ w.writer ++ bytes)
        × ((rest : List ℕ)
            → next_packets (length ps) (record { header = h }) (bytes ++ rest)
              ≡ ok (rest, map (kept h.ts_resolution) ps))
  unfolding write_packets next_packets
  packets_written h w [] he hs hr v = (w, [], refl, sym (append-nil w.writer), λ rest. refl)
  packets_written h w (p ∷ ps) he hs hr ((valid, fits), vs) =
      let (b, written, read) =
        from_slice-write_to_packet h.endianness p h.ts_resolution h.snaplen valid fits in
      let (w', bytes, all, out, back) =
        packets_written h (record w { writer = w.writer ++ b }) ps he hs hr vs in
      (
        w',
        b ++ bytes,
        write_packets_step w (record w { writer = w.writer ++ b }) p ps (length b) (one written)
            ∙ all,
        out ∙ append_assoc w.writer b bytes,
        λ rest. rw (append_assoc b bytes rest, next_packet_lem, read (bytes ++ rest), back rest),
      )
    where
      one :
          {b : List ℕ}
          → Packet.write_to h.endianness p h.ts_resolution h.snaplen ≡ ok (b, length b)
          → write_packet w p ≡ (ok (length b), record w { writer = w.writer ++ b })
      one written = write_packet_lem w p ∙ simp (he, hs, hr, written)

  -- The round trip of a file: a valid header and any storable packets are all written, and parsing
  -- the bytes gives the header and the packets, in order and with nothing left over. A packet loses
  -- only what the resolution of the file cannot tell of its timestamp.
  pub next_packets-write_packets :
      (h : PcapHeader) (ps : List PcapPacket)
      → Header.IsValid h
      → All (Storable h.snaplen) ps
      → (w : PcapWriter) × (rem : List ℕ) × (parser : PcapParser) × (write_packets
            (with_header [] h)
            ps
          ≡ ok w)
        × (Parser.new w.writer ≡ ok (rem, parser))
        × (parser.header ≡ h)
        × (next_packets (length ps) parser rem ≡ ok ([], map (kept h.ts_resolution) ps))
  unfolding with_header Parser.new
  next_packets-write_packets h ps valid storable =
      let (w, bytes, all, out, back) =
        packets_written h (with_header [] h) ps refl refl refl storable in
      (
        w,
        bytes,
        record { header = h },
        all,
        rw (out, from_slice-write_to_header h bytes valid),
        refl,
        rw append-nil at (back []),
      )
