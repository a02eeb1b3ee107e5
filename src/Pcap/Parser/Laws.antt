-- ===== src/Pcap/Parser/Laws.antt =====
-- The parser's methods, by the byte order of the header.
use pcap_file.Common.{ℕ, ◌≡◌, refl, List, ok}
use pcap_file.ByteOrder.{ByteOrder, Endianness, big, little}
use pcap_file.ByteOrder.Steps.{IsStable, Extends-then}
use pcap_file.Pcap.Header.RoundTrip
use pcap_file.Pcap.RawPacket
use pcap_file.Pcap.RawPacket.Laws.{from_slice_raw-Extends}
use pcap_file.Pcap.Packet
use pcap_file.Pcap.Packet.Laws.{from_slice_packet-Extends}
use pcap_file.Pcap.Parser.{PcapParser, new, packet_in, next_packet, raw_packet_in, next_raw_packet}

module _ ⦃bo : ByteOrder⦄ where
  pub next_packet_lem :
      (parser : PcapParser) (slice : List ℕ)
      → next_packet parser slice
        ≡ Packet.from_slice parser.header.endianness slice parser.header.ts_resolution
            parser.header.snaplen
  unfolding next_packet
  next_packet_lem parser slice = go parser.header.endianness
    where
      go :
          (e : Endianness)
          → packet_in e parser slice
            ≡ Packet.from_slice e slice parser.header.ts_resolution parser.header.snaplen
      go big = refl
      go little = refl

  pub next_raw_packet_lem :
      (parser : PcapParser) (slice : List ℕ)
      → next_raw_packet parser slice ≡ RawPacket.from_slice parser.header.endianness slice
  unfolding next_raw_packet
  next_raw_packet_lem parser slice = go parser.header.endianness
    where
      go : (e : Endianness) → raw_packet_in e slice ≡ RawPacket.from_slice e slice
      go big = refl
      go little = refl

  pub new-IsStable : IsStable new
  unfolding new
  new-IsStable slice more h =
      Extends-then more _ _ (λ header. ok (record { header = header }))
        (RoundTrip.from_slice_header-Extends slice more h)
        (λ rem header q. record { ne_panic = λ _ e. cc e; ne_io_error = λ k e. cc e })

  pub next_packet-IsStable : (parser : PcapParser) → IsStable (next_packet parser)
  next_packet-IsStable parser slice more h = simp next_packet_lem (
      from_slice_packet-Extends parser.header.endianness parser.header.ts_resolution
        parser.header.snaplen slice more h)

  pub next_raw_packet-IsStable : (parser : PcapParser) → IsStable (next_raw_packet parser)
  next_raw_packet-IsStable parser slice more h =
      simp next_raw_packet_lem (from_slice_raw-Extends parser.header.endianness slice more h)
