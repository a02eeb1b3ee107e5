-- ===== src/Pcap/Writer/Laws.antt =====
-- The writer's methods, by its byte order.
use pcap_file.Common.{ℕ, ◌≡◌, refl, List, ok, ap, err, invalid_field, String, ◌∙◌}
use pcap_file.ByteOrder.{ByteOrder, Endianness, big, little}
use pcap_file.Pcap.Packet
use pcap_file.Pcap.Packet.{PcapPacket}
use pcap_file.Pcap.Packet.Refusals.{IsRefused, write_to_refused}
use pcap_file.Pcap.RawPacket
use pcap_file.Pcap.RawPacket.{RawPcapPacket}
use pcap_file.Pcap.Writer.{
  PcapWriter, emit, packet_in, write_packet, raw_packet_in, write_raw_packet,
}

module _ ⦃bo : ByteOrder⦄ where
  pub write_packet_lem :
      (w : PcapWriter) (p : PcapPacket)
      → write_packet w p ≡ emit w (Packet.write_to w.endianness p w.ts_resolution w.snaplen)
  unfolding write_packet
  write_packet_lem w p = ap (emit w) (go w.endianness)
    where
      go : (e : Endianness) → packet_in e w p ≡ Packet.write_to e p w.ts_resolution w.snaplen
      go big = refl
      go little = refl

  pub write_raw_packet_lem :
      (w : PcapWriter) (p : RawPcapPacket)
      → write_raw_packet w p ≡ emit w (ok (RawPacket.write_to w.endianness p))
  unfolding write_raw_packet
  write_raw_packet_lem w p = ap (λ (b : List ℕ × ℕ). emit w (ok b)) (go w.endianness)
    where
      go : (e : Endianness) → raw_packet_in e p ≡ RawPacket.write_to e p
      go big = refl
      go little = refl

  -- A packet whose seconds or data do not fit 32 bits, or whose data are longer than the writer's snap
  -- length or than the packet was, is refused with an `InvalidField`: nothing is written, and the
  -- writer is as before.
  pub write_packet_refused :
      (w : PcapWriter) (p : PcapPacket)
      → IsRefused p w.snaplen
      → (msg : String) × (write_packet w p ≡ (err (invalid_field msg), w))
  write_packet_refused w p h =
      let (msg, q) = write_to_refused w.endianness p w.ts_resolution w.snaplen h in
      (msg, write_packet_lem w p ∙ ap (emit w) q)
