-- ===== src/Pcap/Packet/Refusals.antt =====
-- The packets that are refused when they are written.
use pcap_file.Common.{
  ℕ, ◌≤◌, ◌<◌, ◌^◌, ◌≡◌, refl, String, length, ◌⊎◌, inl, inr, err, invalid_field, ltb, leb,
  Bool-cases, arith,
}
use pcap_file.ByteOrder.{ByteOrder, Endianness}
use pcap_file.Pcap.Header.{TsResolution}
use pcap_file.Pcap.Packet.{PcapPacket, to_raw_packet, write_to}

-- A packet whose seconds or data do not fit 32 bits, or whose data are longer than the snap length
-- or than the packet was.
abbrev pub IsRefused : PcapPacket → ℕ → Type 0
IsRefused p snap_len =
    (2 ^ 32 ≤ p.timestamp.secs)
    ⊎ (2 ^ 32 ≤ length p.payload)
    ⊎ (snap_len < length p.payload)
    ⊎ (p.orig_len < length p.payload)

to_raw_packet_refused :
    (p : PcapPacket) (r : TsResolution) (snap_len : ℕ)
    → IsRefused p snap_len
    → (msg : String) × (to_raw_packet p r snap_len ≡ err (invalid_field msg))
unfolding to_raw_packet
to_raw_packet_refused p r snap_len h = elim (Bool-cases (leb (2 ^ 32) p.timestamp.secs)) [
  | inl a ↦ rw a (_, refl)
  | inr a ↦ elim (Bool-cases (leb (2 ^ 32) (length p.payload))) [
    | inl b ↦ rw (a, b) (_, refl)
    | inr b ↦ elim (Bool-cases (ltb snap_len (length p.payload))) [
      | inl c ↦ rw (a, b, c) (_, refl)
      | inr c ↦ elim (Bool-cases (ltb p.orig_len (length p.payload))) [
        | inl d ↦ rw (a, b, c, d) (_, refl)
        | inr d ↦ absurd (ground arith)
      ]
    ]
  ]
]

module _ ⦃bo : ByteOrder⦄ where
  pub write_to_refused :
      (e : Endianness) (p : PcapPacket) (r : TsResolution) (snap_len : ℕ)
      → IsRefused p snap_len
      → (msg : String) × (write_to e p r snap_len ≡ err (invalid_field msg))
  unfolding write_to
  write_to_refused e p r snap_len h =
      let (msg, q) = to_raw_packet_refused p r snap_len h in (msg, rw q refl)
