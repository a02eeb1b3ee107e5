-- ===== src/Pcap/RawPacket.antt =====
-- `RawPcapPacket` of src/pcap/packet.rs. `usize` has 64 bits, so `incl_len as usize` keeps its value.
pub mod Laws
use pcap_file.Common.{
  ℕ, ◌+◌, ◌<◌, ◌^◌, ◌≡◌, List, ◌++◌, length, Result, ok, err, ◌>>=◌, unwrap, incomplete_buffer, ltb,
  if◌then◌else◌, slice_to, slice_from,
}
use pcap_file.ByteOrder.{ByteOrder, Endianness, read_u32, write_u32}

-- `payload` is the field `data`.
pub record RawPcapPacket : Type 0 where
  pub ts_sec : ℕ
  pub ts_frac : ℕ
  pub incl_len : ℕ
  pub orig_len : ℕ
  pub payload : List ℕ

-- The widths of the fields, and the length of the payload that the header announces.
pub record IsValid (p : RawPcapPacket) : Type 0 where
  pub ts_sec_u32 : p.ts_sec < 2 ^ 32
  pub ts_frac_u32 : p.ts_frac < 2 ^ 32
  pub incl_len_u32 : p.incl_len < 2 ^ 32
  pub orig_len_u32 : p.orig_len < 2 ^ 32
  pub payload_len : length p.payload ≡ p.incl_len

module _ ⦃bo : ByteOrder⦄ where
  -- What `from_slice` does behind the packet header: `pkt_len` bytes of payload.
  unfoldable pub take_payload : ℕ → ℕ → ℕ → ℕ → List ℕ → Result (List ℕ × RawPcapPacket)
  take_payload ts_sec ts_frac incl_len orig_len slice =
      if ltb (length slice) incl_len then err incomplete_buffer else do
        payload ← slice_to incl_len slice
        rem ← slice_from incl_len slice
        ok (
          rem,
          record {
            ts_sec = ts_sec;
            ts_frac = ts_frac;
            incl_len = incl_len;
            orig_len = orig_len;
            payload = payload;
          },
        )

  -- `RawPcapPacket::from_slice`
  unfoldable pub from_slice : Endianness → List ℕ → Result (List ℕ × RawPcapPacket)
  unfolding take_payload
  from_slice e slice = if ltb (length slice) 16 then err incomplete_buffer else do
    (ts_sec, s₁) ← unwrap (read_u32 e slice)
    (ts_frac, s₂) ← unwrap (read_u32 e s₁)
    (incl_len, s₃) ← unwrap (read_u32 e s₂)
    (orig_len, s₄) ← unwrap (read_u32 e s₃)
    take_payload ts_sec ts_frac incl_len orig_len s₄

  -- `RawPcapPacket::write_to`: the bytes written, and the count that is returned.
  unfoldable pub write_to : Endianness → RawPcapPacket → List ℕ × ℕ
  write_to e p = (
    write_u32 e p.ts_sec
        ++ (write_u32 e p.ts_frac
            ++ (write_u32 e p.incl_len ++ (write_u32 e p.orig_len ++ p.payload))),
    16 + length p.payload,
  )
