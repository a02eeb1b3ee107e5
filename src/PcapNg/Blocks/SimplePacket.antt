-- ===== src/PcapNg/Blocks/SimplePacket.antt =====
-- The simple packet block of src/pcapng/blocks/simple_packet.rs.
pub mod RoundTrip
use pcap_file.Common.{
  ℕ, ◌+◌, List, [], ◌++◌, length, Result, ok, err, ◌>>=◌, unwrap, invalid_field, ltb, if◌then◌else◌,
}
use pcap_file.ByteOrder.{ByteOrder, Endianness, read_u32, write_u32}
use pcap_file.PcapNg.Options.{pad_len, padding}

-- `payload` is the field `data`.
pub record SimplePacketBlock : Type 0 where
  pub original_len : ℕ
  pub payload : List ℕ

module _ ⦃bo : ByteOrder⦄ where
  -- `SimplePacketBlock::from_slice`
  unfoldable pub from_slice : Endianness → List ℕ → Result (List ℕ × SimplePacketBlock)
  from_slice e slice =
      if ltb (length slice) 4 then err (invalid_field "SimplePacketBlock: block length < 4") else do
        (original_len, rest) ← unwrap (read_u32 e slice)
        ok ([], record { original_len = original_len; payload = rest })

  -- `SimplePacketBlock::write_to`
  unfoldable pub write_to : Endianness → SimplePacketBlock → List ℕ × ℕ
  write_to e b = (
    write_u32 e b.original_len ++ (b.payload ++ padding (length b.payload)),
    4 + length b.payload + pad_len (length b.payload),
  )
