-- ===== src/PcapNg/Blocks/Packet/RoundTrip.antt =====
-- Packet blocks that were written are read back.
use pcap_file.Common.{
  ℕ, ◌+◌, ◌%◌, ◌<◌, ◌≤◌, ◌≡◌, List, [], ◌++◌, append_assoc, length, length-append, take-append,
  drop-append, All, ok, arith, le→leb, le→ltb, slice_to_lem, slice_from_lem,
}
use pcap_file.ByteOrder.{ByteOrder, Endianness}
use pcap_file.ByteOrder.Laws.{read-write}
use pcap_file.PcapNg.Options.{pad_len, padding, write_opts_to}
use pcap_file.PcapNg.Options.RoundTrip.{
  length-padding, opts_from_slice-write_opts_to, length-write_opts_to,
}
use pcap_file.PcapNg.Options.Layouts.{write_opts_to_words}
use pcap_file.PcapNg.Blocks.Packet.Options.{IsValidOption, options-IsReadable}
use pcap_file.PcapNg.Blocks.Packet.{PacketBlock, packet_option, from_slice, write_to}

-- A block with fields of their widths, whose captured length is that of its payload, and valid options.
pub record IsValid (b : PacketBlock) : Type 0 where
  pub interface_u16 : b.interface_id < 65536
  pub drop_count_u16 : b.drop_count < 65536
  pub timestamp_u64 : b.timestamp < 18446744073709551616
  pub captured_u32 : b.captured_len < 4294967296
  pub original_u32 : b.original_len < 4294967296
  pub payload_captured : length b.payload ≡ b.captured_len
  pub options_valid : All IsValidOption b.options

module _ ⦃bo : ByteOrder⦄ where
  pub length-write_to_packet_block :
      (e : Endianness) (b : PacketBlock)
      → IsValid b
      → (length (write_to e b).0 ≡ (write_to e b).1) × ((write_to e b).1 % 4 ≡ 0)
  unfolding write_to
  length-write_to_packet_block e b v =
      let rs = options-IsReadable e b.options v.options_valid in
      let l = length-write_opts_to packet_option e b.options rs in
      let w = write_opts_to_words packet_option e b.options rs in
      (
        simp (length-append, bo.length-write, length-padding) (omega (arith, l)),
        omega (arith, w, v.payload_captured),
      )

  -- A valid packet block (fields of their widths, the captured length that of the payload, valid
  -- options) is read back from what was written for it, with nothing left over.
  pub from_slice-write_to_packet_block :
      (e : Endianness) (b : PacketBlock) → IsValid b → from_slice e (write_to e b).0 ≡ ok ([], b)
  unfolding from_slice write_to
  from_slice-write_to_packet_block e b v = rw (
    le→ltb _ 20 long,
    read-write 2 e b.interface_id _ (omega (arith, v.interface_u16)),
    read-write 2 e b.drop_count _ (omega (arith, v.drop_count_u16)),
    read-write 8 e b.timestamp _ (omega (arith, v.timestamp_u64)),
    read-write 4 e b.captured_len _ (omega (arith, v.captured_u32)),
    read-write 4 e b.original_len _ (omega (arith, v.original_u32)),
    le→leb (n + pad_len n) (length src) (omega (arith, total)),
    slice_to_lem n src (omega (arith, total)),
    slice_from_lem (n + pad_len n) src (omega (arith, total)),
    take-append n b.payload (padding n ++ opts) v.payload_captured,
    ← append_assoc b.payload (padding n) opts,
    drop-append (n + pad_len n) (b.payload ++ padding n) opts padded,
    opts_from_slice-write_opts_to packet_option e b.options
        (options-IsReadable e b.options v.options_valid),
  )
    where
      n : ℕ
      n = b.captured_len

      opts : List ℕ
      opts = (write_opts_to packet_option e b.options).0

      src : List ℕ
      src = b.payload ++ (padding n ++ opts)

      padded : length (b.payload ++ padding n) ≡ n + pad_len n
      padded = simp (length-append, length-padding) (omega (arith, v.payload_captured))

      total : length src ≡ n + pad_len n + length opts
      total = simp (length-append, length-padding) (omega (arith, v.payload_captured))

      long : 20 ≤ length (write_to e b).0
      long = simp (length-append, bo.length-write) (omega arith)
