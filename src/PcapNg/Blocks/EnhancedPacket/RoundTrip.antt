-- ===== src/PcapNg/Blocks/EnhancedPacket/RoundTrip.antt =====
-- Enhanced packet blocks that were written are read back.
use pcap_file.Common.{
  ℕ, ◌+◌, ◌*◌, ◌/◌, ◌%◌, ◌^◌, ◌<◌, ◌≤◌, ◌≡◌, refl, ap, ◌∙◌, List, [], ◌++◌, append_assoc, length,
  length-append, take-append, drop-append, All, ok, arith, le→leb, le→ltb, slice_to_lem,
  slice_from_lem,
}
use pcap_file.ByteOrder.{ByteOrder, Endianness}
use pcap_file.ByteOrder.Laws.{read-write}
use pcap_file.Duration.{as_nanos, from_nanos, from_nanos-as_nanos}
use pcap_file.PcapNg.Options.{pad_len, padding, write_opts_to}
use pcap_file.PcapNg.Options.RoundTrip.{
  length-padding, opts_from_slice-write_opts_to, length-write_opts_to,
}
use pcap_file.PcapNg.Options.Layouts.{write_opts_to_words}
use pcap_file.PcapNg.Blocks.EnhancedPacket.Options.{IsValidOption, options-IsReadable}
use pcap_file.PcapNg.Blocks.EnhancedPacket.{
  EnhancedPacketBlock, enhanced_packet_option, from_slice, write_to,
}

-- A block with fields of their widths, a payload that a block can hold, a time that 64 bits of
-- nanoseconds can hold, and valid options.
pub record IsValid (b : EnhancedPacketBlock) : Type 0 where
  pub interface_u32 : b.interface_id < 4294967296
  pub original_u32 : b.original_len < 4294967296
  pub payload_u32 : length b.payload < 4294967296
  pub timestamp_nanos : b.timestamp.nanos < 1000000000
  pub timestamp_u64 : as_nanos b.timestamp < 18446744073709551616
  pub options_valid : All IsValidOption b.options

module _ ⦃bo : ByteOrder⦄ where
  pub length-write_to_enhanced :
      (e : Endianness) (b : EnhancedPacketBlock)
      → IsValid b
      → (length (write_to e b).0 ≡ (write_to e b).1) × ((write_to e b).1 % 4 ≡ 0)
  unfolding write_to
  length-write_to_enhanced e b v =
      let rs = options-IsReadable e b.options v.options_valid in
      let l = length-write_opts_to enhanced_packet_option e b.options rs in
      let w = write_opts_to_words enhanced_packet_option e b.options rs in
      (simp (length-append, bo.length-write, length-padding) (omega (arith, l)), omega (arith, w))

  -- A valid enhanced packet block (fields of their widths, a time in 64 bits of nanoseconds, valid
  -- options) is read back from what was written for it, its time and its options included, with
  -- nothing left over.
  pub from_slice-write_to_enhanced :
      (e : Endianness) (b : EnhancedPacketBlock)
      → IsValid b
      → from_slice e (write_to e b).0 ≡ ok ([], b)
  unfolding from_slice
  from_slice-write_to_enhanced e b v = rw (le→ltb _ 20 long) (
      unfold write_to in
      simp
        (
          read-write 4 e b.interface_id _ v.interface_u32,
          read-write 4 e (as_nanos b.timestamp / 2 ^ 32 % 2 ^ 32) _ (omega arith),
          read-write 4 e (as_nanos b.timestamp % 2 ^ 32) _ (omega arith),
          read-write 4 e (length b.payload % 2 ^ 32) _ (omega arith),
          read-write 4 e b.original_len _ v.original_u32,
        )
        (rw (
          whole,
          le→leb (n + pad_len n) (length src) (omega (arith, total)),
          slice_to_lem n src (omega (arith, total)),
          slice_from_lem (n + pad_len n) src (omega (arith, total)),
          take-append n b.payload (padding n ++ opts) refl,
          ← append_assoc b.payload (padding n) opts,
          drop-append (n + pad_len n) (b.payload ++ padding n) opts padded,
          opts_from_slice-write_opts_to enhanced_packet_option e b.options
              (options-IsReadable e b.options v.options_valid),
          time,
        )))
    where
      n : ℕ
      n = length b.payload

      opts : List ℕ
      opts = (write_opts_to enhanced_packet_option e b.options).0

      src : List ℕ
      src = b.payload ++ (padding n ++ opts)

      whole : n % 2 ^ 32 ≡ n
      whole = omega (arith, v.payload_u32)

      padded : length (b.payload ++ padding n) ≡ n + pad_len n
      padded = simp (length-append, length-padding)

      total : length src ≡ n + pad_len n + length opts
      total = simp (length-append, length-padding) (omega arith)

      joined :
          as_nanos b.timestamp / 2 ^ 32 % 2 ^ 32 * 2 ^ 32 + as_nanos b.timestamp % 2 ^ 32
          ≡ as_nanos b.timestamp
      joined = omega (arith, v.timestamp_u64)

      time :
          from_nanos
            (as_nanos b.timestamp / 2 ^ 32 % 2 ^ 32 * 2 ^ 32 + as_nanos b.timestamp % 2 ^ 32)
          ≡ b.timestamp
      time = ap from_nanos joined ∙ from_nanos-as_nanos b.timestamp v.timestamp_nanos

      long : 20 ≤ length (write_to e b).0
      long = unfold write_to in simp (length-append, bo.length-write) (omega arith)
