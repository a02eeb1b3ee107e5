-- ===== src/PcapNg/Blocks/Packet.antt =====
-- The obsolete packet block of src/pcapng/blocks/packet.rs.
pub mod Options
pub mod RoundTrip
use pcap_file.Common.{
  ℕ, ◌+◌, List, ◌++◌, length, ◌||◌, Result, ok, err, ◌>>=◌, ◌>>◌, guard, unwrap, invalid_field, ltb,
  leb, ◌==◌, if◌then◌else◌, slice_to, slice_from,
}
use pcap_file.ByteOrder.{
  ByteOrder, Endianness, read_u16, read_u32, read_u64, write_u16, write_u32, write_u64,
}
use pcap_file.Utf8.{from_utf8}
use pcap_file.PcapNg.Options.{
  UnknownOption, CustomBinaryOption, CustomUtf8Option, PcapNgOption, custom_binary_from_slice,
  custom_utf8_from_slice, write_bytes_opt, write_u32_opt, write_custom_binary_opt,
  write_custom_utf8_opt, write_unknown_opt, opts_from_slice, write_opts_to, pad_len, padding,
  read_only,
}

-- `PacketOption`; a text is its bytes.
pub data PacketOption : Type 0 where
  comment : List ℕ → PacketOption
  flags : ℕ → PacketOption
  hash : List ℕ → PacketOption
  custom_binary : CustomBinaryOption → PacketOption
  custom_utf8 : CustomUtf8Option → PacketOption
  unknown : UnknownOption → PacketOption

-- `payload` is the field `data`.
pub record PacketBlock : Type 0 where
  pub interface_id : ℕ
  pub drop_count : ℕ
  pub timestamp : ℕ
  pub captured_len : ℕ
  pub original_len : ℕ
  pub payload : List ℕ
  pub options : List PacketOption

module _ ⦃bo : ByteOrder⦄ where
  -- `PacketOption::from_slice`
  unfoldable pub parse_option : Endianness → ℕ → ℕ → List ℕ → Result PacketOption
  unfolding from_utf8 custom_utf8_from_slice custom_binary_from_slice
  parse_option e code len slice =
      if code == 1
      then (from_utf8 slice >>= λ text. ok (comment text))
      else if code == 2
      then (guard (length slice == 4) (invalid_field "PacketOption: Flags length != 4")
          >> (read_only (read_u32 e slice) >>= λ v. ok (flags v)))
      else if code == 3
      then ok (hash slice)
      else if (code == 2988) || (code == 19372)
      then (custom_utf8_from_slice e code slice >>= λ o. ok (custom_utf8 o))
      else if (code == 2989) || (code == 19373)
      then (custom_binary_from_slice e code slice >>= λ o. ok (custom_binary o))
      else ok (unknown (record { code = code; length = len; value = slice }))

  -- `PacketOption::write_to`
  unfoldable pub write_option : Endianness → PacketOption → List ℕ × ℕ
  unfolding write_bytes_opt write_u32_opt write_custom_binary_opt write_custom_utf8_opt
      write_unknown_opt
  write_option e (comment a) = write_bytes_opt e 1 a
  write_option e (flags a) = write_u32_opt e 2 a
  write_option e (hash a) = write_bytes_opt e 3 a
  write_option e (custom_binary a) = write_custom_binary_opt e a
  write_option e (custom_utf8 a) = write_custom_utf8_opt e a
  write_option e (unknown a) = write_unknown_opt e a

  -- `impl PcapNgOption for PacketOption`
  abbrev pub packet_option : PcapNgOption PacketOption
  packet_option = record { from_slice = parse_option; write_to = write_option }

  -- `PacketBlock::from_slice`
  unfoldable pub from_slice : Endianness → List ℕ → Result (List ℕ × PacketBlock)
  unfolding parse_option
  from_slice e slice =
      if ltb (length slice) 20
      then err (invalid_field "EnhancedPacketBlock: block length length < 20")
      else do
        (interface_id, s₁) ← unwrap (read_u16 e slice)
        (drop_count, s₂) ← unwrap (read_u16 e s₁)
        (timestamp, s₃) ← unwrap (read_u64 e s₂)
        (captured_len, s₄) ← unwrap (read_u32 e s₃)
        (original_len, s₅) ← unwrap (read_u32 e s₄)
        let tot_len = captured_len + pad_len captured_len
        guard (leb tot_len (length s₅))
            (invalid_field "EnhancedPacketBlock: captured_len + padding > block length")
        payload ← slice_to captured_len s₅
        s₆ ← slice_from tot_len s₅
        (rem, options) ← opts_from_slice packet_option e s₆
        ok (
          rem,
          record {
            interface_id = interface_id;
            drop_count = drop_count;
            timestamp = timestamp;
            captured_len = captured_len;
            original_len = original_len;
            payload = payload;
            options = options;
          },
        )

  -- `PacketBlock::write_to`; the padding goes by the field `captured_len`.
  unfoldable pub write_to : Endianness → PacketBlock → List ℕ × ℕ
  unfolding write_option
  write_to e b =
      let (opts, opt_len) = write_opts_to packet_option e b.options in
      (
        write_u16 e b.interface_id
            ++ (write_u16 e b.drop_count
                ++ (write_u64 e b.timestamp
                    ++ (write_u32 e b.captured_len
                        ++ (write_u32 e b.original_len
                            ++ (b.payload ++ (padding b.captured_len ++ opts)))))),
        20 + length b.payload + pad_len b.captured_len + opt_len,
      )
