-- ===== src/PcapNg/Blocks/EnhancedPacket.antt =====
-- The enhanced packet block of src/pcapng/blocks/enhanced_packet.rs.
pub mod Options
pub mod RoundTrip
use pcap_file.Common.{
  ℕ, zero, suc, ◌+◌, ◌-◌, ◌*◌, ◌/◌, ◌%◌, ◌^◌, ◌<◌, ◌≤◌, ◌≡◌, ◌≢◌, List, [], ◌∷◌, ◌++◌, length, take,
  drop, Option, some, none, Bool, true, false, ◌||◌, not, Result, ok, err, panic, ◌>>=◌, ◌>>◌,
  guard, unwrap, ok_or, invalid_field, incomplete_buffer, ltb, leb, ◌==◌, if◌then◌else◌, slice_to,
  slice_from,
}
use pcap_file.ByteOrder.{
  ByteOrder, Endianness, big, little, read_u8, read_u16, read_u32, read_u64, write_u16, write_u32,
  write_u64,
}
use pcap_file.Utf8.{from_utf8}
use pcap_file.PcapNg.Options.{
  UnknownOption, CustomBinaryOption, CustomUtf8Option, PcapNgOption, custom_binary_from_slice,
  custom_utf8_from_slice, write_bytes_opt, write_u8_opt, write_u16_opt, write_u32_opt,
  write_u64_opt, write_custom_binary_opt, write_custom_utf8_opt, write_unknown_opt, opts_from_slice,
  write_opts_to, pad_len, padding, read_only,
}
use pcap_file.Duration.{Duration, from_nanos, as_nanos}

-- `EnhancedPacketOption`; a text is its bytes.
pub data EnhancedPacketOption : Type 0 where
  comment : List ℕ → EnhancedPacketOption
  flags : ℕ → EnhancedPacketOption
  hash : List ℕ → EnhancedPacketOption
  drop_count : ℕ → EnhancedPacketOption
  custom_binary : CustomBinaryOption → EnhancedPacketOption
  custom_utf8 : CustomUtf8Option → EnhancedPacketOption
  unknown : UnknownOption → EnhancedPacketOption

-- `payload` is the field `data`.
pub record EnhancedPacketBlock : Type 0 where
  pub interface_id : ℕ
  pub timestamp : Duration
  pub original_len : ℕ
  pub payload : List ℕ
  pub options : List EnhancedPacketOption

module _ ⦃bo : ByteOrder⦄ where
  -- `EnhancedPacketOption::from_slice`
  unfoldable pub parse_option : Endianness → ℕ → ℕ → List ℕ → Result EnhancedPacketOption
  unfolding from_utf8 custom_utf8_from_slice custom_binary_from_slice
  parse_option e code len slice =
      if code == 1
      then (from_utf8 slice >>= λ text. ok (comment text))
      else if code == 2
      then (guard (length slice == 4) (invalid_field "EnhancedPacketOption: Flags length != 4")
          >> (read_only (read_u32 e slice) >>= λ v. ok (flags v)))
      else if code == 3
      then ok (hash slice)
      else if code == 4
      then (guard (length slice == 8) (invalid_field "EnhancedPacketOption: DropCount length != 8")
          >> (read_only (read_u64 e slice) >>= λ v. ok (drop_count v)))
      else if (code == 2988) || (code == 19372)
      then (custom_utf8_from_slice e code slice >>= λ o. ok (custom_utf8 o))
      else if (code == 2989) || (code == 19373)
      then (custom_binary_from_slice e code slice >>= λ o. ok (custom_binary o))
      else ok (unknown (record { code = code; length = len; value = slice }))

  -- `EnhancedPacketOption::write_to`
  unfoldable pub write_option : Endianness → EnhancedPacketOption → List ℕ × ℕ
  unfolding write_bytes_opt write_u32_opt write_u64_opt write_custom_binary_opt
      write_custom_utf8_opt write_unknown_opt
  write_option e (comment a) = write_bytes_opt e 1 a
  write_option e (flags a) = write_u32_opt e 2 a
  write_option e (hash a) = write_bytes_opt e 3 a
  write_option e (drop_count a) = write_u64_opt e 4 a
  write_option e (custom_binary a) = write_custom_binary_opt e a
  write_option e (custom_utf8 a) = write_custom_utf8_opt e a
  write_option e (unknown a) = write_unknown_opt e a

  -- `impl PcapNgOption for EnhancedPacketOption`
  abbrev pub enhanced_packet_option : PcapNgOption EnhancedPacketOption
  enhanced_packet_option = record { from_slice = parse_option; write_to = write_option }

  -- `EnhancedPacketBlock::from_slice`; the timestamp is a number of nanoseconds.
  unfoldable pub from_slice : Endianness → List ℕ → Result (List ℕ × EnhancedPacketBlock)
  unfolding parse_option
  from_slice e slice =
      if ltb (length slice) 20
      then err (invalid_field "EnhancedPacketBlock: block length length < 20")
      else do
        (interface_id, s₁) ← unwrap (read_u32 e slice)
        (timestamp_high, s₂) ← unwrap (read_u32 e s₁)
        (timestamp_low, s₃) ← unwrap (read_u32 e s₂)
        (captured_len, s₄) ← unwrap (read_u32 e s₃)
        (original_len, s₅) ← unwrap (read_u32 e s₄)
        let tot_len = captured_len + pad_len captured_len
        guard (leb tot_len (length s₅))
            (invalid_field "EnhancedPacketBlock: captured_len + padding > block length")
        payload ← slice_to captured_len s₅
        s₆ ← slice_from tot_len s₅
        (rem, options) ← opts_from_slice enhanced_packet_option e s₆
        ok (
          rem,
          record {
            interface_id = interface_id;
            timestamp = from_nanos (timestamp_high * 2 ^ 32 + timestamp_low);
            original_len = original_len;
            payload = payload;
            options = options;
          },
        )

  -- `EnhancedPacketBlock::write_to`
  unfoldable pub write_to : Endianness → EnhancedPacketBlock → List ℕ × ℕ
  unfolding write_option
  write_to e b =
      let timestamp = as_nanos b.timestamp in
      let (opts, opt_len) = write_opts_to enhanced_packet_option e b.options in
      (
        write_u32 e b.interface_id
            ++ (write_u32 e (timestamp / 2 ^ 32 % 2 ^ 32)
                ++ (write_u32 e (timestamp % 2 ^ 32)
                    ++ (write_u32 e (length b.payload % 2 ^ 32)
                        ++ (write_u32 e b.original_len
                            ++ (b.payload ++ (padding (length b.payload) ++ opts)))))),
        20 + length b.payload + pad_len (length b.payload) + opt_len,
      )
