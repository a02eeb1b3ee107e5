-- ===== src/PcapNg/Blocks/InterfaceStatistics.antt =====
-- The interface statistics block of src/pcapng/blocks/interface_statistics.rs.
pub mod Options
pub mod RoundTrip
use pcap_file.Common.{
  ℕ, ◌+◌, List, ◌++◌, length, ◌||◌, Result, ok, err, ◌>>=◌, unwrap, invalid_field, ltb, ◌==◌,
  if◌then◌else◌,
}
use pcap_file.ByteOrder.{ByteOrder, Endianness, read_u32, read_u64, write_u32, write_u64}
use pcap_file.Utf8.{from_utf8}
use pcap_file.PcapNg.Options.{
  UnknownOption, CustomBinaryOption, CustomUtf8Option, PcapNgOption, custom_binary_from_slice,
  custom_utf8_from_slice, write_bytes_opt, write_u64_opt, write_custom_binary_opt,
  write_custom_utf8_opt, write_unknown_opt, opts_from_slice, write_opts_to, read_only,
}

-- `InterfaceStatisticsOption`; a text is its bytes.
pub data InterfaceStatisticsOption : Type 0 where
  comment : List ℕ → InterfaceStatisticsOption
  isb_start_time : ℕ → InterfaceStatisticsOption
  isb_end_time : ℕ → InterfaceStatisticsOption
  isb_if_recv : ℕ → InterfaceStatisticsOption
  isb_if_drop : ℕ → InterfaceStatisticsOption
  isb_filter_accept : ℕ → InterfaceStatisticsOption
  isb_os_drop : ℕ → InterfaceStatisticsOption
  isb_usr_deliv : ℕ → InterfaceStatisticsOption
  custom_binary : CustomBinaryOption → InterfaceStatisticsOption
  custom_utf8 : CustomUtf8Option → InterfaceStatisticsOption
  unknown : UnknownOption → InterfaceStatisticsOption

pub record InterfaceStatisticsBlock : Type 0 where
  pub interface_id : ℕ
  pub timestamp : ℕ
  pub options : List InterfaceStatisticsOption

module _ ⦃bo : ByteOrder⦄ where
  -- `InterfaceStatisticsOption::from_slice`
  unfoldable pub parse_option : Endianness → ℕ → ℕ → List ℕ → Result InterfaceStatisticsOption
  unfolding from_utf8 custom_utf8_from_slice custom_binary_from_slice
  parse_option e code len slice =
      if code == 1
      then (from_utf8 slice >>= λ text. ok (comment text))
      else if code == 2
      then (read_only (read_u64 e slice) >>= λ v. ok (isb_start_time v))
      else if code == 3
      then (read_only (read_u64 e slice) >>= λ v. ok (isb_end_time v))
      else if code == 4
      then (read_only (read_u64 e slice) >>= λ v. ok (isb_if_recv v))
      else if code == 5
      then (read_only (read_u64 e slice) >>= λ v. ok (isb_if_drop v))
      else if code == 6
      then (read_only (read_u64 e slice) >>= λ v. ok (isb_filter_accept v))
      else if code == 7
      then (read_only (read_u64 e slice) >>= λ v. ok (isb_os_drop v))
      else if code == 8
      then (read_only (read_u64 e slice) >>= λ v. ok (isb_usr_deliv v))
      else if (code == 2988) || (code == 19372)
      then (custom_utf8_from_slice e code slice >>= λ o. ok (custom_utf8 o))
      else if (code == 2989) || (code == 19373)
      then (custom_binary_from_slice e code slice >>= λ o. ok (custom_binary o))
      else ok (unknown (record { code = code; length = len; value = slice }))

  -- `InterfaceStatisticsOption::write_to`
  unfoldable pub write_option : Endianness → InterfaceStatisticsOption → List ℕ × ℕ
  unfolding write_bytes_opt write_u64_opt write_custom_binary_opt write_custom_utf8_opt
      write_unknown_opt
  write_option e (comment a) = write_bytes_opt e 1 a
  write_option e (isb_start_time a) = write_u64_opt e 2 a
  write_option e (isb_end_time a) = write_u64_opt e 3 a
  write_option e (isb_if_recv a) = write_u64_opt e 4 a
  write_option e (isb_if_drop a) = write_u64_opt e 5 a
  write_option e (isb_filter_accept a) = write_u64_opt e 6 a
  write_option e (isb_os_drop a) = write_u64_opt e 7 a
  write_option e (isb_usr_deliv a) = write_u64_opt e 8 a
  write_option e (custom_binary a) = write_custom_binary_opt e a
  write_option e (custom_utf8 a) = write_custom_utf8_opt e a
  write_option e (unknown a) = write_unknown_opt e a

  -- `impl PcapNgOption for InterfaceStatisticsOption`
  abbrev pub interface_statistics_option : PcapNgOption InterfaceStatisticsOption
  interface_statistics_option = record { from_slice = parse_option; write_to = write_option }

  -- `InterfaceStatisticsBlock::from_slice`
  unfoldable pub from_slice : Endianness → List ℕ → Result (List ℕ × InterfaceStatisticsBlock)
  unfolding parse_option
  from_slice e slice =
      if ltb (length slice) 12
      then err (invalid_field "InterfaceStatisticsBlock: block length < 12")
      else do
        (interface_id, s₁) ← unwrap (read_u32 e slice)
        (timestamp, s₂) ← unwrap (read_u64 e s₁)
        (rem, options) ← opts_from_slice interface_statistics_option e s₂
        ok (rem, record { interface_id = interface_id; timestamp = timestamp; options = options })

  -- `InterfaceStatisticsBlock::write_to`
  unfoldable pub write_to : Endianness → InterfaceStatisticsBlock → List ℕ × ℕ
  unfolding write_option
  write_to e b =
      let (opts, opt_len) = write_opts_to interface_statistics_option e b.options in
      (write_u32 e b.interface_id ++ (write_u64 e b.timestamp ++ opts), 12 + opt_len)
