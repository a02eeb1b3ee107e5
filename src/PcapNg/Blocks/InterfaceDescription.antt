-- ===== src/PcapNg/Blocks/InterfaceDescription.antt =====
-- The interface description block of src/pcapng/blocks/interface_description.rs.
pub mod Options
pub mod RoundTrip
pub mod Tzone
use pcap_file.Common.{
  ℕ, ◌+◌, ◌%◌, ◌^◌, List, [], ◌++◌, length, ◌||◌, not, Result, ok, err, ◌>>=◌, ◌>>◌, guard, unwrap,
  invalid_field, ltb, ◌==◌, if◌then◌else◌,
}
use pcap_file.ByteOrder.{
  ByteOrder, Endianness, read_u8, read_u16, read_u32, read_u64, write_u16, write_u32,
}
use pcap_file.Utf8.{from_utf8}
use pcap_file.PcapNg.Options.{
  UnknownOption, CustomBinaryOption, CustomUtf8Option, PcapNgOption, custom_binary_from_slice,
  custom_utf8_from_slice, write_bytes_opt, write_u8_opt, write_u32_opt, write_u64_opt,
  write_custom_binary_opt, write_custom_utf8_opt, write_unknown_opt, opts_from_slice, write_opts_to,
  read_only,
}
use pcap_file.DataLink.{DataLink, from_u32, to_u32}

-- `InterfaceDescriptionOption`; a text is its bytes.
pub data InterfaceDescriptionOption : Type 0 where
  comment : List ℕ → InterfaceDescriptionOption
  if_name : List ℕ → InterfaceDescriptionOption
  if_description : List ℕ → InterfaceDescriptionOption
  if_ipv4_addr : List ℕ → InterfaceDescriptionOption
  if_ipv6_addr : List ℕ → InterfaceDescriptionOption
  if_mac_addr : List ℕ → InterfaceDescriptionOption
  if_eui_addr : ℕ → InterfaceDescriptionOption
  if_speed : ℕ → InterfaceDescriptionOption
  if_ts_resol : ℕ → InterfaceDescriptionOption
  if_tzone : ℕ → InterfaceDescriptionOption
  if_filter : List ℕ → InterfaceDescriptionOption
  if_os : List ℕ → InterfaceDescriptionOption
  if_fcs_len : ℕ → InterfaceDescriptionOption
  if_ts_offset : ℕ → InterfaceDescriptionOption
  if_hardware : List ℕ → InterfaceDescriptionOption
  custom_binary : CustomBinaryOption → InterfaceDescriptionOption
  custom_utf8 : CustomUtf8Option → InterfaceDescriptionOption
  unknown : UnknownOption → InterfaceDescriptionOption

pub record InterfaceDescriptionBlock : Type 0 where
  pub linktype : DataLink
  pub snaplen : ℕ
  pub options : List InterfaceDescriptionOption

-- `InterfaceDescriptionBlock::new`
unfoldable pub new : DataLink → ℕ → InterfaceDescriptionBlock
new linktype snaplen = record { linktype = linktype; snaplen = snaplen; options = [] }

module _ ⦃bo : ByteOrder⦄ where
  -- `InterfaceDescriptionOption::from_slice`
  unfoldable pub parse_option : Endianness → ℕ → ℕ → List ℕ → Result InterfaceDescriptionOption
  unfolding from_utf8 custom_utf8_from_slice custom_binary_from_slice
  parse_option e code len slice =
      if code == 1
      then (from_utf8 slice >>= λ text. ok (comment text))
      else if code == 2
      then (from_utf8 slice >>= λ text. ok (if_name text))
      else if code == 3
      then (from_utf8 slice >>= λ text. ok (if_description text))
      else if code == 4
      then (guard (length slice == 8)
            (invalid_field "InterfaceDescriptionOption: IfIpv4Addr length != 8")
          >> ok (if_ipv4_addr slice))
      else if code == 5
      then (guard (length slice == 17)
            (invalid_field "InterfaceDescriptionOption: IfIpv6Addr length != 17")
          >> ok (if_ipv6_addr slice))
      else if code == 6
      then (guard (length slice == 6)
            (invalid_field "InterfaceDescriptionOption: IfMacAddr length != 6")
          >> ok (if_mac_addr slice))
      else if code == 7
      then (guard (length slice == 8)
            (invalid_field "InterfaceDescriptionOption: IfEuIAddr length != 8")
          >> (read_only (read_u64 e slice) >>= λ v. ok (if_eui_addr v)))
      else if code == 8
      then (guard (length slice == 8)
            (invalid_field "InterfaceDescriptionOption: IfSpeed length != 8")
          >> (read_only (read_u64 e slice) >>= λ v. ok (if_speed v)))
      else if code == 9
      then (guard (length slice == 1)
            (invalid_field "InterfaceDescriptionOption: IfTsResol length != 1")
          >> (read_only (read_u8 slice) >>= λ v. ok (if_ts_resol v)))
      else if code == 10
      then (guard (length slice == 1)
            (invalid_field "InterfaceDescriptionOption: IfTzone length != 1")
          >> (read_only (read_u32 e slice) >>= λ v. ok (if_tzone v)))
      else if code == 11
      then (guard (not (length slice == 0))
            (invalid_field "InterfaceDescriptionOption: IfFilter is empty")
          >> ok (if_filter slice))
      else if code == 12
      then (from_utf8 slice >>= λ text. ok (if_os text))
      else if code == 13
      then (guard (length slice == 1)
            (invalid_field "InterfaceDescriptionOption: IfFcsLen length != 1")
          >> (read_only (read_u8 slice) >>= λ v. ok (if_fcs_len v)))
      else if code == 14
      then (guard (length slice == 8)
            (invalid_field "InterfaceDescriptionOption: IfTsOffset length != 8")
          >> (read_only (read_u64 e slice) >>= λ v. ok (if_ts_offset v)))
      else if code == 15
      then (from_utf8 slice >>= λ text. ok (if_hardware text))
      else if (code == 2988) || (code == 19372)
      then (custom_utf8_from_slice e code slice >>= λ o. ok (custom_utf8 o))
      else if (code == 2989) || (code == 19373)
      then (custom_binary_from_slice e code slice >>= λ o. ok (custom_binary o))
      else ok (unknown (record { code = code; length = len; value = slice }))

  -- `InterfaceDescriptionOption::write_to`
  unfoldable pub write_option : Endianness → InterfaceDescriptionOption → List ℕ × ℕ
  unfolding write_bytes_opt write_u8_opt write_u32_opt write_u64_opt write_custom_binary_opt
      write_custom_utf8_opt write_unknown_opt
  write_option e (comment a) = write_bytes_opt e 1 a
  write_option e (if_name a) = write_bytes_opt e 2 a
  write_option e (if_description a) = write_bytes_opt e 3 a
  write_option e (if_ipv4_addr a) = write_bytes_opt e 4 a
  write_option e (if_ipv6_addr a) = write_bytes_opt e 5 a
  write_option e (if_mac_addr a) = write_bytes_opt e 6 a
  write_option e (if_eui_addr a) = write_u64_opt e 7 a
  write_option e (if_speed a) = write_u64_opt e 8 a
  write_option e (if_ts_resol a) = write_u8_opt e 9 a
  write_option e (if_tzone a) = write_u32_opt e 10 a
  write_option e (if_filter a) = write_bytes_opt e 11 a
  write_option e (if_os a) = write_bytes_opt e 12 a
  write_option e (if_fcs_len a) = write_u8_opt e 13 a
  write_option e (if_ts_offset a) = write_u64_opt e 14 a
  write_option e (if_hardware a) = write_bytes_opt e 15 a
  write_option e (custom_binary a) = write_custom_binary_opt e a
  write_option e (custom_utf8 a) = write_custom_utf8_opt e a
  write_option e (unknown a) = write_unknown_opt e a

  -- `impl PcapNgOption for InterfaceDescriptionOption`
  abbrev pub interface_description_option : PcapNgOption InterfaceDescriptionOption
  interface_description_option = record { from_slice = parse_option; write_to = write_option }

  -- `InterfaceDescriptionBlock::from_slice`
  unfoldable pub from_slice : Endianness → List ℕ → Result (List ℕ × InterfaceDescriptionBlock)
  unfolding parse_option
  from_slice e slice =
      if ltb (length slice) 8
      then err (invalid_field "InterfaceDescriptionBlock: block length < 8")
      else do
        (linktype, s₁) ← unwrap (read_u16 e slice)
        (reserved, s₂) ← unwrap (read_u16 e s₁)
        guard (reserved == 0) (invalid_field "InterfaceDescriptionBlock: reserved != 0")
        (snaplen, s₃) ← unwrap (read_u32 e s₂)
        (rem, options) ← opts_from_slice interface_description_option e s₃
        ok (rem, record { linktype = from_u32 linktype; snaplen = snaplen; options = options })

  -- `InterfaceDescriptionBlock::write_to`
  unfoldable pub write_to : Endianness → InterfaceDescriptionBlock → List ℕ × ℕ
  unfolding write_option
  write_to e b =
      let (opts, opt_len) = write_opts_to interface_description_option e b.options in
      (
        write_u16 e (to_u32 b.linktype % 2 ^ 16)
            ++ (write_u16 e 0 ++ (write_u32 e b.snaplen ++ opts)),
        8 + opt_len,
      )
