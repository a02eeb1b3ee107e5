-- ===== src/PcapNg/Blocks/SectionHeader.antt =====
-- The section header block of src/pcapng/blocks/section_header.rs.
pub mod Options
pub mod RoundTrip
use pcap_file.Common.{
  ℕ, ◌+◌, ◌-◌, ◌^◌, List, [], ◌++◌, length, ◌||◌, Result, ok, err, ◌>>=◌, unwrap, invalid_field,
  ltb, ◌==◌, if◌then◌else◌,
}
use pcap_file.ByteOrder.{
  ByteOrder, Endianness, big, little, read_u16, read_u32, read_u64, write_u16, write_u32, write_u64,
}
use pcap_file.Utf8.{from_utf8}
use pcap_file.PcapNg.Options.{
  UnknownOption, CustomBinaryOption, CustomUtf8Option, PcapNgOption, custom_binary_from_slice,
  custom_utf8_from_slice, write_bytes_opt, write_custom_binary_opt, write_custom_utf8_opt,
  write_unknown_opt, opts_from_slice, write_opts_to,
}

-- `SectionHeaderOption`; a text is its bytes.
pub data SectionHeaderOption : Type 0 where
  comment : List ℕ → SectionHeaderOption
  hardware : List ℕ → SectionHeaderOption
  os : List ℕ → SectionHeaderOption
  user_application : List ℕ → SectionHeaderOption
  custom_binary : CustomBinaryOption → SectionHeaderOption
  custom_utf8 : CustomUtf8Option → SectionHeaderOption
  unknown : UnknownOption → SectionHeaderOption

-- `section_length`, an `i64`, is its two's complement pattern.
pub record SectionHeaderBlock : Type 0 where
  pub endianness : Endianness
  pub major_version : ℕ
  pub minor_version : ℕ
  pub section_length : ℕ
  pub options : List SectionHeaderOption

-- `SectionHeaderBlock::default()`; the section length is -1.
abbrev pub default : SectionHeaderBlock
default = record {
  endianness = big;
  major_version = 1;
  minor_version = 0;
  section_length = 2 ^ 64 - 1;
  options = [];
}

module _ ⦃bo : ByteOrder⦄ where
  -- `SectionHeaderOption::from_slice`
  unfoldable pub parse_option : Endianness → ℕ → ℕ → List ℕ → Result SectionHeaderOption
  unfolding from_utf8 custom_utf8_from_slice custom_binary_from_slice
  parse_option e code len slice =
      if code == 1
      then (from_utf8 slice >>= λ text. ok (comment text))
      else if code == 2
      then (from_utf8 slice >>= λ text. ok (hardware text))
      else if code == 3
      then (from_utf8 slice >>= λ text. ok (os text))
      else if code == 4
      then (from_utf8 slice >>= λ text. ok (user_application text))
      else if (code == 2988) || (code == 19372)
      then (custom_utf8_from_slice e code slice >>= λ o. ok (custom_utf8 o))
      else if (code == 2989) || (code == 19373)
      then (custom_binary_from_slice e code slice >>= λ o. ok (custom_binary o))
      else ok (unknown (record { code = code; length = len; value = slice }))

  -- `SectionHeaderOption::write_to`
  unfoldable pub write_option : Endianness → SectionHeaderOption → List ℕ × ℕ
  unfolding write_bytes_opt write_custom_binary_opt write_custom_utf8_opt write_unknown_opt
  write_option e (comment a) = write_bytes_opt e 1 a
  write_option e (hardware a) = write_bytes_opt e 2 a
  write_option e (os a) = write_bytes_opt e 3 a
  write_option e (user_application a) = write_bytes_opt e 4 a
  write_option e (custom_binary a) = write_custom_binary_opt e a
  write_option e (custom_utf8 a) = write_custom_utf8_opt e a
  write_option e (unknown a) = write_unknown_opt e a

  -- `impl PcapNgOption for SectionHeaderOption`
  abbrev pub section_header_option : PcapNgOption SectionHeaderOption
  section_header_option = record { from_slice = parse_option; write_to = write_option }

  -- `parse_inner`, with the block it is used for.
  unfoldable pub parse_inner : Endianness → List ℕ → Result (List ℕ × SectionHeaderBlock)
  unfolding parse_option
  parse_inner e slice = do
    (maj_ver, s₁) ← unwrap (read_u16 e slice)
    (min_ver, s₂) ← unwrap (read_u16 e s₁)
    (sec_len, s₃) ← unwrap (read_u64 e s₂)
    (rem, opts) ← opts_from_slice section_header_option e s₃
    ok (
      rem,
      record {
        endianness = e;
        major_version = maj_ver;
        minor_version = min_ver;
        section_length = sec_len;
        options = opts;
      },
    )

  -- `SectionHeaderBlock::from_slice`; the byte order is read off the block itself.
  unfoldable pub from_slice : List ℕ → Result (List ℕ × SectionHeaderBlock)
  unfolding parse_inner
  from_slice slice =
      if ltb (length slice) 16
      then err (invalid_field "SectionHeaderBlock: block length < 16")
      else do
        (magic, src) ← unwrap (read_u32 big slice)
        if magic == 0x1A2B3C4D
            then parse_inner big src
            else if magic == 0x4D3C2B1A
            then parse_inner little src
            else err (invalid_field "SectionHeaderBlock: invalid magic number")

  -- `SectionHeaderBlock::write_to`: the magic number in the order of the block, the rest in `e`.
  unfoldable pub write_to : Endianness → SectionHeaderBlock → List ℕ × ℕ
  unfolding write_option
  write_to e b =
      let (opts, opt_len) = write_opts_to section_header_option e b.options in
      (
        write_u32 b.endianness 0x1A2B3C4D
            ++ (write_u16 e b.major_version
                ++ (write_u16 e b.minor_version ++ (write_u64 e b.section_length ++ opts))),
        16 + opt_len,
      )
