-- ===== src/PcapNg/Blocks/SectionHeader/RoundTrip.antt =====
-- Section header blocks that were written are read back, in either byte order.
use pcap_file.Common.{
  ◌%◌, ◌<◌, ◌≤◌, ◌≡◌, refl, [], ◌++◌, length, length-append, All, ok, arith, le→ltb,
}
use pcap_file.ByteOrder.{ByteOrder, Endianness, big, little}
use pcap_file.ByteOrder.Laws.{read-write, read-write_other}
use pcap_file.PcapNg.Options.{write_opts_to}
use pcap_file.PcapNg.Options.RoundTrip.{opts_from_slice-write_opts_to, length-write_opts_to}
use pcap_file.PcapNg.Options.Layouts.{write_opts_to_words}
use pcap_file.PcapNg.Blocks.SectionHeader.Options.{IsValidOption, options-IsReadable}
use pcap_file.PcapNg.Blocks.SectionHeader.{
  SectionHeaderBlock, section_header_option, parse_inner, from_slice, write_to,
}

-- A block with fields of their widths and valid options.
pub record IsValid (b : SectionHeaderBlock) : Type 0 where
  pub major_u16 : b.major_version < 65536
  pub minor_u16 : b.minor_version < 65536
  pub section_length_u64 : b.section_length < 18446744073709551616
  pub options_valid : All IsValidOption b.options

module _ ⦃bo : ByteOrder⦄ where
  pub length-write_to_section :
      (e : Endianness) (b : SectionHeaderBlock)
      → IsValid b
      → (length (write_to e b).0 ≡ (write_to e b).1) × ((write_to e b).1 % 4 ≡ 0)
  unfolding write_to
  length-write_to_section e b v =
      let rs = options-IsReadable e b.options v.options_valid in
      let l = length-write_opts_to section_header_option e b.options rs in
      let w = write_opts_to_words section_header_option e b.options rs in
      (simp (length-append, bo.length-write) (omega (arith, l)), omega (arith, w))

  parse_inner_lem :
      (e : Endianness) (b : SectionHeaderBlock)
      → IsValid b
      → parse_inner e (
          bo.write_uint 2 e b.major_version
          ++ (bo.write_uint 2 e b.minor_version
              ++ (bo.write_uint 8 e b.section_length
                  ++ (write_opts_to section_header_option e b.options).0)))
        ≡ ok ([], record b { endianness = e })
  unfolding parse_inner
  parse_inner_lem e b v = rw (
    read-write 2 e b.major_version _ (omega (arith, v.major_u16)),
    read-write 2 e b.minor_version _ (omega (arith, v.minor_u16)),
    read-write 8 e b.section_length _ (omega (arith, v.section_length_u64)),
    opts_from_slice-write_opts_to section_header_option e b.options
        (options-IsReadable e b.options v.options_valid),
  )

  -- A valid section header block (fields of their widths, valid options) is read back from what was
  -- written for it in its own byte order, which is found again, with nothing left over.
  pub from_slice-write_to_section :
      (b : SectionHeaderBlock) → IsValid b → from_slice (write_to b.endianness b).0 ≡ ok ([], b)
  unfolding from_slice
  from_slice-write_to_section b v = go b.endianness refl
    where
      long : (e : Endianness) → 16 ≤ length (write_to e b).0
      long e = unfold write_to in simp (length-append, bo.length-write) (omega arith)

      go : (e : Endianness) → b.endianness ≡ e → from_slice (write_to e b).0 ≡ ok ([], b)
      go big q = rw (le→ltb _ 16 (long big)) (
          unfold write_to in
          rw (q, read-write 4 big 0x1A2B3C4D _ (omega arith)) (parse_inner_lem big b v))
      go little q = rw (le→ltb _ 16 (long little)) (
          unfold write_to in
          rw (q, read-write_other little 0x1A2B3C4D _ (omega arith)) (parse_inner_lem little b v))
