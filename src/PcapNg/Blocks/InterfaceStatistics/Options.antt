-- ===== src/PcapNg/Blocks/InterfaceStatistics/Options.antt =====
-- The options of an interface statistics block, written and read back.
use pcap_file.Common.{
  ℕ, ◌<◌, ◌≡◌, refl, List, All, ok, ◌>>=◌, arith, ◌==◌, ne→==, false, ◌||◌, ◌⊎◌, inl, inr,
}
use pcap_file.ByteOrder.{ByteOrder, Endianness}
use pcap_file.Utf8.{from_utf8}
use pcap_file.PcapNg.Options.{custom_binary_from_slice, custom_utf8_from_slice}
use pcap_file.PcapNg.Options.RoundTrip.{IsReadable}
use pcap_file.PcapNg.Options.Readable.{
  IsText, IsCustomBinary, IsCustomUtf8, IsUnknown, text-IsReadable, u64-IsReadable,
  custom_binary-IsReadable, custom_utf8-IsReadable, unknown-IsReadable, list-IsReadable,
}
use pcap_file.PcapNg.Blocks.InterfaceStatistics.{
  InterfaceStatisticsOption, comment, isb_start_time, isb_end_time, isb_if_recv, isb_if_drop,
  isb_filter_accept, isb_os_drop, isb_usr_deliv, custom_binary, custom_utf8, unknown, parse_option,
  write_option, interface_statistics_option,
}

-- An option with fields of their widths, a text that is UTF-8, and a code of its own kind.
unfoldable pub IsValidOption : InterfaceStatisticsOption → Type 0
IsValidOption (comment a) = IsText a
IsValidOption (isb_start_time v) = v < 18446744073709551616
IsValidOption (isb_end_time v) = v < 18446744073709551616
IsValidOption (isb_if_recv v) = v < 18446744073709551616
IsValidOption (isb_if_drop v) = v < 18446744073709551616
IsValidOption (isb_filter_accept v) = v < 18446744073709551616
IsValidOption (isb_os_drop v) = v < 18446744073709551616
IsValidOption (isb_usr_deliv v) = v < 18446744073709551616
IsValidOption (custom_binary o) = IsCustomBinary o
IsValidOption (custom_utf8 o) = IsCustomUtf8 o
IsValidOption (unknown o) = IsUnknown 8 o

module _ ⦃bo : ByteOrder⦄ where
  binary_arm :
      (e : Endianness) (code len : ℕ) (slice : List ℕ)
      → (code ≡ 2989) ⊎ (code ≡ 19373)
      → parse_option e code len slice
        ≡ (custom_binary_from_slice e code slice >>= λ o. ok (custom_binary o))
  unfolding parse_option
  binary_arm e code len slice (inl c) = rw c refl
  binary_arm e code len slice (inr c) = rw c refl

  utf8_arm :
      (e : Endianness) (code len : ℕ) (slice : List ℕ)
      → (code ≡ 2988) ⊎ (code ≡ 19372)
      → parse_option e code len slice
        ≡ (custom_utf8_from_slice e code slice >>= λ o. ok (custom_utf8 o))
  unfolding parse_option
  utf8_arm e code len slice (inl c) = rw c refl
  utf8_arm e code len slice (inr c) = rw c refl

  unknown_arm :
      (e : Endianness) (code len : ℕ) (slice : List ℕ)
      → 8 < code
      → (code == 2988) || (code == 19372) ≡ false
      → (code == 2989) || (code == 19373) ≡ false
      → parse_option e code len slice
        ≡ ok (unknown (record { code = code; length = len; value = slice }))
  unfolding parse_option
  unknown_arm e code len slice g n m = rw (
    ne→== code 1 (λ z. omega (arith, g, z)),
    ne→== code 2 (λ z. omega (arith, g, z)),
    ne→== code 3 (λ z. omega (arith, g, z)),
    ne→== code 4 (λ z. omega (arith, g, z)),
    ne→== code 5 (λ z. omega (arith, g, z)),
    ne→== code 6 (λ z. omega (arith, g, z)),
    ne→== code 7 (λ z. omega (arith, g, z)),
    ne→== code 8 (λ z. omega (arith, g, z)),
    n,
    m,
  )

  -- Such an option is written as a code and a value, from which it is read back.
  option-IsReadable :
      (e : Endianness) (o : InterfaceStatisticsOption)
      → IsValidOption o
      → IsReadable interface_statistics_option e o
  unfolding parse_option write_option IsValidOption from_utf8
  option-IsReadable e (comment a) h =
      text-IsReadable _ e comment 1 a (omega arith, λ z. omega (arith, z)) h refl refl
  option-IsReadable e (isb_start_time v) h =
      u64-IsReadable _ e isb_start_time 2 v (omega arith, λ z. omega (arith, z)) h refl
        λ slice l. refl
  option-IsReadable e (isb_end_time v) h =
      u64-IsReadable _ e isb_end_time 3 v (omega arith, λ z. omega (arith, z)) h refl
        λ slice l. refl
  option-IsReadable e (isb_if_recv v) h =
      u64-IsReadable _ e isb_if_recv 4 v (omega arith, λ z. omega (arith, z)) h refl λ slice l. refl
  option-IsReadable e (isb_if_drop v) h =
      u64-IsReadable _ e isb_if_drop 5 v (omega arith, λ z. omega (arith, z)) h refl λ slice l. refl
  option-IsReadable e (isb_filter_accept v) h =
      u64-IsReadable _ e isb_filter_accept 6 v (omega arith, λ z. omega (arith, z)) h refl
        λ slice l. refl
  option-IsReadable e (isb_os_drop v) h =
      u64-IsReadable _ e isb_os_drop 7 v (omega arith, λ z. omega (arith, z)) h refl λ slice l. refl
  option-IsReadable e (isb_usr_deliv v) h =
      u64-IsReadable _ e isb_usr_deliv 8 v (omega arith, λ z. omega (arith, z)) h refl
        λ slice l. refl
  option-IsReadable e (custom_binary o) h =
      custom_binary-IsReadable _ e custom_binary o h refl (binary_arm e)
  option-IsReadable e (custom_utf8 o) h =
      custom_utf8-IsReadable _ e custom_utf8 o h refl (utf8_arm e)
  option-IsReadable e (unknown o) (g, c, n, m, k, l) =
      unknown-IsReadable _ e unknown 8 o (g, c, n, m, k, l) refl
        λ len slice. unknown_arm e o.code len slice g n m

  pub options-IsReadable :
      (e : Endianness) (opts : List InterfaceStatisticsOption)
      → All IsValidOption opts
      → All (IsReadable interface_statistics_option e) opts
  options-IsReadable e opts =
      list-IsReadable interface_statistics_option e opts (option-IsReadable e)
