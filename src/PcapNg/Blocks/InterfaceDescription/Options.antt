-- ===== src/PcapNg/Blocks/InterfaceDescription/Options.antt =====
-- The options of an interface description block, written and read back.
use pcap_file.Common.{
  ℕ, ◌<◌, ◌≡◌, refl, List, length, All, ok, ◌>>=◌, arith, ◌==◌, ne→==, false, ◌||◌, ◌⊎◌, inl, inr,
}
use pcap_file.ByteOrder.{ByteOrder, Endianness}
use pcap_file.Utf8.{from_utf8}
use pcap_file.PcapNg.Options.{custom_binary_from_slice, custom_utf8_from_slice}
use pcap_file.PcapNg.Options.RoundTrip.{IsReadable}
use pcap_file.PcapNg.Options.Readable.{
  IsText, IsCustomBinary, IsCustomUtf8, IsUnknown, text-IsReadable, bytes-IsReadable, u8-IsReadable,
  u64-IsReadable, custom_binary-IsReadable, custom_utf8-IsReadable, unknown-IsReadable,
  list-IsReadable,
}
use pcap_file.PcapNg.Blocks.InterfaceDescription.{
  InterfaceDescriptionOption, comment, if_name, if_description, if_ipv4_addr, if_ipv6_addr,
  if_mac_addr, if_eui_addr, if_speed, if_ts_resol, if_tzone, if_filter, if_os, if_fcs_len,
  if_ts_offset, if_hardware, custom_binary, custom_utf8, unknown, parse_option, write_option,
  interface_description_option,
}

-- An option with fields of their widths, a text that is UTF-8, and a code of its own kind. No
-- `if_tzone` is readable.
unfoldable pub IsValidOption : InterfaceDescriptionOption → Type 0
IsValidOption (comment a) = IsText a
IsValidOption (if_name a) = IsText a
IsValidOption (if_description a) = IsText a
IsValidOption (if_ipv4_addr a) = length a ≡ 8
IsValidOption (if_ipv6_addr a) = length a ≡ 17
IsValidOption (if_mac_addr a) = length a ≡ 6
IsValidOption (if_eui_addr v) = v < 18446744073709551616
IsValidOption (if_speed v) = v < 18446744073709551616
IsValidOption (if_ts_resol v) = v < 256
IsValidOption (if_tzone _) = ⊥
IsValidOption (if_filter a) = (0 < length a) × (length a < 65536)
IsValidOption (if_os a) = IsText a
IsValidOption (if_fcs_len v) = v < 256
IsValidOption (if_ts_offset v) = v < 18446744073709551616
IsValidOption (if_hardware a) = IsText a
IsValidOption (custom_binary o) = IsCustomBinary o
IsValidOption (custom_utf8 o) = IsCustomUtf8 o
IsValidOption (unknown o) = IsUnknown 15 o

module _ ⦃bo : ByteOrder⦄ where
  binary_arm :
      (e : Endianness) (code len : ℕ) (slice : List ℕ)
      → (code ≡ 2989) ⊎ (code ≡ 19373)
      → parse_option e code len slice
        ≡ (custom_binary_from_slice e code slice >>= λ o. ok (custom_binary o))
  unfolding parse_option
  binary_arm e code len slice (inl c) = rw c refl
  binary_arm e code len slice (inr c) = rw c refl

  utf8_arm :
      (e : Endianness) (code len : ℕ) (slice : List ℕ)
      → (code ≡ 2988) ⊎ (code ≡ 19372)
      → parse_option e code len slice
        ≡ (custom_utf8_from_slice e code slice >>= λ o. ok (custom_utf8 o))
  unfolding parse_option
  utf8_arm e code len slice (inl c) = rw c refl
  utf8_arm e code len slice (inr c) = rw c refl

  unknown_arm :
      (e : Endianness) (code len : ℕ) (slice : List ℕ)
      → 15 < code
      → (code == 2988) || (code == 19372) ≡ false
      → (code == 2989) || (code == 19373) ≡ false
      → parse_option e code len slice
        ≡ ok (unknown (record { code = code; length = len; value = slice }))
  unfolding parse_option
  unknown_arm e code len slice g n m = rw (
    ne→== code 1 (λ z. omega (arith, g, z)),
    ne→== code 2 (λ z. omega (arith, g, z)),
    ne→== code 3 (λ z. omega (arith, g, z)),
    ne→== code 4 (λ z. omega (arith, g, z)),
    ne→== code 5 (λ z. omega (arith, g, z)),
    ne→== code 6 (λ z. omega (arith, g, z)),
    ne→== code 7 (λ z. omega (arith, g, z)),
    ne→== code 8 (λ z. omega (arith, g, z)),
    ne→== code 9 (λ z. omega (arith, g, z)),
    ne→== code 10 (λ z. omega (arith, g, z)),
    ne→== code 11 (λ z. omega (arith, g, z)),
    ne→== code 12 (λ z. omega (arith, g, z)),
    ne→== code 13 (λ z. omega (arith, g, z)),
    ne→== code 14 (λ z. omega (arith, g, z)),
    ne→== code 15 (λ z. omega (arith, g, z)),
    n,
    m,
  )

  -- Such an option is written as a code and a value, from which it is read back.
  option-IsReadable :
      (e : Endianness) (o : InterfaceDescriptionOption)
      → IsValidOption o
      → IsReadable interface_description_option e o
  unfolding parse_option write_option IsValidOption from_utf8
  option-IsReadable e (comment a) h =
      text-IsReadable _ e comment 1 a (omega arith, λ z. omega (arith, z)) h refl refl
  option-IsReadable e (if_name a) h =
      text-IsReadable _ e if_name 2 a (omega arith, λ z. omega (arith, z)) h refl refl
  option-IsReadable e (if_description a) h =
      text-IsReadable _ e if_description 3 a (omega arith, λ z. omega (arith, z)) h refl refl
  option-IsReadable e (if_ipv4_addr a) h =
      bytes-IsReadable _ e (if_ipv4_addr a) 4 a (omega arith, λ z. omega (arith, z))
        (omega (arith, h)) refl (rw h refl)
  option-IsReadable e (if_ipv6_addr a) h =
      bytes-IsReadable _ e (if_ipv6_addr a) 5 a (omega arith, λ z. omega (arith, z))
        (omega (arith, h)) refl (rw h refl)
  option-IsReadable e (if_mac_addr a) h =
      bytes-IsReadable _ e (if_mac_addr a) 6 a (omega arith, λ z. omega (arith, z))
        (omega (arith, h)) refl (rw h refl)
  option-IsReadable e (if_eui_addr v) h =
      u64-IsReadable _ e if_eui_addr 7 v (omega arith, λ z. omega (arith, z)) h refl
        λ slice l. rw l refl
  option-IsReadable e (if_speed v) h =
      u64-IsReadable _ e if_speed 8 v (omega arith, λ z. omega (arith, z)) h refl
        λ slice l. rw l refl
  option-IsReadable e (if_ts_resol v) h =
      u8-IsReadable _ e if_ts_resol 9 v (omega arith, λ z. omega (arith, z)) h refl
        λ slice l. rw l refl
  option-IsReadable e (if_tzone _) h = elim h [ ]
  option-IsReadable e (if_filter a) (p, h) =
      bytes-IsReadable _ e (if_filter a) 11 a (omega arith, λ z. omega (arith, z)) h refl
        (rw (ne→== (length a) 0 (λ z. omega (arith, p, z))))
  option-IsReadable e (if_os a) h =
      text-IsReadable _ e if_os 12 a (omega arith, λ z. omega (arith, z)) h refl refl
  option-IsReadable e (if_fcs_len v) h =
      u8-IsReadable _ e if_fcs_len 13 v (omega arith, λ z. omega (arith, z)) h refl
        λ slice l. rw l refl
  option-IsReadable e (if_ts_offset v) h =
      u64-IsReadable _ e if_ts_offset 14 v (omega arith, λ z. omega (arith, z)) h refl
        λ slice l. rw l refl
  option-IsReadable e (if_hardware a) h =
      text-IsReadable _ e if_hardware 15 a (omega arith, λ z. omega (arith, z)) h refl refl
  option-IsReadable e (custom_binary o) h =
      custom_binary-IsReadable _ e custom_binary o h refl (binary_arm e)
  option-IsReadable e (custom_utf8 o) h =
      custom_utf8-IsReadable _ e custom_utf8 o h refl (utf8_arm e)
  option-IsReadable e (unknown o) (g, c, n, m, k, l) =
      unknown-IsReadable _ e unknown 15 o (g, c, n, m, k, l) refl
        λ len slice. unknown_arm e o.code len slice g n m

  pub options-IsReadable :
      (e : Endianness) (opts : List InterfaceDescriptionOption)
      → All IsValidOption opts
      → All (IsReadable interface_description_option e) opts
  options-IsReadable e opts =
      list-IsReadable interface_description_option e opts (option-IsReadable e)
