-- ===== src/PcapNg/Blocks/NameResolution/Options.antt =====
-- The options of a name resolution block, written and read back.
use pcap_file.Common.{
  ℕ, ◌<◌, ◌≡◌, refl, List, length, All, ok, ◌>>=◌, arith, ◌==◌, ne→==, false, ◌||◌, ◌⊎◌, inl, inr,
}
use pcap_file.ByteOrder.{ByteOrder, Endianness}
use pcap_file.Utf8.{from_utf8}
use pcap_file.PcapNg.Options.{custom_binary_from_slice, custom_utf8_from_slice}
use pcap_file.PcapNg.Options.RoundTrip.{IsReadable}
use pcap_file.PcapNg.Options.Readable.{
  IsText, IsCustomBinary, IsCustomUtf8, IsUnknown, text-IsReadable, bytes-IsReadable,
  custom_binary-IsReadable, custom_utf8-IsReadable, unknown-IsReadable, list-IsReadable,
}
use pcap_file.PcapNg.Blocks.NameResolution.{
  NameResolutionOption, comment, ns_dns_name, ns_dns_ipv4_addr, ns_dns_ipv6_addr, custom_binary,
  custom_utf8, unknown, parse_option, write_option, name_resolution_option,
}

-- An option with fields of their widths, a text that is UTF-8, and a code of its own kind.
unfoldable pub IsValidOption : NameResolutionOption → Type 0
IsValidOption (comment a) = IsText a
IsValidOption (ns_dns_name a) = IsText a
IsValidOption (ns_dns_ipv4_addr a) = length a ≡ 4
IsValidOption (ns_dns_ipv6_addr a) = length a ≡ 16
IsValidOption (custom_binary o) = IsCustomBinary o
IsValidOption (custom_utf8 o) = IsCustomUtf8 o
IsValidOption (unknown o) = IsUnknown 4 o

module _ ⦃bo : ByteOrder⦄ where
  binary_arm :
      (e : Endianness) (code len : ℕ) (slice : List ℕ)
      → (code ≡ 2989) ⊎ (code ≡ 19373)
      → parse_option e code len slice
        ≡ (custom_binary_from_slice e code slice >>= λ o. ok (custom_binary o))
  unfolding parse_option
  binary_arm e code len slice (inl c) = rw c refl
  binary_arm e code len slice (inr c) = rw c refl

  utf8_arm :
      (e : Endianness) (code len : ℕ) (slice : List ℕ)
      → (code ≡ 2988) ⊎ (code ≡ 19372)
      → parse_option e code len slice
        ≡ (custom_utf8_from_slice e code slice >>= λ o. ok (custom_utf8 o))
  unfolding parse_option
  utf8_arm e code len slice (inl c) = rw c refl
  utf8_arm e code len slice (inr c) = rw c refl

  unknown_arm :
      (e : Endianness) (code len : ℕ) (slice : List ℕ)
      → 4 < code
      → (code == 2988) || (code == 19372) ≡ false
      → (code == 2989) || (code == 19373) ≡ false
      → parse_option e code len slice
        ≡ ok (unknown (record { code = code; length = len; value = slice }))
  unfolding parse_option
  unknown_arm e code len slice g n m = rw (
    ne→== code 1 (λ z. omega (arith, g, z)),
    ne→== code 2 (λ z. omega (arith, g, z)),
    ne→== code 3 (λ z. omega (arith, g, z)),
    ne→== code 4 (λ z. omega (arith, g, z)),
    n,
    m,
  )

  -- Such an option is written as a code and a value, from which it is read back.
  option-IsReadable :
      (e : Endianness) (o : NameResolutionOption)
      → IsValidOption o
      → IsReadable name_resolution_option e o
  unfolding parse_option write_option IsValidOption from_utf8
  option-IsReadable e (comment a) h =
      text-IsReadable _ e comment 1 a (omega arith, λ z. omega (arith, z)) h refl refl
  option-IsReadable e (ns_dns_name a) h =
      text-IsReadable _ e ns_dns_name 2 a (omega arith, λ z. omega (arith, z)) h refl refl
  option-IsReadable e (ns_dns_ipv4_addr a) h =
      bytes-IsReadable _ e (ns_dns_ipv4_addr a) 3 a (omega arith, λ z. omega (arith, z))
        (omega (arith, h)) refl (rw h refl)
  option-IsReadable e (ns_dns_ipv6_addr a) h =
      bytes-IsReadable _ e (ns_dns_ipv6_addr a) 4 a (omega arith, λ z. omega (arith, z))
        (omega (arith, h)) refl (rw h refl)
  option-IsReadable e (custom_binary o) h =
      custom_binary-IsReadable _ e custom_binary o h refl (binary_arm e)
  option-IsReadable e (custom_utf8 o) h =
      custom_utf8-IsReadable _ e custom_utf8 o h refl (utf8_arm e)
  option-IsReadable e (unknown o) (g, c, n, m, k, l) =
      unknown-IsReadable _ e unknown 4 o (g, c, n, m, k, l) refl
        λ len slice. unknown_arm e o.code len slice g n m

  pub options-IsReadable :
      (e : Endianness) (opts : List NameResolutionOption)
      → All IsValidOption opts
      → All (IsReadable name_resolution_option e) opts
  options-IsReadable e opts = list-IsReadable name_resolution_option e opts (option-IsReadable e)
