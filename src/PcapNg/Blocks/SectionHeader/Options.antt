-- ===== src/PcapNg/Blocks/SectionHeader/Options.antt =====
-- The options of a section header block, written and read back.
use pcap_file.Common.{
  ℕ, ◌<◌, ◌≡◌, refl, List, All, ok, ◌>>=◌, arith, ◌==◌, ne→==, false, ◌||◌, ◌⊎◌, inl, inr,
}
use pcap_file.ByteOrder.{ByteOrder, Endianness}
use pcap_file.Utf8.{from_utf8}
use pcap_file.PcapNg.Options.{custom_binary_from_slice, custom_utf8_from_slice}
use pcap_file.PcapNg.Options.RoundTrip.{IsReadable}
use pcap_file.PcapNg.Options.Readable.{
  IsText, IsCustomBinary, IsCustomUtf8, IsUnknown, text-IsReadable, custom_binary-IsReadable,
  custom_utf8-IsReadable, unknown-IsReadable, list-IsReadable,
}
use pcap_file.PcapNg.Blocks.SectionHeader.{
  SectionHeaderOption, comment, hardware, os, user_application, custom_binary, custom_utf8, unknown,
  parse_option, write_option, section_header_option,
}

-- An option with fields of their widths, a text that is UTF-8, and a code of its own kind.
unfoldable pub IsValidOption : SectionHeaderOption → Type 0
IsValidOption (comment a) = IsText a
IsValidOption (hardware a) = IsText a
IsValidOption (os a) = IsText a
IsValidOption (user_application a) = IsText a
IsValidOption (custom_binary o) = IsCustomBinary o
IsValidOption (custom_utf8 o) = IsCustomUtf8 o
IsValidOption (unknown o) = IsUnknown 4 o

module _ ⦃bo : ByteOrder⦄ where
  binary_arm :
      (e : Endianness) (code len : ℕ) (slice : List ℕ)
      → (code ≡ 2989) ⊎ (code ≡ 19373)
      → parse_option e code len slice
        ≡ (custom_binary_from_slice e code slice >>= λ o. ok (custom_binary o))
  unfolding parse_option
  binary_arm e code len slice (inl c) = rw c refl
  binary_arm e code len slice (inr c) = rw c refl

  utf8_arm :
      (e : Endianness) (code len : ℕ) (slice : List ℕ)
      → (code ≡ 2988) ⊎ (code ≡ 19372)
      → parse_option e code len slice
        ≡ (custom_utf8_from_slice e code slice >>= λ o. ok (custom_utf8 o))
  unfolding parse_option
  utf8_arm e code len slice (inl c) = rw c refl
  utf8_arm e code len slice (inr c) = rw c refl

  unknown_arm :
      (e : Endianness) (code len : ℕ) (slice : List ℕ)
      → 4 < code
      → (code == 2988) || (code == 19372) ≡ false
      → (code == 2989) || (code == 19373) ≡ false
      → parse_option e code len slice
        ≡ ok (unknown (record { code = code; length = len; value = slice }))
  unfolding parse_option
  unknown_arm e code len slice g n m = rw (
    ne→== code 1 (λ z. omega (arith, g, z)),
    ne→== code 2 (λ z. omega (arith, g, z)),
    ne→== code 3 (λ z. omega (arith, g, z)),
    ne→== code 4 (λ z. omega (arith, g, z)),
    n,
    m,
  )

  -- Such an option is written as a code and a value, from which it is read back.
  option-IsReadable :
      (e : Endianness) (o : SectionHeaderOption)
      → IsValidOption o
      → IsReadable section_header_option e o
  unfolding parse_option write_option IsValidOption from_utf8
  option-IsReadable e (comment a) h =
      text-IsReadable _ e comment 1 a (omega arith, λ z. omega (arith, z)) h refl refl
  option-IsReadable e (hardware a) h =
      text-IsReadable _ e hardware 2 a (omega arith, λ z. omega (arith, z)) h refl refl
  option-IsReadable e (os a) h =
      text-IsReadable _ e os 3 a (omega arith, λ z. omega (arith, z)) h refl refl
  option-IsReadable e (user_application a) h =
      text-IsReadable _ e user_application 4 a (omega arith, λ z. omega (arith, z)) h refl refl
  option-IsReadable e (custom_binary o) h =
      custom_binary-IsReadable _ e custom_binary o h refl (binary_arm e)
  option-IsReadable e (custom_utf8 o) h =
      custom_utf8-IsReadable _ e custom_utf8 o h refl (utf8_arm e)
  option-IsReadable e (unknown o) (g, c, n, m, k, l) =
      unknown-IsReadable _ e unknown 4 o (g, c, n, m, k, l) refl
        λ len slice. unknown_arm e o.code len slice g n m

  pub options-IsReadable :
      (e : Endianness) (opts : List SectionHeaderOption)
      → All IsValidOption opts
      → All (IsReadable section_header_option e) opts
  options-IsReadable e opts = list-IsReadable section_header_option e opts (option-IsReadable e)
