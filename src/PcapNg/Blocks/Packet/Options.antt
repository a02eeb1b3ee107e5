-- ===== src/PcapNg/Blocks/Packet/Options.antt =====
-- The options of a packet block, written and read back.
use pcap_file.Common.{
  ℕ, ◌<◌, ◌≡◌, refl, List, length, All, ok, ◌>>=◌, arith, ◌==◌, ne→==, false, ◌||◌, ◌⊎◌, inl, inr,
}
use pcap_file.ByteOrder.{ByteOrder, Endianness}
use pcap_file.Utf8.{from_utf8}
use pcap_file.PcapNg.Options.{custom_binary_from_slice, custom_utf8_from_slice}
use pcap_file.PcapNg.Options.RoundTrip.{IsReadable}
use pcap_file.PcapNg.Options.Readable.{
  IsText, IsCustomBinary, IsCustomUtf8, IsUnknown, text-IsReadable, bytes-IsReadable,
  u32-IsReadable, custom_binary-IsReadable, custom_utf8-IsReadable, unknown-IsReadable,
  list-IsReadable,
}
use pcap_file.PcapNg.Blocks.Packet.{
  PacketOption, comment, flags, hash, custom_binary, custom_utf8, unknown, parse_option,
  write_option, packet_option,
}

-- An option with fields of their widths, a text that is UTF-8, and a code of its own kind.
unfoldable pub IsValidOption : PacketOption → Type 0
IsValidOption (comment a) = IsText a
IsValidOption (flags v) = v < 4294967296
IsValidOption (hash a) = length a < 65536
IsValidOption (custom_binary o) = IsCustomBinary o
IsValidOption (custom_utf8 o) = IsCustomUtf8 o
IsValidOption (unknown o) = IsUnknown 3 o

module _ ⦃bo : ByteOrder⦄ where
  binary_arm :
      (e : Endianness) (code len : ℕ) (slice : List ℕ)
      → (code ≡ 2989) ⊎ (code ≡ 19373)
      → parse_option e code len slice
        ≡ (custom_binary_from_slice e code slice >>= λ o. ok (custom_binary o))
  unfolding parse_option
  binary_arm e code len slice (inl c) = rw c refl
  binary_arm e code len slice (inr c) = rw c refl

  utf8_arm :
      (e : Endianness) (code len : ℕ) (slice : List ℕ)
      → (code ≡ 2988) ⊎ (code ≡ 19372)
      → parse_option e code len slice
        ≡ (custom_utf8_from_slice e code slice >>= λ o. ok (custom_utf8 o))
  unfolding parse_option
  utf8_arm e code len slice (inl c) = rw c refl
  utf8_arm e code len slice (inr c) = rw c refl

  unknown_arm :
      (e : Endianness) (code len : ℕ) (slice : List ℕ)
      → 3 < code
      → (code == 2988) || (code == 19372) ≡ false
      → (code == 2989) || (code == 19373) ≡ false
      → parse_option e code len slice
        ≡ ok (unknown (record { code = code; length = len; value = slice }))
  unfolding parse_option
  unknown_arm e code len slice g n m = rw (
    ne→== code 1 (λ z. omega (arith, g, z)),
    ne→== code 2 (λ z. omega (arith, g, z)),
    ne→== code 3 (λ z. omega (arith, g, z)),
    n,
    m,
  )

  -- Such an option is written as a code and a value, from which it is read back.
  option-IsReadable :
      (e : Endianness) (o : PacketOption) → IsValidOption o → IsReadable packet_option e o
  unfolding parse_option write_option IsValidOption from_utf8
  option-IsReadable e (comment a) h =
      text-IsReadable _ e comment 1 a (omega arith, λ z. omega (arith, z)) h refl refl
  option-IsReadable e (flags v) h =
      u32-IsReadable _ e flags 2 v (omega arith, λ z. omega (arith, z)) h refl λ slice l. rw l refl
  option-IsReadable e (hash a) h =
      bytes-IsReadable _ e (hash a) 3 a (omega arith, λ z. omega (arith, z)) h refl refl
  option-IsReadable e (custom_binary o) h =
      custom_binary-IsReadable _ e custom_binary o h refl (binary_arm e)
  option-IsReadable e (custom_utf8 o) h =
      custom_utf8-IsReadable _ e custom_utf8 o h refl (utf8_arm e)
  option-IsReadable e (unknown o) (g, c, n, m, k, l) =
      unknown-IsReadable _ e unknown 3 o (g, c, n, m, k, l) refl
        λ len slice. unknown_arm e o.code len slice g n m

  pub options-IsReadable :
      (e : Endianness) (opts : List PacketOption)
      → All IsValidOption opts
      → All (IsReadable packet_option e) opts
  options-IsReadable e opts = list-IsReadable packet_option e opts (option-IsReadable e)
