-- ===== src/PcapNg/Options/Layouts.antt =====
-- Each way of writing an option gives its code, its length, its value and the padding.
use pcap_file.Common.{
  ℕ, ◌+◌, ◌%◌, ◌<◌, ◌≡◌, refl, List, [], ◌∷◌, ◌++◌, append_assoc, append-nil, length, All,
  length-append, arith,
}
use pcap_file.ByteOrder.{ByteOrder, Endianness, big}
use pcap_file.PcapNg.Options.{
  PcapNgOption, write_each, write_opts_to, pad_len, CustomBinaryOption, CustomUtf8Option,
  UnknownOption, write_bytes_opt, write_u8_opt, write_u32_opt, write_u64_opt,
  write_custom_binary_opt, write_custom_utf8_opt, write_unknown_opt,
}
use pcap_file.PcapNg.Options.RoundTrip.{layout, length-padding, length-layout, IsReadable}

-- A write of the code and the value, with the right count.
abbrev pub IsLayout : ⦃bo : ByteOrder⦄ → Endianness → ℕ → List ℕ → List ℕ × ℕ → Type 0
IsLayout e code value w = (w.0 ≡ layout e code value) × (w.1 ≡ length (layout e code value))

small : (n : ℕ) → n < 65536 → n % 65536 ≡ n
small n h = omega arith

module _ ⦃bo : ByteOrder⦄ where
  layout_len :
      (e : Endianness) (code : ℕ) (value : List ℕ) (n : ℕ)
      → n ≡ length value + pad_len (length value) + 4
      → n ≡ length (layout e code value)
  layout_len e code value n h =
      simp (length-append, bo.length-write, length-padding) (omega (arith, h))

  pub bytes-IsLayout :
      (e : Endianness) (code : ℕ) (value : List ℕ)
      → length value < 65536
      → IsLayout e code value (write_bytes_opt e code value)
  unfolding write_bytes_opt
  bytes-IsLayout e code value h = (rw (small (length value) h), layout_len e code value _ refl)

  pub unknown-IsLayout :
      (e : Endianness) (o : UnknownOption)
      → length o.value < 65536
      → IsLayout e o.code o.value (write_unknown_opt e o)
  unfolding write_unknown_opt
  unknown-IsLayout e o h = (rw (small (length o.value) h), layout_len e o.code o.value _ refl)

  pub u8-IsLayout :
      (e : Endianness) (code v : ℕ)
      → IsLayout e code (bo.write_uint 1 big v) (write_u8_opt e code v)
  unfolding write_u8_opt
  u8-IsLayout e code v =
      (rw (bo.length-write 1 big v), layout_len e code _ _ (rw (bo.length-write 1 big v)))

  pub u32-IsLayout :
      (e : Endianness) (code v : ℕ) → IsLayout e code (bo.write_uint 4 e v) (write_u32_opt e code v)
  unfolding write_u32_opt
  u32-IsLayout e code v =
      (rw (bo.length-write 4 e v, append-nil), layout_len e code _ _ (rw (bo.length-write 4 e v)))

  pub u64-IsLayout :
      (e : Endianness) (code v : ℕ) → IsLayout e code (bo.write_uint 8 e v) (write_u64_opt e code v)
  unfolding write_u64_opt
  u64-IsLayout e code v =
      (rw (bo.length-write 8 e v, append-nil), layout_len e code _ _ (rw (bo.length-write 8 e v)))

  pub length-custom :
      (e : Endianness) (pen : ℕ) (value : List ℕ)
      → length (bo.write_uint 4 e pen ++ value) ≡ length value + 4
  length-custom e pen value = simp (length-append, bo.length-write) (omega arith)

  pub custom_binary-IsLayout :
      (e : Endianness) (o : CustomBinaryOption)
      → length o.value + 4 < 65536
      → IsLayout e o.code (bo.write_uint 4 e o.pen ++ o.value) (write_custom_binary_opt e o)
  unfolding write_custom_binary_opt
  custom_binary-IsLayout e o h = (
    rw (length-custom e o.pen o.value, small (length o.value + 4) h, append_assoc),
    layout_len e o.code _ _ (rw (length-custom e o.pen o.value)),
  )

  pub custom_utf8-IsLayout :
      (e : Endianness) (o : CustomUtf8Option)
      → length o.value + 4 < 65536
      → IsLayout e o.code (bo.write_uint 4 e o.pen ++ o.value) (write_custom_utf8_opt e o)
  unfolding write_custom_utf8_opt
  custom_utf8-IsLayout e o h = (
    rw (length-custom e o.pen o.value, small (length o.value + 4) h, append_assoc),
    layout_len e o.code _ _ (rw (length-custom e o.pen o.value)),
  )

  -- Options that are each readable take whole words.
  module _ {O : Type 0} (option : PcapNgOption O) (e : Endianness) where
    write_each_words :
        (os : List O) → All (IsReadable option e) os → (write_each option e os).1 % 4 ≡ 0
    unfolding write_each
    write_each_words [] rs = refl
    write_each_words (o ∷ os) (r, rs) =
        omega (arith, write_each_words os rs, r.counted, length-layout option e r.code r.value)

    pub write_opts_to_words :
        (os : List O) → All (IsReadable option e) os → (write_opts_to option e os).1 % 4 ≡ 0
    unfolding write_opts_to
    write_opts_to_words [] rs = refl
    write_opts_to_words (o ∷ os) rs = omega (arith, write_each_words (o ∷ os) rs)
