-- ===== src/PcapNg/Options/Readable.antt =====
-- How the options of each kind are read back, whatever the option type they belong to.
use pcap_file.Common.{
  ℕ, ◌+◌, ◌^◌, ◌<◌, ◌≡◌, ◌≢◌, refl, ap, ◌∙◌, List, [], ◌∷◌, ◌++◌, append-nil, length, All, some, ok,
  ◌>>=◌, ◌||◌, false, true, ◌==◌, ◌⊎◌, inl, inr, arith,
}
use pcap_file.ByteOrder.{ByteOrder, Endianness, big, read_u8, read_u32, read_u64}
use pcap_file.ByteOrder.Laws.{read-write}
use pcap_file.Utf8.{is_utf8, from_utf8}
use pcap_file.PcapNg.Options.{
  PcapNgOption, CustomBinaryOption, CustomUtf8Option, UnknownOption, custom_binary_from_slice,
  custom_utf8_from_slice, read_only, write_bytes_opt, write_u8_opt, write_u32_opt, write_u64_opt,
  write_custom_binary_opt, write_custom_utf8_opt, write_unknown_opt,
}
use pcap_file.PcapNg.Options.RoundTrip.{IsReadable}
use pcap_file.PcapNg.Options.Layouts.{
  IsLayout, bytes-IsLayout, u8-IsLayout, u32-IsLayout, u64-IsLayout, custom_binary-IsLayout,
  custom_utf8-IsLayout, length-custom, unknown-IsLayout,
}

-- A text that an option can hold.
abbrev pub IsText : List ℕ → Type 0
IsText a = (length a < 65536) × (is_utf8 a ≡ true)

-- Custom options with a code of their kind.
abbrev pub IsCustomBinary : CustomBinaryOption → Type 0
IsCustomBinary o =
    ((o.code ≡ 2989) ⊎ (o.code ≡ 19373)) × (o.pen < 4294967296) × (length o.value + 4 < 65536)

abbrev pub IsCustomUtf8 : CustomUtf8Option → Type 0
IsCustomUtf8 o =
    ((o.code ≡ 2988) ⊎ (o.code ≡ 19372))
    × (o.pen < 4294967296)
    × (length o.value + 4 < 65536)
    × (is_utf8 o.value ≡ true)

-- An option of a code above `last`, the last one of the option type, that is not a custom one.
abbrev pub IsUnknown : ℕ → UnknownOption → Type 0
IsUnknown last o =
    (last < o.code)
    × (o.code < 65536)
    × ((o.code == 2988) || (o.code == 19372) ≡ false)
    × ((o.code == 2989) || (o.code == 19373) ≡ false)
    × (o.length ≡ length o.value)
    × (length o.value < 65536)

module _ ⦃bo : ByteOrder⦄ where
  read_last :
      (w : ℕ) (e : Endianness) (v : ℕ)
      → v < 256 ^ w
      → bo.read_uint w e (bo.write_uint w e v) ≡ some (v, [])
  read_last w e v h = rw append-nil at (read-write w e v [] h)

  module _ {O : Type 0} (option : PcapNgOption O) (e : Endianness) where
    readable :
        (o : O) (code : ℕ) (value : List ℕ) (w : List ℕ × ℕ)
        → (code < 65536) × (code ≢ 0)
        → length value < 65536
        → option.write_to e o ≡ w
        → IsLayout e code value w
        → option.from_slice e code (length value) value ≡ ok o
        → IsReadable option e o
    readable o code value w (c, n) v q (l, k) r = record {
      code = code;
      value = value;
      code_u16 = omega (arith, c);
      code_ne_zero = n;
      value_u16 = omega (arith, v);
      written = ap (λ (x : List ℕ × ℕ). x.0) q ∙ l;
      counted = ap (λ (x : List ℕ × ℕ). x.1) q ∙ k;
      read_back = r;
    }

    -- For each kind: an option that is written in that way under a code, and read so under it.
    pub text-IsReadable :
        (f : List ℕ → O) (code : ℕ) (a : List ℕ)
        → (code < 65536) × (code ≢ 0)
        → IsText a
        → option.write_to e (f a) ≡ write_bytes_opt e code a
        → option.from_slice e code (length a) a ≡ (from_utf8 a >>= λ text. ok (f text))
        → IsReadable option e (f a)
    unfolding from_utf8
    text-IsReadable f code a c (l, u) q r =
        readable (f a) code a _ c l q (bytes-IsLayout e code a l) (r ∙ rw u refl)

    pub bytes-IsReadable :
        (o : O) (code : ℕ) (a : List ℕ)
        → (code < 65536) × (code ≢ 0)
        → length a < 65536
        → option.write_to e o ≡ write_bytes_opt e code a
        → option.from_slice e code (length a) a ≡ ok o
        → IsReadable option e o
    bytes-IsReadable o code a c l q r = readable o code a _ c l q (bytes-IsLayout e code a l) r

    pub u8-IsReadable :
        (f : ℕ → O) (code v : ℕ)
        → (code < 65536) × (code ≢ 0)
        → v < 256
        → option.write_to e (f v) ≡ write_u8_opt e code v
        → ((slice : List ℕ)
            → length slice ≡ 1
            → option.from_slice e code 1 slice ≡ (read_only (read_u8 slice) >>= λ x. ok (f x)))
        → IsReadable option e (f v)
    u8-IsReadable f code v c h q r =
        let l = bo.length-write 1 big v in
        readable (f v) code (bo.write_uint 1 big v) _ c (omega (arith, l)) q (u8-IsLayout e code v)
          (rw l (r _ l ∙ rw (read_last 1 big v (omega (arith, h)))))

    pub u32-IsReadable :
        (f : ℕ → O) (code v : ℕ)
        → (code < 65536) × (code ≢ 0)
        → v < 4294967296
        → option.write_to e (f v) ≡ write_u32_opt e code v
        → ((slice : List ℕ)
            → length slice ≡ 4
            → option.from_slice e code 4 slice ≡ (read_only (read_u32 e slice) >>= λ x. ok (f x)))
        → IsReadable option e (f v)
    u32-IsReadable f code v c h q r =
        let l = bo.length-write 4 e v in
        readable (f v) code (bo.write_uint 4 e v) _ c (omega (arith, l)) q (u32-IsLayout e code v)
          (rw l (r _ l ∙ rw (read_last 4 e v (omega (arith, h)))))

    pub u64-IsReadable :
        (f : ℕ → O) (code v : ℕ)
        → (code < 65536) × (code ≢ 0)
        → v < 18446744073709551616
        → option.write_to e (f v) ≡ write_u64_opt e code v
        → ((slice : List ℕ)
            → length slice ≡ 8
            → option.from_slice e code 8 slice ≡ (read_only (read_u64 e slice) >>= λ x. ok (f x)))
        → IsReadable option e (f v)
    u64-IsReadable f code v c h q r =
        let l = bo.length-write 8 e v in
        readable (f v) code (bo.write_uint 8 e v) _ c (omega (arith, l)) q (u64-IsLayout e code v)
          (rw l (r _ l ∙ rw (read_last 8 e v (omega (arith, h)))))

    custom_code :
        {a b : ℕ} (code : ℕ)
        → (code ≡ a) ⊎ (code ≡ b)
        → (0 < a) × (a < 65536)
        → (0 < b) × (b < 65536)
        → (code < 65536) × (code ≢ 0)
    custom_code code (inl c) (p, r) h = (omega (arith, c, r), λ z. omega (arith, c, p, z))
    custom_code code (inr c) h (p, r) = (omega (arith, c, r), λ z. omega (arith, c, p, z))

    pub custom_binary-IsReadable :
        (f : CustomBinaryOption → O) (o : CustomBinaryOption)
        → IsCustomBinary o
        → option.write_to e (f o) ≡ write_custom_binary_opt e o
        → ((code len : ℕ) (slice : List ℕ)
            → (code ≡ 2989) ⊎ (code ≡ 19373)
            → option.from_slice e code len slice
              ≡ (custom_binary_from_slice e code slice >>= λ x. ok (f x)))
        → IsReadable option e (f o)
    unfolding custom_binary_from_slice
    custom_binary-IsReadable f o (c, p, l) q r =
        readable (f o) o.code (bo.write_uint 4 e o.pen ++ o.value) _
          (custom_code o.code c (omega arith, omega arith) (omega arith, omega arith))
          (omega (arith, length-custom e o.pen o.value, l)) q (custom_binary-IsLayout e o l)
          (r o.code _ _ c ∙ rw (read-write 4 e o.pen o.value (omega (arith, p))))

    pub custom_utf8-IsReadable :
        (f : CustomUtf8Option → O) (o : CustomUtf8Option)
        → IsCustomUtf8 o
        → option.write_to e (f o) ≡ write_custom_utf8_opt e o
        → ((code len : ℕ) (slice : List ℕ)
            → (code ≡ 2988) ⊎ (code ≡ 19372)
            → option.from_slice e code len slice
              ≡ (custom_utf8_from_slice e code slice >>= λ x. ok (f x)))
        → IsReadable option e (f o)
    unfolding custom_utf8_from_slice from_utf8
    custom_utf8-IsReadable f o (c, p, l, u) q r =
        readable (f o) o.code (bo.write_uint 4 e o.pen ++ o.value) _
          (custom_code o.code c (omega arith, omega arith) (omega arith, omega arith))
          (omega (arith, length-custom e o.pen o.value, l)) q (custom_utf8-IsLayout e o l)
          (r o.code _ _ c ∙ rw (read-write 4 e o.pen o.value (omega (arith, p)), u))

    pub unknown-IsReadable :
        (f : UnknownOption → O) (last : ℕ) (o : UnknownOption)
        → IsUnknown last o
        → option.write_to e (f o) ≡ write_unknown_opt e o
        → ((len : ℕ) (slice : List ℕ)
            → option.from_slice e o.code len slice
              ≡ ok (f (record { code = o.code; length = len; value = slice })))
        → IsReadable option e (f o)
    unknown-IsReadable f last o (g, c, _, _, k, l) q r =
        readable (f o) o.code o.value _ (c, λ z. omega (arith, g, z)) l q (unknown-IsLayout e o l)
          (r (length o.value) o.value ∙ rw (← k) refl)

    -- A list of options.
    pub list-IsReadable :
        {V : O → Type 0} (os : List O)
        → ((o : O) → V o → IsReadable option e o)
        → All V os
        → All (IsReadable option e) os
    list-IsReadable [] each vs = tt
    list-IsReadable (o ∷ os) each (v, vs) = (each o v, list-IsReadable os each vs)
