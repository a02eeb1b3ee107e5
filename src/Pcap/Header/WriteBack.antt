-- ===== src/Pcap/Header/WriteBack.antt =====
-- What is read as a global header is written back as the bytes that were read.
use pcap_file.Common.{
  ℕ, ◌≡◌, ◌∙◌, ap, List, ◌++◌, append_assoc, length, All, Result, ok, ltb, ◌==◌, ==_iff, Bool-cases,
  inl, inr, some, arith,
}
use pcap_file.ByteOrder.{ByteOrder, Endianness, big, little, IsByte}
use pcap_file.ByteOrder.Digits.{write-read, write_swap}
use pcap_file.ByteOrder.Steps.{if_err-eq-ok, read-eq-ok}
use pcap_file.DataLink.{from_u32}
use pcap_file.DataLink.Laws.{to_u32-from_u32}
use pcap_file.Pcap.Header.{
  TsResolution, micro_second, nano_second, PcapHeader, IsValid, magic_number, init_pcap_header,
  match_magic, from_slice, write_to,
}

module _ ⦃bo : ByteOrder⦄ where
  -- A header that was read from `src` behind a magic number.
  abbrev Read : Endianness → TsResolution → List ℕ → List ℕ → PcapHeader → Type 0
  Read e r src rem h =
      IsValid h × ((write_to h).0 ++ rem ≡ bo.write_uint 4 e (magic_number r) ++ src)

  fields_back :
      (e : Endianness) (r : TsResolution) (src s₁ s₂ s₃ s₄ s₅ rem : List ℕ) (a b c d f g : ℕ)
      → All IsByte src
      → bo.read_uint 2 e src ≡ some (a, s₁)
      → bo.read_uint 2 e s₁ ≡ some (b, s₂)
      → bo.read_uint 4 e s₂ ≡ some (c, s₃)
      → bo.read_uint 4 e s₃ ≡ some (d, s₄)
      → bo.read_uint 4 e s₄ ≡ some (f, s₅)
      → bo.read_uint 4 e s₅ ≡ some (g, rem)
      → Read e r src rem (record {
        version_major = a;
        version_minor = b;
        ts_correction = c;
        ts_accuracy = d;
        snaplen = f;
        datalink = from_u32 g;
        ts_resolution = r;
        endianness = e;
      })
  unfolding write_to
  fields_back e r src s₁ s₂ s₃ s₄ s₅ rem a b c d f g h r₁ r₂ r₃ r₄ r₅ r₆ =
      let (lt₁, w₁, h₁) = write-read 2 e src a s₁ h r₁ in
      let (lt₂, w₂, h₂) = write-read 2 e s₁ b s₂ h₁ r₂ in
      let (lt₃, w₃, h₃) = write-read 4 e s₂ c s₃ h₂ r₃ in
      let (lt₄, w₄, h₄) = write-read 4 e s₃ d s₄ h₃ r₄ in
      let (lt₅, w₅, h₅) = write-read 4 e s₄ f s₅ h₄ r₅ in
      let (lt₆, w₆, _) = write-read 4 e s₅ g rem h₅ r₆ in
      (
        record {
          version_major_u16 = lt₁;
          version_minor_u16 = lt₂;
          ts_correction_i32 = lt₃;
          ts_accuracy_u32 = lt₄;
          snaplen_u32 = lt₅;
          datalink_u32 = rw (to_u32-from_u32 g) lt₆;
          datalink_canonical = ap from_u32 (to_u32-from_u32 g);
        },
        simp (append_assoc, to_u32-from_u32, w₆, w₅, w₄, w₃, w₂, w₁),
      )

  init_pcap_header-eq-ok :
      (e : Endianness) (r : TsResolution) (src rem : List ℕ) (h : PcapHeader)
      → All IsByte src
      → init_pcap_header e src r e ≡ ok (rem, h)
      → Read e r src rem h
  unfolding init_pcap_header
  init_pcap_header-eq-ok e r src rem h bytes q =
      let (a, s₁, r₁, q₁) = read-eq-ok 2 e src _ q in
      let (b, s₂, r₂, q₂) = read-eq-ok 2 e s₁ _ q₁ in
      let (c, s₃, r₃, q₃) = read-eq-ok 4 e s₂ _ q₂ in
      let (d, s₄, r₄, q₄) = read-eq-ok 4 e s₃ _ q₃ in
      let (f, s₅, r₅, q₅) = read-eq-ok 4 e s₄ _ q₄ in
      let (g, s₆, r₆, q₆) = read-eq-ok 4 e s₅ _ q₅ in
      moved s₆ _ q₆ (fields_back e r src s₁ s₂ s₃ s₄ s₅ s₆ a b c d f g bytes r₁ r₂ r₃ r₄ r₅ r₆)
    where
      moved :
          (s : List ℕ) (k : PcapHeader)
          → ◌≡◌ {A = Result (List ℕ × PcapHeader)} (ok (s, k)) (ok (rem, h))
          → Read e r src s k
          → Read e r src rem h
      moved s k q x = let es : s ≡ rem = cc q in let ek : k ≡ h = cc q in rw (← es, ← ek) x

  match_magic-eq-ok :
      (magic : ℕ) (src rem : List ℕ) (h : PcapHeader)
      → All IsByte src
      → match_magic magic src ≡ ok (rem, h)
      → IsValid h × ((write_to h).0 ++ rem ≡ bo.write_uint 4 big magic ++ src)
  unfolding match_magic
  match_magic-eq-ok magic src rem h bytes q = elim (Bool-cases (magic == 0xA1B2C3D4)) [
    | inl e ↦
        rw ((==_iff magic _).0 e)
          (init_pcap_header-eq-ok big micro_second src rem h bytes (rw e at q))
    | inr n₁ ↦ elim (Bool-cases (magic == 0xA1B23C4D)) [
      | inl e ↦
          rw ((==_iff magic _).0 e)
            (init_pcap_header-eq-ok big nano_second src rem h bytes (rw (n₁, e) at q))
      | inr n₂ ↦ elim (Bool-cases (magic == 0xD4C3B2A1)) [
        | inl e ↦
            rw ((==_iff magic _).0 e, ← write_swap 0xA1B2C3D4 (omega arith) (omega arith))
              (init_pcap_header-eq-ok little micro_second src rem h bytes (rw (n₁, n₂, e) at q))
        | inr n₃ ↦ elim (Bool-cases (magic == 0x4D3CB2A1)) [
          | inl e ↦
              rw ((==_iff magic _).0 e, ← write_swap 0xA1B23C4D (omega arith) (omega arith))
                (init_pcap_header-eq-ok little nano_second src rem h bytes
                  (rw (n₁, n₂, n₃, e) at q))
          | inr n₄ ↦ cc (rw (n₁, n₂, n₃, n₄) at q)
        ]
      ]
    ]
  ]

  -- What is read as a header from a slice of bytes is valid, and writing it back gives the bytes
  -- that were read.
  pub write_to-from_slice_header :
      (slice rem : List ℕ) (h : PcapHeader)
      → All IsByte slice
      → from_slice slice ≡ ok (rem, h)
      → IsValid h × ((write_to h).0 ++ rem ≡ slice)
  unfolding from_slice
  write_to-from_slice_header slice rem h bytes q =
      let (_, q₀) = if_err-eq-ok (ltb (length slice) 24) _ _ q in
      let (magic, src, r, q₁) = read-eq-ok 4 big slice _ q₀ in
      let (_, w, b) = write-read 4 big slice magic src bytes r in
      let (v, same) = match_magic-eq-ok magic src rem h b q₁ in (v, same ∙ w)
