-- ===== src/Pcap/Header/RoundTrip.antt =====
-- Reading and writing the global header.
use pcap_file.Common.{
  All, ℕ, ◌≤◌, ◌≡◌, refl, ◌∙◌, List, ◌++◌, append_assoc, length, ok, ltb, le→ltb, ltb→le, ◌==◌,
  some, length-append, arith, Bool-cases, inl, inr,
}
use pcap_file.ByteOrder.{IsByte, ByteOrder, Endianness, big, little, swap_bytes}
use pcap_file.ByteOrder.Laws.{read-write, read-write_other}
use pcap_file.ByteOrder.Steps.{Extends, Extends-if, read-Extends}
use pcap_file.DataLink.{to_u32}
use pcap_file.Pcap.Header.{
  TsResolution, micro_second, nano_second, PcapHeader, IsValid, magic_number, init_pcap_header,
  match_magic, from_slice, write_header, write_to,
}

module _ ⦃bo : ByteOrder⦄ where
  -- Everything `write_header` writes behind the magic number.
  fields : Endianness → PcapHeader → List ℕ
  fields e h =
      bo.write_uint 2 e h.version_major
      ++ (bo.write_uint 2 e h.version_minor
          ++ (bo.write_uint 4 e h.ts_correction
              ++ (bo.write_uint 4 e h.ts_accuracy
                  ++ (bo.write_uint 4 e h.snaplen ++ bo.write_uint 4 e (to_u32 h.datalink)))))

  pub length-write_to : (h : PcapHeader) → length (write_to h).0 ≡ (write_to h).1
  unfolding write_to
  length-write_to h = simp (length-append, bo.length-write)

  init_pcap_header-fields :
      (e : Endianness) (h : PcapHeader) (rest : List ℕ)
      → IsValid h
      → init_pcap_header e (fields e h ++ rest) h.ts_resolution h.endianness ≡ ok (rest, h)
  unfolding init_pcap_header fields
  init_pcap_header-fields e h rest v = simp (
    append_assoc,
    read-write 2 e h.version_major _ v.version_major_u16,
    read-write 2 e h.version_minor _ v.version_minor_u16,
    read-write 4 e h.ts_correction _ v.ts_correction_i32,
    read-write 4 e h.ts_accuracy _ v.ts_accuracy_u32,
    read-write 4 e h.snaplen _ v.snaplen_u32,
    read-write 4 e (to_u32 h.datalink) _ v.datalink_u32,
    v.datalink_canonical,
  )

  -- The magic number of a file in the order `e`, as the big-endian read sees it.
  abbrev seen : Endianness → TsResolution → ℕ
  seen big r = magic_number r
  seen little r = swap_bytes (magic_number r)

  read_magic :
      (e : Endianness) (r : TsResolution) (rest : List ℕ)
      → bo.read_uint 4 big (bo.write_uint 4 e (magic_number r) ++ rest) ≡ some (seen e r, rest)
  read_magic big micro_second rest = read-write 4 big 0xA1B2C3D4 rest (omega arith)
  read_magic big nano_second rest = read-write 4 big 0xA1B23C4D rest (omega arith)
  read_magic little micro_second rest = read-write_other little 0xA1B2C3D4 rest (omega arith)
  read_magic little nano_second rest = read-write_other little 0xA1B23C4D rest (omega arith)

  match_magic-seen :
      (e : Endianness) (r : TsResolution) (src : List ℕ)
      → match_magic (seen e r) src ≡ init_pcap_header e src r e
  unfolding match_magic
  match_magic-seen big micro_second src = refl
  match_magic-seen big nano_second src = refl
  match_magic-seen little micro_second src = refl
  match_magic-seen little nano_second src = refl

  -- A header whose fields have their widths and whose link type a number can name is read back from
  -- what was written for it, in either byte order, and what follows it is left.
  pub from_slice-write_to_header :
      (h : PcapHeader) (rest : List ℕ)
      → IsValid h
      → from_slice ((write_to h).0 ++ rest) ≡ ok (rest, h)
  unfolding from_slice
  from_slice-write_to_header h rest v = rw (le→ltb _ 24 long) (
      unfold write_to write_header in
      rw (append_assoc, read_magic h.endianness h.ts_resolution _)
        (match_magic-seen h.endianness h.ts_resolution _
          ∙ unfold fields in init_pcap_header-fields h.endianness h rest v))
    where
      long : 24 ≤ length ((write_to h).0 ++ rest)
      long =
          unfold write_to write_header in
          omega (arith, length-append (write_to h).0 rest, length-write_to h)

  init_pcap_header-Extends :
      (e : Endianness) (src more : List ℕ) (r : TsResolution) (en : Endianness)
      → 20 ≤ length src
      → Extends more (init_pcap_header e src r en) (init_pcap_header e (src ++ more) r en)
  unfolding init_pcap_header
  init_pcap_header-Extends e src more r en le =
      read-Extends 2 e src more _ _ (omega arith) λ _ s₁ l₁.
        read-Extends 2 e s₁ more _ _ (omega arith) λ _ s₂ l₂.
          read-Extends 4 e s₂ more _ _ (omega arith) λ _ s₃ l₃.
            read-Extends 4 e s₃ more _ _ (omega arith) λ _ s₄ l₄.
              read-Extends 4 e s₄ more _ _ (omega arith)
                λ _ s₅ l₅. read-Extends 4 e s₅ more _ _ (omega arith) λ _ s₆ l₆. refl

  match_magic-Extends :
      (magic : ℕ) (src more : List ℕ)
      → 20 ≤ length src
      → Extends more (match_magic magic src) (match_magic magic (src ++ more))
  unfolding match_magic
  match_magic-Extends magic src more le =
      Extends-if more (magic == 0xA1B2C3D4) _ _ _ _ _
        (λ e. (e, init_pcap_header-Extends big src more micro_second big le))
        λ e. (
          e,
          Extends-if more (magic == 0xA1B23C4D) _ _ _ _ _
              (λ e. (e, init_pcap_header-Extends big src more nano_second big le))
              λ e. (
                e,
                Extends-if more (magic == 0xD4C3B2A1) _ _ _ _ _
                    (λ e. (e, init_pcap_header-Extends little src more micro_second little le))
                    λ e. (
                      e,
                      Extends-if more (magic == 0x4D3CB2A1) _ _ _ _ _
                          (λ e. (e, init_pcap_header-Extends little src more nano_second little le))
                          λ e. (e, refl),
                    ),
              ),
        )

  -- On a slice of bytes `PcapHeader::from_slice` never panics, and once it has answered anything but
  -- `IncompleteBuffer`, more input behind the slice changes nothing but the remainder.
  pub from_slice_header-Extends :
      (slice more : List ℕ)
      → All IsByte slice
      → Extends more (from_slice slice) (from_slice (slice ++ more))
  unfolding from_slice
  from_slice_header-Extends slice more _ = elim (Bool-cases (ltb (length slice) 24)) [
    | inl short ↦ rw short tt
    | inr enough ↦
        let le = ltb→le (length slice) 24 enough in
        rw (enough, le→ltb (length (slice ++ more)) 24 (omega (arith, length-append slice more)))
          (read-Extends 4 big slice more _ _ (omega arith)
            λ magic src l. match_magic-Extends magic src more (omega arith))
  ]
