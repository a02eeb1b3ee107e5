-- ===== src/Pcap/RawPacket/Laws.antt =====
-- Reading and writing raw packets.
use pcap_file.Common.{
  ℕ, ◌≤◌, ◌≡◌, refl, List, ◌++◌, append_assoc, length, length-append, length-take, take, drop,
  take-append, drop-append, take-append-drop, All, ok, ltb, le→ltb, ltb→le, Bool-cases, inl, inr,
  slice_to_lem, slice_from_lem, slice_to-eq-ok, slice_from-eq-ok, arith, some,
}
use pcap_file.ByteOrder.{ByteOrder, Endianness, IsByte}
use pcap_file.ByteOrder.Laws.{read-write}
use pcap_file.ByteOrder.Digits.{write-read}
use pcap_file.ByteOrder.Steps.{
  Extends, read-Extends, slice_to-Extends, slice_from-Extends, if_err-eq-ok, read-eq-ok,
}
use pcap_file.Pcap.RawPacket.{RawPcapPacket, IsValid, take_payload, from_slice, write_to}

module _ ⦃bo : ByteOrder⦄ where
  take_payload_lem :
      (p : RawPcapPacket) (rest : List ℕ)
      → IsValid p
      → take_payload p.ts_sec p.ts_frac p.incl_len p.orig_len (p.payload ++ rest) ≡ ok (rest, p)
  unfolding take_payload
  take_payload_lem p rest v =
      let le : p.incl_len ≤ length (p.payload ++ rest) =
        omega (arith, length-append p.payload rest, v.payload_len) in
      rw (
        le→ltb (length (p.payload ++ rest)) p.incl_len le,
        slice_to_lem p.incl_len (p.payload ++ rest) le,
        slice_from_lem p.incl_len (p.payload ++ rest) le,
        take-append p.incl_len p.payload rest v.payload_len,
        drop-append p.incl_len p.payload rest v.payload_len,
      )

  -- The count that is returned is the number of bytes written.
  pub length-write_to :
      (e : Endianness) (p : RawPcapPacket) → length (write_to e p).0 ≡ (write_to e p).1
  unfolding write_to
  length-write_to e p = simp (length-append, bo.length-write) (omega arith)

  -- A raw packet with fields of their widths and a payload of the announced length is read back
  -- from what was written for it, and what follows it is left.
  pub from_slice-write_to_raw :
      (e : Endianness) (p : RawPcapPacket) (rest : List ℕ)
      → IsValid p
      → from_slice e ((write_to e p).0 ++ rest) ≡ ok (rest, p)
  unfolding from_slice
  from_slice-write_to_raw e p rest v = rw (le→ltb _ 16 long) (
      unfold write_to in
      simp (
        append_assoc,
        read-write 4 e p.ts_sec _ v.ts_sec_u32,
        read-write 4 e p.ts_frac _ v.ts_frac_u32,
        read-write 4 e p.incl_len _ v.incl_len_u32,
        read-write 4 e p.orig_len _ v.orig_len_u32,
        take_payload_lem p rest v,
      ))
    where
      long : 16 ≤ length ((write_to e p).0 ++ rest)
      long =
          unfold write_to in omega (arith, length-append (write_to e p).0 rest, length-write_to e p)

  take_payload-Extends :
      (a b n c : ℕ) (slice more : List ℕ)
      → Extends more (take_payload a b n c slice) (take_payload a b n c (slice ++ more))
  unfolding take_payload
  take_payload-Extends a b n c slice more = elim (Bool-cases (ltb (length slice) n)) [
    | inl short ↦ rw short tt
    | inr enough ↦
        let le = ltb→le (length slice) n enough in
        rw (enough, le→ltb (length (slice ++ more)) n (omega (arith, length-append slice more)))
          (slice_to-Extends n slice more _ _ le (slice_from-Extends n slice more _ _ le refl))
  ]

  -- On a slice of bytes `RawPcapPacket::from_slice` never panics, and once it has answered anything but
  -- `IncompleteBuffer`, more input behind the slice changes nothing but the remainder.
  pub from_slice_raw-Extends :
      (e : Endianness) (slice more : List ℕ)
      → All IsByte slice
      → Extends more (from_slice e slice) (from_slice e (slice ++ more))
  unfolding from_slice
  from_slice_raw-Extends e slice more _ = elim (Bool-cases (ltb (length slice) 16)) [
    | inl short ↦ rw short tt
    | inr enough ↦
        let le = ltb→le (length slice) 16 enough in
        rw (enough, le→ltb (length (slice ++ more)) 16 (omega (arith, length-append slice more)))
          (read-Extends 4 e slice more _ _ (omega arith) λ _ s₁ l₁.
            read-Extends 4 e s₁ more _ _ (omega arith) λ _ s₂ l₂.
              read-Extends 4 e s₂ more _ _ (omega arith) λ _ s₃ l₃.
                read-Extends 4 e s₃ more _ _ (omega arith)
                  λ _ s₄ l₄. take_payload-Extends _ _ _ _ s₄ more)
  ]

  take_payload-eq-ok :
      (a b n c : ℕ) (slice rem : List ℕ) (p : RawPcapPacket)
      → take_payload a b n c slice ≡ ok (rem, p)
      → (p ≡ record { ts_sec = a; ts_frac = b; incl_len = n; orig_len = c; payload = take n slice })
        × (rem ≡ drop n slice)
        × (length (take n slice) ≡ n)
  unfolding take_payload
  take_payload-eq-ok a b n c slice rem p h =
      let (_, h₁) = if_err-eq-ok (ltb (length slice) n) _ _ h in
      let (le, h₂) = slice_to-eq-ok n slice _ h₁ in
      let (_, h₃) = slice_from-eq-ok n slice _ h₂ in
      (cc h₃, cc h₃, omega (arith, length-take n slice))

  written_back :
      (e : Endianness) (slice s₁ s₂ s₃ s₄ rem : List ℕ) (a b n c : ℕ) (p : RawPcapPacket)
      → All IsByte slice
      → bo.read_uint 4 e slice ≡ some (a, s₁)
      → bo.read_uint 4 e s₁ ≡ some (b, s₂)
      → bo.read_uint 4 e s₂ ≡ some (n, s₃)
      → bo.read_uint 4 e s₃ ≡ some (c, s₄)
      → take_payload a b n c s₄ ≡ ok (rem, p)
      → IsValid p × ((write_to e p).0 ++ rem ≡ slice)
  unfolding write_to
  written_back e slice s₁ s₂ s₃ s₄ rem a b n c p h r₁ r₂ r₃ r₄ q =
      let (ep, er, len) = take_payload-eq-ok a b n c s₄ rem p q in
      let (a_lt, w₁, h₁) = write-read 4 e slice a s₁ h r₁ in
      let (b_lt, w₂, h₂) = write-read 4 e s₁ b s₂ h₁ r₂ in
      let (n_lt, w₃, h₃) = write-read 4 e s₂ n s₃ h₂ r₃ in
      let (c_lt, w₄, _) = write-read 4 e s₃ c s₄ h₃ r₄ in
      rw (ep, er)
        (
          record {
            ts_sec_u32 = a_lt;
            ts_frac_u32 = b_lt;
            incl_len_u32 = n_lt;
            orig_len_u32 = c_lt;
            payload_len = len;
          },
          simp (append_assoc, take-append-drop, w₄, w₃, w₂, w₁),
        )

  -- What is read from a slice of bytes is valid, and writing it back gives the bytes that were read.
  pub write_to-from_slice_raw :
      (e : Endianness) (slice rem : List ℕ) (p : RawPcapPacket)
      → All IsByte slice
      → from_slice e slice ≡ ok (rem, p)
      → IsValid p × ((write_to e p).0 ++ rem ≡ slice)
  unfolding from_slice
  write_to-from_slice_raw e slice rem p h q =
      let (_, q₀) = if_err-eq-ok (ltb (length slice) 16) _ _ q in
      let (a, s₁, r₁, q₁) = read-eq-ok 4 e slice _ q₀ in
      let (b, s₂, r₂, q₂) = read-eq-ok 4 e s₁ _ q₁ in
      let (n, s₃, r₃, q₃) = read-eq-ok 4 e s₂ _ q₂ in
      let (c, s₄, r₄, q₄) = read-eq-ok 4 e s₃ _ q₃ in
      written_back e slice s₁ s₂ s₃ s₄ rem a b n c p h r₁ r₂ r₃ r₄ q₄
