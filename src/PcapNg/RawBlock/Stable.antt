-- ===== src/PcapNg/RawBlock/Stable.antt =====
-- Raw blocks out of a slice that may still grow: no panic, and more input changes nothing but the
-- remainder.
use pcap_file.Common.{
  ℕ, ◌-◌, ◌%◌, refl, List, ◌++◌, length, length-append, length-drop, Bool-cases, inl, inr, ◌==◌,
  not, ltb, ltb→le, le→ltb, drop, slice_to, arith,
}
use pcap_file.ByteOrder.{ByteOrder, Endianness, big, little, swap_bytes}
use pcap_file.ByteOrder.Ends.{
  IsEnd, IsEnd-refl, LeavesEnd, ok-LeavesEnd, err-LeavesEnd, if-LeavesEnd, >>=-LeavesEnd,
  slice_from-LeavesEnd, read-LeavesEnd, ok_or-LeavesEnd,
}
use pcap_file.ByteOrder.Steps.{
  Extends, Extends-if, read-Extends, ok_or-Extends, slice_to-Extends, slice_from-Extends,
}
use pcap_file.PcapNg.RawBlock.{section_header_block, inner_parse, section_header_parse, from_slice}

module _ ⦃bo : ByteOrder⦄ where
  inner_parse-LeavesEnd :
      (slice : List ℕ) (e : Endianness) (s : List ℕ) (t n : ℕ)
      → IsEnd s slice
      → LeavesEnd slice (inner_parse e s t n)
  unfolding inner_parse
  inner_parse-LeavesEnd slice e s t n i =
      if-LeavesEnd slice (not (n % 4 == 0)) _ _ (err-LeavesEnd slice _) (
        if-LeavesEnd slice (ltb n 12) _ _ (err-LeavesEnd slice _) (
          if-LeavesEnd slice (ltb (length s) (n - 8)) _ _ (err-LeavesEnd slice _) (
            >>=-LeavesEnd slice (slice_to (n - 12) s) _ λ body _.
              slice_from-LeavesEnd slice (n - 12) s _ i λ rem j.
                read-LeavesEnd slice 4 e rem _ j λ trailer rest k.
                  if-LeavesEnd slice (n == trailer) _ _ (ok-LeavesEnd slice _ _ k)
                    (err-LeavesEnd slice _))))

  pub from_slice_raw_block-LeavesEnd :
      (e : Endianness) (slice : List ℕ) → LeavesEnd slice (from_slice e slice)
  unfolding from_slice section_header_parse
  from_slice_raw_block-LeavesEnd e slice =
      if-LeavesEnd slice (ltb (length slice) 12) _ _ (err-LeavesEnd slice _) (
        read-LeavesEnd slice 4 e slice _ (IsEnd-refl slice) λ t s₁ i.
          if-LeavesEnd slice (t == section_header_block) _ _
            (read-LeavesEnd slice 4 big s₁ _ i λ n s₂ j.
              read-LeavesEnd slice 4 big s₂ _ j λ magic _ _.
                if-LeavesEnd slice (magic == 0x1A2B3C4D) _ _
                  (inner_parse-LeavesEnd slice big s₂ t n j)
                  (if-LeavesEnd slice (magic == 0x4D3C2B1A) _ _
                    (inner_parse-LeavesEnd slice little s₂ t (swap_bytes n) j)
                    (err-LeavesEnd slice _)))
            (ok_or-LeavesEnd slice 4 e s₁ _ _ i λ n s₂ j. inner_parse-LeavesEnd slice e s₂ t n j))

  -- Behind the checks of the length the slices lie within the bounds.
  inner_parse-Extends :
      (e : Endianness) (s more : List ℕ) (t n : ℕ)
      → Extends more (inner_parse e s t n) (inner_parse e (s ++ more) t n)
  unfolding inner_parse
  inner_parse-Extends e s more t n =
      Extends-if more (not (n % 4 == 0)) _ _ _ _ _ (λ q. (q, refl))
        λ q. (
          q,
          Extends-if more (ltb n 12) _ _ _ _ _ (λ q. (q, refl))
              λ long. (
                long,
                elim (Bool-cases (ltb (length s) (n - 8))) [
                  | inl short ↦ rw short tt
                  | inr enough ↦
                      let le = ltb→le (length s) (n - 8) enough in
                      rw
                        (
                          enough,
                          le→ltb (length (s ++ more)) (n - 8)
                              (omega (arith, le, length-append s more)),
                        )
                        (slice_to-Extends (n - 12) s more _ _ (omega (arith, le)) (
                          slice_from-Extends (n - 12) s more _ _ (omega (arith, le)) (
                            read-Extends 4 e (drop (n - 12) s) more _ _
                              (omega (arith, le, ltb→le n 12 long, length-drop (n - 12) s))
                              λ trailer rest _.
                                Extends-if more (n == trailer) _ _ _ _ _ (λ q. (q, refl))
                                  λ q. (q, refl))))
                ],
              ),
        )

  section_header_parse-Extends :
      (s more : List ℕ) (t n magic : ℕ)
      → Extends more (section_header_parse s t n magic) (section_header_parse (s ++ more) t n magic)
  unfolding section_header_parse
  section_header_parse-Extends s more t n magic =
      Extends-if more (magic == 0x1A2B3C4D) _ _ _ _ _ (λ q. (q, inner_parse-Extends big s more t n))
        λ q. (
          q,
          Extends-if more (magic == 0x4D3C2B1A) _ _ _ _ _
              (λ q. (q, inner_parse-Extends little s more t (swap_bytes n))) λ q. (q, refl),
        )

  -- `RawBlock::from_slice` never panics, and once it has answered anything but `IncompleteBuffer`, more
  -- input behind the slice changes nothing but the remainder.
  pub from_slice_raw_block-Extends :
      (e : Endianness) (slice more : List ℕ)
      → Extends more (from_slice e slice) (from_slice e (slice ++ more))
  unfolding from_slice
  from_slice_raw_block-Extends e slice more = elim (Bool-cases (ltb (length slice) 12)) [
    | inl short ↦ rw short tt
    | inr enough ↦
        let le = ltb→le (length slice) 12 enough in
        rw
          (enough, le→ltb (length (slice ++ more)) 12 (omega (arith, le, length-append slice more)))
          (read-Extends 4 e slice more _ _ (omega (arith, le)) λ t s₁ l₁.
            Extends-if more (t == section_header_block) _ _ _ _ _
              (λ q. (
                q,
                read-Extends 4 big s₁ more _ _ (omega (arith, le, l₁)) λ n s₂ l₂.
                    read-Extends 4 big s₂ more _ _ (omega (arith, le, l₁, l₂))
                      λ magic _ _. section_header_parse-Extends s₂ more t n magic,
              ))
              λ q. (
                q,
                ok_or-Extends 4 e s₁ more _ _ _ (omega (arith, le, l₁))
                    λ n s₂ _. inner_parse-Extends e s₂ more t n,
              ))
  ]
