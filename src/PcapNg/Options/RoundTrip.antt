-- ===== src/PcapNg/Options/RoundTrip.antt =====
-- Options that were written are read back, for every type of options.
use pcap_file.Common.{
  ℕ, zero, suc, ◌+◌, ◌%◌, ◌^◌, ◌≤◌, ◌<◌, ◌≡◌, ◌≢◌, refl, ap, ◌∙◌, List, [], ◌∷◌, ◌++◌, append_assoc,
  append-nil, length, All, length-append, length-take, take-append, drop-append, Result, ok, ◌>>=◌,
  le→ltb, ne→==, if◌then◌else◌, arith, Bool, slice_to_lem, slice_from_lem,
}
use pcap_file.ByteOrder.{ByteOrder, Endianness}
use pcap_file.ByteOrder.Laws.{read-write}
use pcap_file.PcapNg.Options.{
  pad_len, padding, PcapNgOption, opts_value, opts_round, opts_loop, opts_from_slice, write_each,
  write_opts_to,
}

pub length-padding : (n : ℕ) → length (padding n) ≡ pad_len n
length-padding n = omega (arith, length-take {A = ℕ} (pad_len n) (0 ∷ 0 ∷ 0 ∷ []))

pub no_padding : (n : ℕ) → n % 4 ≡ 0 → padding n ≡ []
no_padding n h = rw (none n h)
  where
    none : (n : ℕ) → n % 4 ≡ 0 → pad_len n ≡ 0
    none n h = omega (arith, h)

module _ ⦃bo : ByteOrder⦄ where
  -- An option as it lies in a file: code, length, value and padding.
  abbrev pub layout : Endianness → ℕ → List ℕ → List ℕ
  layout e code value =
      bo.write_uint 2 e code
      ++ (bo.write_uint 2 e (length value) ++ (value ++ padding (length value)))

  module _ {O : Type 0} (option : PcapNgOption O) (e : Endianness) where
    -- An option that is written as a code other than 0 and a value, from which it is read back.
    pub record IsReadable (o : O) : Type 0 where
      pub code : ℕ
      pub value : List ℕ
      pub code_u16 : code < 2 ^ 16
      pub code_ne_zero : code ≢ 0
      pub value_u16 : length value < 2 ^ 16
      pub written : (option.write_to e o).0 ≡ layout e code value
      pub counted : (option.write_to e o).1 ≡ length (layout e code value)
      pub read_back : option.from_slice e code (length value) value ≡ ok o

    opts_value_lem :
        (again : List ℕ → Result (List ℕ × List O)) (o : O) (r : IsReadable o) (rest : List ℕ)
        → opts_value option e again r.code
            (length r.value)
            (r.value ++ (padding (length r.value) ++ rest))
          ≡ (again rest >>= λ (rem, options). ok (rem, o ∷ options))
    unfolding opts_value
    opts_value_lem again o r rest =
        let slice = r.value ++ (padding (length r.value) ++ rest) in
        let total : length slice ≡ length r.value + pad_len (length r.value) + length rest = omega (
          arith,
          length-append r.value (padding (length r.value) ++ rest),
          length-append (padding (length r.value)) rest,
          length-padding (length r.value),
        ) in
        rw (
          ne→== r.code 0 r.code_ne_zero,
          le→ltb (length slice) (length r.value + pad_len (length r.value)) (omega arith),
          slice_to_lem (length r.value) slice (omega arith),
          take-append (length r.value) r.value (padding (length r.value) ++ rest) refl,
          r.read_back,
          slice_from_lem (length r.value + pad_len (length r.value)) slice (omega arith),
          ← append_assoc r.value (padding (length r.value)) rest,
          drop-append (length r.value + pad_len (length r.value))
              (r.value ++ padding (length r.value)) rest
              (length-append r.value (padding (length r.value))
                ∙ ap (λ (k : ℕ). length r.value + k) (length-padding (length r.value))),
        )

    pub length-layout :
        (code : ℕ) (value : List ℕ)
        → length (layout e code value) ≡ 4 + length value + pad_len (length value)
    length-layout code value = simp (length-append, bo.length-write, length-padding) (omega arith)

    opts_round_lem :
        (again : List ℕ → Result (List ℕ × List O)) (o : O) (r : IsReadable o) (rest : List ℕ)
        → opts_round option e again ((option.write_to e o).0 ++ rest)
          ≡ (again rest >>= λ (rem, options). ok (rem, o ∷ options))
    unfolding opts_round
    opts_round_lem again o r rest =
        let slice = layout e r.code r.value ++ rest in
        let long : 4 ≤ length slice =
          omega
            (arith, length-append (layout e r.code r.value) rest, length-layout r.code r.value) in
        rw r.written (
          rw (ne→== (length slice) 0 (omega arith), le→ltb (length slice) 4 long)
            (simp (
              append_assoc,
              read-write 2 e r.code _ r.code_u16,
              read-write 2 e (length r.value) _ r.value_u16,
              opts_value_lem again o r rest,
            )))

    -- The end of the options.
    abbrev end : List ℕ
    end = bo.write_uint 2 e 0 ++ bo.write_uint 2 e 0

    opts_end_lem :
        (again : List ℕ → Result (List ℕ × List O)) (rest : List ℕ)
        → opts_round option e again (end ++ rest) ≡ ok (rest, [])
    unfolding opts_round opts_value
    opts_end_lem again rest =
        let long : length (end ++ rest) ≡ 4 + length rest =
          simp (length-append, bo.length-write) (omega arith) in
        rw
          (
            ne→== (length (end ++ rest)) 0 (omega arith),
            le→ltb (length (end ++ rest)) 4 (omega arith),
          )
          (simp (append_assoc, read-write 2 e 0 _ (omega arith)))

    opts_loop-write_each :
        (fuel : ℕ) (os : List O) (rest : List ℕ)
        → All IsReadable os
        → length os < fuel
        → opts_loop option e fuel ((write_each option e os).0 ++ (end ++ rest)) ≡ ok (rest, os)
    unfolding opts_loop write_each
    opts_loop-write_each zero os rest rs h = absurd (omega arith)
    opts_loop-write_each (suc fuel) [] rest rs h = opts_end_lem (opts_loop option e fuel) rest
    opts_loop-write_each (suc fuel) (o ∷ os) rest rs h = rw append_assoc (
        opts_round_lem (opts_loop option e fuel) o rs.0 _
        ∙ rw (opts_loop-write_each fuel os rest rs.1 (omega arith)))

    length-write_each :
        (os : List O)
        → All IsReadable os
        → (length os ≤ length (write_each option e os).0)
          × (length (write_each option e os).0 ≡ (write_each option e os).1)
    unfolding write_each
    length-write_each [] rs = (omega arith, refl)
    length-write_each (o ∷ os) (r, rs) =
        let (le, eq) = length-write_each os rs in
        let l = length-append (option.write_to e o).0 (write_each option e os).0 in
        let w = ap length r.written in
        (omega (arith, l, w, le, length-layout r.code r.value), omega (arith, l, w, eq, r.counted))

    -- For options that are each readable, `write_opts_to` returns the number of bytes that it writes.
    pub length-write_opts_to :
        (os : List O)
        → All IsReadable os
        → length (write_opts_to option e os).0 ≡ (write_opts_to option e os).1
    unfolding write_opts_to
    length-write_opts_to [] rs = refl
    length-write_opts_to (o ∷ os) rs =
        let (_, eq) = length-write_each (o ∷ os) rs in
        length-append (write_each option e (o ∷ os)).0 end ∙ omega (arith, eq, ends)
      where
        ends : length end ≡ 4
        ends = simp (length-append, bo.length-write)

    opts_from_slice_nonempty :
        (slice : List ℕ)
        → 0 < length slice
        → opts_from_slice option e slice ≡ opts_loop option e (suc (length slice)) slice
    unfolding opts_from_slice
    opts_from_slice_nonempty slice h =
        ap
          (λ (b : Bool).
            if b then ok (slice, []) else opts_loop option e (suc (length slice)) slice)
          (ne→== (length slice) 0 (omega arith))

    -- Options of any type that are each readable are read back from what was written for them, in
    -- order, with nothing left over.
    pub opts_from_slice-write_opts_to :
        (os : List O)
        → All IsReadable os
        → opts_from_slice option e (write_opts_to option e os).0 ≡ ok ([], os)
    unfolding write_opts_to
    opts_from_slice-write_opts_to [] rs = unfold opts_from_slice in refl
    opts_from_slice-write_opts_to (o ∷ os) rs =
        let bytes = (write_each option e (o ∷ os)).0 ++ end in
        let (le, _) = length-write_each (o ∷ os) rs in
        let enough : length (o ∷ os) ≤ length bytes =
          omega (arith, le, length-append (write_each option e (o ∷ os)).0 end) in
        opts_from_slice_nonempty bytes (omega arith)
        ∙ rw append-nil at (opts_loop-write_each (suc (length bytes)) (o ∷ os) [] rs (omega arith))
