-- ===== src/PcapNg/Options/Calm.antt =====
-- Reading options neither panics nor makes an I/O error.
use pcap_file.Common.{
  ℕ, zero, suc, ◌+◌, ◌≤◌, ◌<◌, List, length, length-drop, Bool, Bool-cases, inl, inr, Option,
  Result, ◌>>=◌, ◌==◌, drop, take, arith,
}
use pcap_file.ByteOrder.{ByteOrder, Endianness}
use pcap_file.ByteOrder.Calm.{
  calm, IsCalm, ok-IsCalm, incomplete-IsCalm, invalid-IsCalm, utf8-IsCalm, if-IsCalm, >>=-IsCalm,
  ok_or-IsCalm, too_short-IsCalm, read-IsCalm, slice_to-IsCalm, slice_from-IsCalm,
}
use pcap_file.Utf8.{is_utf8, from_utf8}
use pcap_file.PcapNg.Options.{
  PcapNgOption, CustomBinaryOption, CustomUtf8Option, pad_len, custom_binary_from_slice,
  custom_utf8_from_slice, read_only, opts_value, opts_round, opts_loop, opts_from_slice,
}

module _ {strict : Bool} where
  pub from_utf8-IsCalm :
      {B : Type 0} (bs : List ℕ) (f : List ℕ → Result B)
      → ((text : List ℕ) → IsCalm strict (f text))
      → IsCalm strict (from_utf8 bs >>= f)
  unfolding from_utf8
  from_utf8-IsCalm bs f h = elim (Bool-cases (is_utf8 bs)) [
    | inl good ↦ rw good (h bs)
    | inr bad ↦ rw bad utf8-IsCalm
  ]

  pub read_only-IsCalm :
      {B : Type 0} (o : Option (ℕ × List ℕ)) (f : ℕ → Result B)
      → ((v : ℕ) → IsCalm strict (f v))
      → IsCalm strict (read_only o >>= f)
  read_only-IsCalm o f h = search (calm, h)

  module _ ⦃bo : ByteOrder⦄ where
    pub custom_binary-IsCalm :
        {B : Type 0} (e : Endianness) (code : ℕ) (src : List ℕ) (f : CustomBinaryOption → Result B)
        → ((o : CustomBinaryOption) → IsCalm strict (f o))
        → IsCalm strict (custom_binary_from_slice e code src >>= f)
    unfolding custom_binary_from_slice
    custom_binary-IsCalm e code src f h = search (calm, h)

    pub custom_utf8-IsCalm :
        {B : Type 0} (e : Endianness) (code : ℕ) (src : List ℕ) (f : CustomUtf8Option → Result B)
        → ((o : CustomUtf8Option) → IsCalm strict (f o))
        → IsCalm strict (custom_utf8_from_slice e code src >>= f)
    unfolding custom_utf8_from_slice
    custom_utf8-IsCalm e code src f h = search (from_utf8-IsCalm, calm, h)

    module _ {O : Type 0} (option : PcapNgOption O) (e : Endianness)
        (each : (code len : ℕ) (slice : List ℕ)
          → IsCalm strict (option.from_slice e code len slice)) where
      opts_value-IsCalm :
          (again : List ℕ → Result (List ℕ × List O)) (code len : ℕ) (slice : List ℕ)
          → ((rest : List ℕ) → length rest ≤ length slice → IsCalm strict (again rest))
          → IsCalm strict (opts_value option e again code len slice)
      unfolding opts_value
      opts_value-IsCalm again code len slice h = if-IsCalm (code == 0) _ _ (ok-IsCalm _) (
          too_short-IsCalm (length slice) (len + pad_len len) _ _ (invalid-IsCalm _) λ le.
            slice_to-IsCalm len slice _ (omega (arith, le)) (
              >>=-IsCalm (option.from_slice e code len (take len slice)) _ (each code len _)
                λ opt q. slice_from-IsCalm (len + pad_len len) slice _ le (
                  >>=-IsCalm (again (drop (len + pad_len len) slice)) _
                    (h _ (omega (arith, length-drop (len + pad_len len) slice)))
                    λ a q. ok-IsCalm _)))

      opts_loop-IsCalm :
          (fuel : ℕ) (slice : List ℕ)
          → length slice < fuel
          → IsCalm strict (opts_loop option e fuel slice)
      unfolding opts_loop opts_round
      opts_loop-IsCalm zero slice h = absurd (omega (arith, h))
      opts_loop-IsCalm (suc fuel) slice h = if-IsCalm (length slice == 0) _ _ (invalid-IsCalm _) (
          too_short-IsCalm (length slice) 4 _ _ (invalid-IsCalm _) λ le.
            read-IsCalm 2 e slice _ (omega (arith, le)) λ code s₁ l₁.
              read-IsCalm 2 e s₁ _ (omega (arith, le, l₁)) λ len s₂ l₂.
                opts_value-IsCalm (opts_loop option e fuel) code len s₂
                  λ rest l. opts_loop-IsCalm fuel rest (omega (arith, h, l, l₁, l₂)))

      -- Where no option panics, the reading of a list of options does not: its loop ends within the
      -- rounds that its fuel allows, and each slice lies within the bounds.
      pub opts_from_slice-IsCalm : (slice : List ℕ) → IsCalm strict (opts_from_slice option e slice)
      unfolding opts_from_slice
      opts_from_slice-IsCalm slice =
          if-IsCalm (length slice == 0) _ _ (ok-IsCalm _)
            (opts_loop-IsCalm (suc (length slice)) slice (omega arith))

-- The rules for the arms of an option's `from_slice`.
pub ruleset calm_option =
    (calm, from_utf8-IsCalm, read_only-IsCalm, custom_binary-IsCalm, custom_utf8-IsCalm)
