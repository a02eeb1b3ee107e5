-- ===== src/ByteOrder/Laws.antt =====
-- What follows from the documented behaviour of the byte order crate, for every implementation.
use pcap_file.Common.{
  ℕ, ◌+◌, ◌^◌, ◌≤◌, ◌<◌, ◌≡◌, sym, ap, ◌∙◌, Option, none, some, List, [], ◌∷◌, ◌++◌, length, take,
  drop, All, length-append, length-drop, take-append, drop-append, take-append_le, drop-append_le,
  arith,
}
use pcap_file.ByteOrder.{
  ByteOrder, Endianness, big, little, IsByte, uint_value, le_value, be_value, swap_bytes,
}
use native.Mathlib.Decide.{dec_le}

module _ ⦃bo : ByteOrder⦄ where
  -- A number that was written is read back, and what follows it is left.
  pub read-write :
      (w : ℕ) (e : Endianness) (v : ℕ) (rest : List ℕ)
      → v < 256 ^ w
      → bo.read_uint w e (bo.write_uint w e v ++ rest) ≡ some (v, rest)
  read-write w e v rest h =
      bo.read_value w e (bo.write_uint w e v ++ rest)
        (omega (arith, length-append (bo.write_uint w e v) rest, bo.length-write w e v))
      ∙ rw (
        take-append w (bo.write_uint w e v) rest (bo.length-write w e v),
        drop-append w (bo.write_uint w e v) rest (bo.length-write w e v),
        bo.write_value w e v h,
      )

  -- A read looks at nothing past the bytes it takes.
  pub read-append :
      (w : ℕ) (e : Endianness) (bs more : List ℕ) (v : ℕ) (rest : List ℕ)
      → bo.read_uint w e bs ≡ some (v, rest)
      → bo.read_uint w e (bs ++ more) ≡ some (v, rest ++ more)
  read-append w e bs more v rest h = elim (dec_le w (length bs)) [
    | yes le ↦
        bo.read_value w e (bs ++ more) (omega (arith, length-append bs more))
        ∙ rw (take-append_le w bs more le, drop-append_le w bs more le)
            (ap (λ (o : Option (ℕ × List ℕ)). extend o) (sym (bo.read_value w e bs le) ∙ h))
    | no lt ↦ cc (bo.read_short w e bs (omega arith))
  ]
    where
      extend : Option (ℕ × List ℕ) → Option (ℕ × List ℕ)
      extend none = none
      extend (some (a, r)) = some (a, r ++ more)

  -- A read that succeeds took `w` bytes.
  pub read_length :
      (w : ℕ) (e : Endianness) (bs : List ℕ) (v : ℕ) (rest : List ℕ)
      → bo.read_uint w e bs ≡ some (v, rest)
      → length bs ≡ w + length rest
  read_length w e bs v rest h = elim (dec_le w (length bs)) [
    | yes le ↦ ground (arith, bo.read_value w e bs le, length-drop w bs)
    | no lt ↦ cc (bo.read_short w e bs (omega arith))
  ]

  -- On a slice that is long enough a read succeeds.
  pub read_total :
      (w : ℕ) (e : Endianness) (bs : List ℕ)
      → w ≤ length bs
      → (v : ℕ) × (rest : List ℕ) × (bo.read_uint w e bs ≡ some (v, rest))
        × (length bs ≡ w + length rest)
  read_total w e bs le = (
    uint_value e (take w bs),
    drop w bs,
    bo.read_value w e bs le,
    omega (arith, length-drop w bs),
  )

-- Four bytes, read one way and the other.
swap_value :
    (a b c d : ℕ)
    → IsByte a
    → IsByte b
    → IsByte c
    → IsByte d
    → (be_value 0 (a ∷ b ∷ c ∷ d ∷ []) ≡ swap_bytes (le_value (a ∷ b ∷ c ∷ d ∷ [])))
      × (le_value (a ∷ b ∷ c ∷ d ∷ []) ≡ swap_bytes (be_value 0 (a ∷ b ∷ c ∷ d ∷ [])))
swap_value a b c d ha hb hc hd = omega arith

abbrev pub other : Endianness → Endianness
other big = little
other little = big

pub other_value :
    (e : Endianness) (bs : List ℕ)
    → length bs ≡ 4
    → All IsByte bs
    → uint_value (other e) bs ≡ swap_bytes (uint_value e bs)
other_value e [] h b = absurd (omega arith)
other_value e (_ ∷ []) h b = absurd (omega arith)
other_value e (_ ∷ _ ∷ []) h b = absurd (omega arith)
other_value e (_ ∷ _ ∷ _ ∷ []) h b = absurd (omega arith)
other_value big (a ∷ b ∷ c ∷ d ∷ []) h (ha, (hb, (hc, (hd, _)))) =
    (swap_value a b c d ha hb hc hd).1
other_value little (a ∷ b ∷ c ∷ d ∷ []) h (ha, (hb, (hc, (hd, _)))) =
    (swap_value a b c d ha hb hc hd).0
other_value e (_ ∷ _ ∷ _ ∷ _ ∷ _ ∷ _) h b = absurd (omega arith)

module _ ⦃bo : ByteOrder⦄ where
  -- A `u32` that was written one way and is read the other way has its bytes swapped.
  pub read-write_other :
      (e : Endianness) (v : ℕ) (rest : List ℕ)
      → v < 256 ^ 4
      → bo.read_uint 4 (other e) (bo.write_uint 4 e v ++ rest) ≡ some (swap_bytes v, rest)
  read-write_other e v rest h =
      bo.read_value 4 (other e) (bo.write_uint 4 e v ++ rest)
        (omega (arith, length-append (bo.write_uint 4 e v) rest, bo.length-write 4 e v))
      ∙ rw (
        take-append 4 (bo.write_uint 4 e v) rest (bo.length-write 4 e v),
        drop-append 4 (bo.write_uint 4 e v) rest (bo.length-write 4 e v),
        other_value e (bo.write_uint 4 e v) (bo.length-write 4 e v) (bo.write-IsByte 4 e v),
        bo.write_value 4 e v h,
      )
