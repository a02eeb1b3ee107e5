-- ===== src/ByteOrder/Digits.antt =====
-- Bytes are the digits of the number they stand for: what was read can be written back.
use pcap_file.Common.{
  ℕ, suc, ◌+◌, ◌*◌, ◌^◌, ◌≤◌, ◌<◌, ◌≡◌, refl, sym, ap, ap₂, ◌∙◌, some, List, [], ◌∷◌, ◌++◌, length,
  take, drop, All, All-take, All-drop, length-take, take-append-drop, arith,
}
use pcap_file.ByteOrder.{
  ByteOrder, Endianness, big, little, IsByte, uint_value, le_value, be_value, swap_bytes,
}
use pcap_file.ByteOrder.Laws.{read_length, other_value}
use native.Mathlib.Nat.{pow-suc}

le_value-lt : (bs : List ℕ) → All IsByte bs → le_value bs < 256 ^ length bs
le_value-lt [] h = omega arith
le_value-lt (b ∷ bs) h = grind (arith, le_value-lt bs h.1)

mul_step : (acc b p : ℕ) → b < 256 → suc (256 * acc + b) * p ≤ suc acc * (256 * p)
mul_step acc b p h = let byte : b * p ≤ 255 * p = grind arith in omega (arith, byte)

pow_step : (acc n : ℕ) → suc acc * (256 * 256 ^ n) ≡ suc acc * 256 ^ suc n
pow_step acc n = ap (λ (t : ℕ). suc acc * t) (omega (arith, pow-suc 256 n))

be_value-lt : (acc : ℕ) (bs : List ℕ) → All IsByte bs → be_value acc bs < suc acc * 256 ^ length bs
be_value-lt acc [] h = omega arith
be_value-lt acc (b ∷ bs) h =
    rw (← pow_step acc (length bs))
      (omega (arith, be_value-lt (256 * acc + b) bs h.1, mul_step acc b (256 ^ length bs) h.0))

pub uint_value-lt :
    (e : Endianness) (bs : List ℕ) → All IsByte bs → uint_value e bs < 256 ^ length bs
uint_value-lt big bs h = omega (arith, be_value-lt 0 bs h)
uint_value-lt little bs h = le_value-lt bs h

le_value_injective :
    (xs ys : List ℕ)
    → length xs ≡ length ys
    → All IsByte xs
    → All IsByte ys
    → le_value xs ≡ le_value ys
    → xs ≡ ys
le_value_injective [] [] l h k e = refl
le_value_injective [] (y ∷ ys) l h k e = absurd (omega arith)
le_value_injective (x ∷ xs) [] l h k e = absurd (omega arith)
le_value_injective (x ∷ xs) (y ∷ ys) l (hx, hxs) (hy, hys) e =
    ap₂ ◌∷◌ (omega arith) (le_value_injective xs ys (omega arith) hxs hys (omega arith))

be_value_injective :
    (a b : ℕ) (xs ys : List ℕ)
    → length xs ≡ length ys
    → All IsByte xs
    → All IsByte ys
    → be_value a xs ≡ be_value b ys
    → (a ≡ b) × (xs ≡ ys)
be_value_injective a b [] [] l h k e = (e, refl)
be_value_injective a b [] (y ∷ ys) l h k e = absurd (omega arith)
be_value_injective a b (x ∷ xs) [] l h k e = absurd (omega arith)
be_value_injective a b (x ∷ xs) (y ∷ ys) l (hx, hxs) (hy, hys) e =
    let (p, q) = be_value_injective (256 * a + x) (256 * b + y) xs ys (omega arith) hxs hys e in
    (omega arith, ap₂ ◌∷◌ (omega arith) q)

uint_value_injective :
    (e : Endianness) (xs ys : List ℕ)
    → length xs ≡ length ys
    → All IsByte xs
    → All IsByte ys
    → uint_value e xs ≡ uint_value e ys
    → xs ≡ ys
uint_value_injective big xs ys l h k e = (be_value_injective 0 0 xs ys l h k e).1
uint_value_injective little xs ys l h k e = le_value_injective xs ys l h k e

module _ ⦃bo : ByteOrder⦄ where
  -- What a read of `w` bytes returns has its width, writing it gives the bytes that were read, and
  -- bytes are left.
  pub write-read :
      (w : ℕ) (e : Endianness) (bs : List ℕ) (v : ℕ) (rest : List ℕ)
      → All IsByte bs
      → bo.read_uint w e bs ≡ some (v, rest)
      → (v < 256 ^ w) × (bo.write_uint w e v ++ rest ≡ bs) × All IsByte rest
  write-read w e bs v rest h r =
      let le : w ≤ length bs = omega (arith, read_length w e bs v rest r) in
      let l : length (take w bs) ≡ w = omega (arith, length-take w bs) in
      let both = sym r ∙ bo.read_value w e bs le in
      let ev : v ≡ uint_value e (take w bs) = cc both in
      let er : rest ≡ drop w bs = cc both in
      let bytes : All IsByte (take w bs) = All-take IsByte w bs h in
      let lt : v < 256 ^ w = bounded e (take w bs) v bytes l ev in
      let digits : bo.write_uint w e v ≡ take w bs =
        uint_value_injective e (bo.write_uint w e v) (take w bs) (bo.length-write w e v ∙ sym l)
          (bo.write-IsByte w e v) bytes (bo.write_value w e v lt ∙ ev) in
      (lt, ap₂ ◌++◌ digits er ∙ take-append-drop w bs, rw er (All-drop IsByte w bs h))
    where
      bounded :
          (e : Endianness) (xs : List ℕ) (n : ℕ)
          → All IsByte xs
          → length xs ≡ w
          → n ≡ uint_value e xs
          → n < 256 ^ w
      bounded e xs n h l q = rw (q, ← l) (uint_value-lt e xs h)

  -- Writing one way is writing the swapped number the other way.
  pub write_swap :
      (v : ℕ)
      → v < 256 ^ 4
      → swap_bytes v < 256 ^ 4
      → bo.write_uint 4 little v ≡ bo.write_uint 4 big (swap_bytes v)
  write_swap v h k =
      uint_value_injective big (bo.write_uint 4 little v) (bo.write_uint 4 big (swap_bytes v))
        (bo.length-write 4 little v ∙ sym (bo.length-write 4 big (swap_bytes v)))
        (bo.write-IsByte 4 little v) (bo.write-IsByte 4 big (swap_bytes v))
        (other_value little (bo.write_uint 4 little v) (bo.length-write 4 little v)
            (bo.write-IsByte 4 little v)
          ∙ ap swap_bytes (bo.write_value 4 little v h)
          ∙ sym (bo.write_value 4 big (swap_bytes v) k))
