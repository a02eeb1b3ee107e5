-- ===== src/ByteOrder/Steps.antt =====
-- Parsers over a slice that may still grow. A parser is stable if more input changes nothing but the
-- remainder, once it has answered anything other than `IncompleteBuffer`; it never panics, and it
-- makes no I/O error.
use pcap_file.Common.{
  All, ℕ, ◌+◌, ◌≤◌, ◌≡◌, refl, ap, ◌≢◌, List, ◌++◌, length, take, drop, arith, Option, none, some,
  Result, ok, err, panic, ◌>>=◌, unwrap, ok_or, PcapError, incomplete_buffer, io_error,
  length-append, take-append_le, drop-append_le, slice_to, slice_from, slice_to_lem, slice_from_lem,
  Bool, true, false, if◌then◌else◌,
}
use pcap_file.ByteOrder.Calm.{IsCalm}
use pcap_file.ByteOrder.{ByteOrder, Endianness, IsByte}
use pcap_file.ByteOrder.Laws.{read_total, read-append}

abbrev pub Parser : Type 0 → Type 0
Parser O = List ℕ → Result (List ℕ × O)

-- The answer `q` on a slice that `more` was appended to, against the answer on the slice itself.
abbrev pub Extends : {O : Type 0} → List ℕ → Result (List ℕ × O) → Result (List ℕ × O) → Type 0
Extends more (ok (rem, o)) q = q ≡ ok (rem ++ more, o)
Extends more (err incomplete_buffer) q = Unit
Extends more (err (io_error _)) q = ⊥
Extends more (err e) q = q ≡ err e
Extends more panic q = ⊥

abbrev pub IsStable : {O : Type 0} → Parser O → Type 0
IsStable p = (slice more : List ℕ) → All IsByte slice → Extends more (p slice) (p (slice ++ more))

slice_to-append :
    (n : ℕ) (slice more : List ℕ)
    → n ≤ length slice
    → slice_to n (slice ++ more) ≡ ok (take n slice)
slice_to-append n slice more le =
    rw (slice_to_lem n (slice ++ more) (omega (arith, length-append slice more)))
      (ap ok (take-append_le n slice more le))

slice_from-append :
    (n : ℕ) (slice more : List ℕ)
    → n ≤ length slice
    → slice_from n (slice ++ more) ≡ ok (drop n slice ++ more)
slice_from-append n slice more le =
    rw (slice_from_lem n (slice ++ more) (omega (arith, length-append slice more)))
      (ap ok (drop-append_le n slice more le))

module _ {O : Type 0} where
  pub Extends-ne-panic : (more : List ℕ) (r q : Result (List ℕ × O)) → Extends more r q → r ≢ panic
  Extends-ne-panic more (ok _) q h = λ e. cc
  Extends-ne-panic more (err _) q h = λ e. cc
  Extends-ne-panic more panic q h = λ e. h

  -- A test that both slices pass, or both fail.
  pub Extends-if :
      (more : List ℕ) (b c : Bool) (x y x' y' : Result (List ℕ × O))
      → (b ≡ true → (c ≡ true) × Extends more x x')
      → (b ≡ false → (c ≡ false) × Extends more y y')
      → Extends more (if b then x else y) (if c then x' else y')
  Extends-if more true true x y x' y' h k = (h refl).1
  Extends-if more true false x y x' y' h k = cc ((h refl).0)
  Extends-if more false true x y x' y' h k = cc ((k refl).0)
  Extends-if more false false x y x' y' h k = (k refl).1

  module _ ⦃bo : ByteOrder⦄ where
    -- A read for which there are bytes enough.
    pub read-Extends :
        (w : ℕ) (e : Endianness) (slice more : List ℕ) (f g : ℕ × List ℕ → Result (List ℕ × O))
        → w ≤ length slice
        → ((v : ℕ) (rest : List ℕ)
            → length slice ≡ w + length rest
            → Extends more (f (v, rest)) (g (v, rest ++ more)))
        → Extends more
            (unwrap (bo.read_uint w e slice) >>= f)
            (unwrap (bo.read_uint w e (slice ++ more)) >>= g)
    read-Extends w e slice more f g le step =
        let (v, rest, h, l) = read_total w e slice le in
        rw (h, read-append w e slice more v rest h) (step v rest l)

    pub ok_or-Extends :
        (w : ℕ) (e : Endianness) (slice more : List ℕ) (x : PcapError)
        (f g : ℕ × List ℕ → Result (List ℕ × O))
        → w ≤ length slice
        → ((v : ℕ) (rest : List ℕ)
            → length slice ≡ w + length rest
            → Extends more (f (v, rest)) (g (v, rest ++ more)))
        → Extends more
            (ok_or (bo.read_uint w e slice) x >>= f)
            (ok_or (bo.read_uint w e (slice ++ more)) x >>= g)
    ok_or-Extends w e slice more x f g le step =
        let (v, rest, h, l) = read_total w e slice le in
        rw (h, read-append w e slice more v rest h) (step v rest l)

  -- A slice within the bounds, from the front or up to the end.
  pub slice_to-Extends :
      (n : ℕ) (slice more : List ℕ) (f g : List ℕ → Result (List ℕ × O))
      → n ≤ length slice
      → Extends more (f (take n slice)) (g (take n slice))
      → Extends more (slice_to n slice >>= f) (slice_to n (slice ++ more) >>= g)
  slice_to-Extends n slice more f g le step =
      rw (slice_to_lem n slice le, slice_to-append n slice more le) step

  pub slice_from-Extends :
      (n : ℕ) (slice more : List ℕ) (f g : List ℕ → Result (List ℕ × O))
      → n ≤ length slice
      → Extends more (f (drop n slice)) (g (drop n slice ++ more))
      → Extends more (slice_from n slice >>= f) (slice_from n (slice ++ more) >>= g)
  slice_from-Extends n slice more f g le step =
      rw (slice_from_lem n slice le, slice_from-append n slice more le) step

-- A parser followed by a step that does not look at the slice.
Extends-step :
    {B : Type 0} (rem more : List ℕ) (r : Result B)
    → IsCalm true r
    → Extends more (r >>= λ b. ok (rem, b)) (r >>= λ b. ok (rem ++ more, b))
Extends-step rem more (ok b) h = refl
Extends-step rem more (err incomplete_buffer) h = tt
Extends-step rem more (err (io_error k)) h = h.ne_io_error k refl
Extends-step rem more (err _) h = refl
Extends-step rem more panic h = h.ne_panic refl refl

pub Extends-then :
    {A B : Type 0} (more : List ℕ) (m q : Result (List ℕ × A)) (f : A → Result B)
    → Extends more m q
    → ((rem : List ℕ) (a : A) → m ≡ ok (rem, a) → IsCalm true (f a))
    → Extends more
        (m >>= λ (rem, a). f a >>= λ b. ok (rem, b))
        (q >>= λ (rem, a). f a >>= λ b. ok (rem, b))
Extends-then more (ok (rem, a)) q f h k = rw h (Extends-step rem more (f a) (k rem a refl))
Extends-then more (err incomplete_buffer) q f h k = tt
Extends-then more (err (io_error _)) q f h k = h
Extends-then more (err _) q f h k = rw h
Extends-then more panic q f h k = h

-- Inversion of successful steps.
pub if_err-eq-ok :
    {A : Type 0} (b : Bool) (e : PcapError) (y : Result A) {a : A}
    → (if b then err e else y) ≡ ok a
    → (b ≡ false) × (y ≡ ok a)
if_err-eq-ok true e y h = cc
if_err-eq-ok false e y h = (refl, h)

pub read-eq-ok :
    ⦃bo : ByteOrder⦄ {A : Type 0} (w : ℕ) (e : Endianness) (slice : List ℕ)
    (f : ℕ × List ℕ → Result A) {a : A}
    → (unwrap (bo.read_uint w e slice) >>= f) ≡ ok a
    → (v : ℕ) × (rest : List ℕ) × (bo.read_uint w e slice ≡ some (v, rest)) × (f (v, rest) ≡ ok a)
read-eq-ok ⦃bo⦄ {A} w e slice f {a} h = go (bo.read_uint w e slice) refl h
  where
    go :
        (o : Option (ℕ × List ℕ))
        → bo.read_uint w e slice ≡ o
        → (unwrap o >>= f) ≡ ok a
        → (v : ℕ) × (rest : List ℕ) × (bo.read_uint w e slice ≡ some (v, rest))
          × (f (v, rest) ≡ ok a)
    go none q k = cc
    go (some (v, rest)) q k = (v, rest, q, k)
