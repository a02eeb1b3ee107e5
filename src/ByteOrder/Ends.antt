-- ===== src/ByteOrder/Ends.antt =====
-- Parsers that leave an end of their slice as the remainder.
use pcap_file.Common.{
  ℕ, ◌≡◌, refl, sym, ap, ◌∙◌, List, [], ◌++◌, append_assoc, All, length, take, drop,
  take-append-drop, Option, none, some, Bool, true, false, Bool-cases, inl, inr, Result, ok, err,
  panic, ◌>>=◌, unwrap, PcapError, ok_or, leb, if◌then◌else◌, slice_from, arith,
}
use native.Mathlib.Decide.{dec_le}
use mathlib.Core.Option.{some-injective}
use pcap_file.ByteOrder.{ByteOrder, Endianness, IsByte}

abbrev pub IsEnd : List ℕ → List ℕ → Type 0
IsEnd rem slice = (front : List ℕ) × (front ++ rem ≡ slice)

-- What the parsers leave is an end of the slice.
abbrev pub Leaves : {O : Type 0} → (List ℕ → Result (List ℕ × O)) → Type 0
Leaves {O} p =
    (slice rem : List ℕ) (o : O) → All IsByte slice → p slice ≡ ok (rem, o) → IsEnd rem slice

-- The same of one answer.
pub record LeavesEnd {O : Type 0} (slice : List ℕ) (r : Result (List ℕ × O)) : Type 0 where
  pub ends : (rem : List ℕ) (o : O) → r ≡ ok (rem, o) → IsEnd rem slice

pub IsEnd-refl : (slice : List ℕ) → IsEnd slice slice
IsEnd-refl slice = ([], refl)

pub IsEnd-trans : (a b c : List ℕ) → IsEnd a b → IsEnd b c → IsEnd a c
IsEnd-trans a b c (f, q) (g, r) = (g ++ f, append_assoc g f a ∙ ap (◌++◌ g) q ∙ r)

pub drop-IsEnd : (n : ℕ) (slice : List ℕ) → IsEnd (drop n slice) slice
drop-IsEnd n slice = (take n slice, take-append-drop n slice)

pub LeavesEnd-Leaves :
    {O : Type 0} (p : List ℕ → Result (List ℕ × O))
    → ((slice : List ℕ) → LeavesEnd slice (p slice))
    → Leaves p
LeavesEnd-Leaves p h slice rem o _ q = (h slice).ends rem o q

read-IsEnd :
    ⦃bo : ByteOrder⦄ (w : ℕ) (e : Endianness) (s : List ℕ) (v : ℕ) (rest : List ℕ)
    → bo.read_uint w e s ≡ some (v, rest)
    → IsEnd rest s
read-IsEnd ⦃bo⦄ w e s v rest q = elim (dec_le w (length s)) [
  | yes le ↦
      let same : drop w s ≡ rest =
        ap (λ (x : ℕ × List ℕ). x.1) (some-injective _ _ (sym (bo.read_value w e s le) ∙ q)) in
      rw (← same) (drop-IsEnd w s)
  | no lt ↦ cc (bo.read_short w e s (omega arith))
]

module _ {O : Type 0} (slice : List ℕ) where
  pub ok-LeavesEnd : (rem : List ℕ) (o : O) → IsEnd rem slice → LeavesEnd slice (ok (rem, o))
  ok-LeavesEnd rem o h = record {
    ends = λ rem' o' q. let same : rem ≡ rem' = cc q in rw (← same) h;
  }

  pub err-LeavesEnd : (e : PcapError) → LeavesEnd {O = O} slice (err e)
  err-LeavesEnd e = record { ends = λ rem o q. cc q }

  panic-LeavesEnd : LeavesEnd {O = O} slice panic
  panic-LeavesEnd = record { ends = λ rem o q. cc q }

  pub if-LeavesEnd :
      (b : Bool) (x y : Result (List ℕ × O))
      → LeavesEnd slice x
      → LeavesEnd slice y
      → LeavesEnd slice (if b then x else y)
  if-LeavesEnd true x y h k = h
  if-LeavesEnd false x y h k = k

  pub >>=-LeavesEnd :
      {A : Type 0} (m : Result A) (f : A → Result (List ℕ × O))
      → ((a : A) → m ≡ ok a → LeavesEnd slice (f a))
      → LeavesEnd slice (m >>= f)
  >>=-LeavesEnd (ok a) f h = h a refl
  >>=-LeavesEnd (err e) f h = err-LeavesEnd e
  >>=-LeavesEnd panic f h = panic-LeavesEnd

  pub slice_from-LeavesEnd :
      (n : ℕ) (s : List ℕ) (f : List ℕ → Result (List ℕ × O))
      → IsEnd s slice
      → ((rest : List ℕ) → IsEnd rest slice → LeavesEnd slice (f rest))
      → LeavesEnd slice (slice_from n s >>= f)
  unfolding slice_from
  slice_from-LeavesEnd n s f i h = elim (Bool-cases (leb n (length s))) [
    | inl le ↦ rw le (h (drop n s) (IsEnd-trans _ s slice (drop-IsEnd n s) i))
    | inr gt ↦ rw gt panic-LeavesEnd
  ]

  module _ ⦃bo : ByteOrder⦄ where
    pub read-LeavesEnd :
        (w : ℕ) (e : Endianness) (s : List ℕ) (f : ℕ × List ℕ → Result (List ℕ × O))
        → IsEnd s slice
        → ((v : ℕ) (rest : List ℕ) → IsEnd rest slice → LeavesEnd slice (f (v, rest)))
        → LeavesEnd slice (unwrap (bo.read_uint w e s) >>= f)
    read-LeavesEnd w e s f i h = go (bo.read_uint w e s) refl
      where
        go : (o : Option (ℕ × List ℕ)) → bo.read_uint w e s ≡ o → LeavesEnd slice (unwrap o >>= f)
        go none q = panic-LeavesEnd
        go (some (v, rest)) q = h v rest (IsEnd-trans rest s slice (read-IsEnd w e s v rest q) i)

    pub ok_or-LeavesEnd :
        (w : ℕ) (e : Endianness) (s : List ℕ) (x : PcapError) (f : ℕ × List ℕ → Result (List ℕ × O))
        → IsEnd s slice
        → ((v : ℕ) (rest : List ℕ) → IsEnd rest slice → LeavesEnd slice (f (v, rest)))
        → LeavesEnd slice (ok_or (bo.read_uint w e s) x >>= f)
    ok_or-LeavesEnd w e s x f i h = go (bo.read_uint w e s) refl
      where
        go : (o : Option (ℕ × List ℕ)) → bo.read_uint w e s ≡ o → LeavesEnd slice (ok_or o x >>= f)
        go none q = err-LeavesEnd x
        go (some (v, rest)) q = h v rest (IsEnd-trans rest s slice (read-IsEnd w e s v rest q) i)
