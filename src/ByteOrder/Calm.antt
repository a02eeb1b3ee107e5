-- ===== src/ByteOrder/Calm.antt =====
-- Results that are no I/O error and, where `strict`, no panic: the rules by which a parser's parts
-- give one.
use pcap_file.Common.{
  ℕ, ◌+◌, ◌≤◌, ◌≡◌, ◌≢◌, refl, List, length, take, drop, Option, none, some, Bool, true, false,
  Bool-cases, inl, inr, Result, ok, err, panic, ◌>>=◌, ◌>>◌, guard, unwrap, ok_or, IoErrorKind,
  io_error, invalid_field, incomplete_buffer, utf8_error, if◌then◌else◌, String, slice_to,
  slice_from, slice_to_lem, slice_from_lem, ltb, ltb→le,
}
use pcap_file.ByteOrder.{ByteOrder, Endianness}
use pcap_file.ByteOrder.Laws.{read_total}

pub record IsCalm (strict : Bool) {B : Type 0} (r : Result B) : Type 0 where
  pub ne_panic : strict ≡ true → r ≢ panic
  pub ne_io_error : (k : IoErrorKind) → r ≢ err (io_error k)

module _ {strict : Bool} where
  pub ok-IsCalm : {B : Type 0} (b : B) → IsCalm strict (ok b)
  ok-IsCalm b = record { ne_panic = λ _ e. cc e; ne_io_error = λ k e. cc e }

  pub incomplete-IsCalm : {B : Type 0} → IsCalm strict {B = B} (err incomplete_buffer)
  incomplete-IsCalm = record { ne_panic = λ _ e. cc e; ne_io_error = λ k e. cc e }

  pub invalid-IsCalm : {B : Type 0} (msg : String) → IsCalm strict {B = B} (err (invalid_field msg))
  invalid-IsCalm msg = record { ne_panic = λ _ e. cc e; ne_io_error = λ k e. cc e }

  pub utf8-IsCalm : {B : Type 0} → IsCalm strict {B = B} (err utf8_error)
  utf8-IsCalm = record { ne_panic = λ _ e. cc e; ne_io_error = λ k e. cc e }

  pub if-IsCalm :
      {B : Type 0} (b : Bool) (x y : Result B)
      → IsCalm strict x
      → IsCalm strict y
      → IsCalm strict (if b then x else y)
  if-IsCalm true x y h k = h
  if-IsCalm false x y h k = k

  pub >>=-IsCalm :
      {A B : Type 0} (m : Result A) (f : A → Result B)
      → IsCalm strict m
      → ((a : A) → m ≡ ok a → IsCalm strict (f a))
      → IsCalm strict (m >>= f)
  >>=-IsCalm (ok a) f h k = k a refl
  >>=-IsCalm (err e) f h k = record {
    ne_panic = λ _ q. cc q;
    ne_io_error = λ x q. h.ne_io_error x (cc q);
  }
  >>=-IsCalm panic f h k = record { ne_panic = λ s q. h.ne_panic s refl; ne_io_error = λ x q. cc q }

  -- The tests before a step may be used in it.
  pub guard-IsCalm :
      {B : Type 0} (b : Bool) (msg : String) (k : Result B)
      → (b ≡ true → IsCalm strict k)
      → IsCalm strict (guard b (invalid_field msg) >> k)
  guard-IsCalm true msg k h = h refl
  guard-IsCalm false msg k h = invalid-IsCalm msg

  pub ok_or-IsCalm :
      {A B : Type 0} (o : Option A) (f : A → Result B)
      → ((a : A) → o ≡ some a → IsCalm strict (f a))
      → IsCalm strict (ok_or o incomplete_buffer >>= f)
  ok_or-IsCalm none f h = incomplete-IsCalm
  ok_or-IsCalm (some a) f h = h a refl

  pub too_short-IsCalm :
      {B : Type 0} (n w : ℕ) (e : Result B) (k : Result B)
      → IsCalm strict e
      → (w ≤ n → IsCalm strict k)
      → IsCalm strict (if ltb n w then e else k)
  too_short-IsCalm n w e k h next = elim (Bool-cases (ltb n w)) [
    | inl short ↦ rw short h
    | inr long ↦ rw long (next (ltb→le n w long))
  ]

  pub read-IsCalm :
      ⦃bo : ByteOrder⦄ {B : Type 0} (w : ℕ) (e : Endianness) (slice : List ℕ)
      (f : ℕ × List ℕ → Result B)
      → w ≤ length slice
      → ((v : ℕ) (rest : List ℕ) → length slice ≡ w + length rest → IsCalm strict (f (v, rest)))
      → IsCalm strict (unwrap (bo.read_uint w e slice) >>= f)
  read-IsCalm w e slice f le step =
      let (v, rest, h, l) = read_total w e slice le in rw h (step v rest l)

  pub slice_to-IsCalm :
      {B : Type 0} (n : ℕ) (slice : List ℕ) (f : List ℕ → Result B)
      → n ≤ length slice
      → IsCalm strict (f (take n slice))
      → IsCalm strict (slice_to n slice >>= f)
  slice_to-IsCalm n slice f le h = rw (slice_to_lem n slice le) h

  pub slice_from-IsCalm :
      {B : Type 0} (n : ℕ) (slice : List ℕ) (f : List ℕ → Result B)
      → n ≤ length slice
      → IsCalm strict (f (drop n slice))
      → IsCalm strict (slice_from n slice >>= f)
  slice_from-IsCalm n slice f le h = rw (slice_from_lem n slice le) h

-- The rules that look at the form of the result alone.
pub ruleset calm = (
  ok-IsCalm, incomplete-IsCalm, invalid-IsCalm, utf8-IsCalm, if-IsCalm, guard-IsCalm, ok_or-IsCalm,
  >>=-IsCalm,
)
