-- ===== src/Common/Outcome.antt =====
-- errors.rs, and what a Rust function can do: return, fail, or panic.
use Prim.Native.Nat.{ℕ, ◌≤◌}
use Prim.Native.String.{String}
use mathlib.Core.Path.{◌≡◌, refl}
use mathlib.Core.Logic.{◌≢◌, inl, inr}
use mathlib.Core.List.{List}
use mathlib.Core.Option.{Option, none, some}
use mathlib.Core.Bool.{Bool, true, false}
use native.Mathlib.Omega.{arith}
use pcap_file.Common.Tests.{leb, if◌then◌else◌, Bool-cases}
use pcap_file.Common.Lists.{length, take, drop}

-- The kinds of `std::io::Error` that occur: the one the library makes, and any other of the reader.
pub data IoErrorKind : Type 0 where
  unexpected_eof : IoErrorKind
  other : IoErrorKind

pub data PcapError : Type 0 where
  incomplete_buffer : PcapError
  io_error : IoErrorKind → PcapError
  invalid_field : String → PcapError
  utf8_error : PcapError
  from_utf8_error : PcapError
  invalid_interface_id : ℕ → PcapError

-- `PcapResult<T>`. The panic of a failed `unwrap`, slice or assertion is a value of its own.
pub data Result {ℓ} (A : Type ℓ) : Type ℓ where
  panic : Result A
  ok : A → Result A
  err : PcapError → Result A

-- `o.unwrap()`
abbrev pub unwrap {ℓ} : {A : Type ℓ} → Option A → Result A
unwrap none = panic
unwrap (some a) = ok a

-- `o.map_err(|_| e)?`
abbrev pub ok_or {ℓ} : {A : Type ℓ} → Option A → PcapError → Result A
ok_or none e = err e
ok_or (some a) e = ok a

-- `if !test { return Err(e) }`
abbrev pub guard : Bool → PcapError → Result (Unit {0})
guard test e = if test then ok tt else err e

-- `?`, and a statement followed by the rest.
infixl 5 ◌>>=◌ ◌>>◌
abbrev pub ◌>>=◌ {ℓ ℓ'} : {A : Type ℓ} {B : Type ℓ'} → Result A → (A → Result B) → Result B
panic >>= rest = panic
ok value >>= rest = rest value
err e >>= rest = err e

abbrev pub ◌>>◌ {ℓ} : {B : Type ℓ} → Result (Unit {0}) → Result B → Result B
panic >> rest = panic
ok _ >> rest = rest
err e >> rest = err e

-- `&slice[..n]` and `&slice[n..]`
unfoldable pub slice_to : ℕ → List ℕ → Result (List ℕ)
slice_to n slice = if leb n (length slice) then ok (take n slice) else panic

unfoldable pub slice_from : ℕ → List ℕ → Result (List ℕ)
slice_from n slice = if leb n (length slice) then ok (drop n slice) else panic

pub slice_to_lem :
    (n : ℕ) (slice : List ℕ) → n ≤ length slice → slice_to n slice ≡ ok (take n slice)
unfolding slice_to
slice_to_lem n slice h = ground arith

pub slice_from_lem :
    (n : ℕ) (slice : List ℕ) → n ≤ length slice → slice_from n slice ≡ ok (drop n slice)
unfolding slice_from
slice_from_lem n slice h = ground arith

-- A bind does not panic if neither part does.
pub >>=-ne-panic {ℓ κ} :
    {A : Type ℓ} {B : Type κ} (m : Result A) (f : A → Result B)
    → m ≢ panic
    → ((a : A) → m ≡ ok a → f a ≢ panic)
    → (m >>= f) ≢ panic
>>=-ne-panic (ok a) f h k = k a refl
>>=-ne-panic (err e) f h k = λ p. cc
>>=-ne-panic panic f h k = λ p. h refl

-- A chain that succeeded: its first step did, and the rest on what that gave.
pub >>=-eq-ok {ℓ ℓ'} :
    {A : Type ℓ} {B : Type ℓ'} (step : Result A) (rest : A → Result B) {b : B}
    → (step >>= rest) ≡ ok b
    → (a : A) × (step ≡ ok a) × (rest a ≡ ok b)
>>=-eq-ok panic rest q = cc q
>>=-eq-ok (err e) rest q = cc q
>>=-eq-ok (ok a) rest q = (a, refl, q)

pub ok_or-eq-ok {ℓ ℓ'} :
    {A : Type ℓ} {B : Type ℓ'} (o : Option A) (e : PcapError) (rest : A → Result B) {b : B}
    → (ok_or o e >>= rest) ≡ ok b
    → (a : A) × (o ≡ some a) × (rest a ≡ ok b)
ok_or-eq-ok none e rest q = cc q
ok_or-eq-ok (some a) e rest q = (a, refl, q)

pub guard-eq-ok {ℓ} :
    {A : Type ℓ} (test : Bool) (e : PcapError) (rest : Result A) {a : A}
    → (guard test e >> rest) ≡ ok a
    → (test ≡ true) × (rest ≡ ok a)
guard-eq-ok true e rest q = (refl, q)
guard-eq-ok false e rest q = cc q

-- A slice that was taken lay within the bounds.
pub slice_to-eq-ok :
    {A : Type 0} (n : ℕ) (slice : List ℕ) (f : List ℕ → Result A) {a : A}
    → (slice_to n slice >>= f) ≡ ok a
    → (n ≤ length slice) × (f (take n slice) ≡ ok a)
unfolding slice_to
slice_to-eq-ok n slice f h = elim (Bool-cases (leb n (length slice))) [
  | inl le ↦ (ground arith, rw le at h)
  | inr gt ↦ cc (rw gt at h)
]

pub slice_from-eq-ok :
    {A : Type 0} (n : ℕ) (slice : List ℕ) (f : List ℕ → Result A) {a : A}
    → (slice_from n slice >>= f) ≡ ok a
    → (n ≤ length slice) × (f (drop n slice) ≡ ok a)
unfolding slice_from
slice_from-eq-ok n slice f h = elim (Bool-cases (leb n (length slice))) [
  | inl le ↦ (ground arith, rw le at h)
  | inr gt ↦ cc (rw gt at h)
]
