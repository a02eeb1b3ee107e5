-- ===== src/ReadBuffer/Drain.antt =====
-- The `next_*` methods over a reader that does not fail, and a buffer that can hold the stream.
use pcap_file.Common.{
  ℕ, zero, suc, ◌+◌, ◌≤◌, ◌<◌, ◌≡◌, refl, sym, ap, ◌∙◌, List, [], ◌∷◌, length, length-append, All,
  All-append, Option, none, some, Bool, true, false, Bool-cases, inl, inr, Result, ok, err, panic,
  incomplete_buffer, io_error, invalid_field, utf8_error, from_utf8_error, invalid_interface_id,
  unexpected_eof, other, ◌==◌, arith,
}
use pcap_file.ByteOrder.{IsByte}
use pcap_file.ReadBuffer.{
  Source, with_capacity, ReadBuffer, IsValid, window, fill_buf, any_read, has_data_left, Closure,
  Run, parse_with, parsed, on_data_left, next_with,
}
use pcap_file.ReadBuffer.Fill.{
  with_capacity-IsValid, stream, pending, FillResult, fill_buf-FillResult,
}
use pcap_file.ReadBuffer.Parse.{IsLawful, Outcome, parse_with-Outcome}
use pcap_file.ReadBuffer.Steady.{
  IsSteady, SteadyFill, fill_buf-SteadyFill, Ended, Answered, parse_with-Ended, parse_with-Answered,
}

-- A buffer over a source that does not fail, with room for all bytes of the stream.
pub record IsReady (rb : ReadBuffer) : Type 0 where
  pub valid : IsValid rb
  pub steady : IsSteady rb.reader
  pub bytes : All IsByte (stream rb)
  pub room : 0 < length rb.buffer
  pub fits : length (stream rb) ≤ length rb.buffer

pub with_capacity-IsReady :
    (source : Source) (capacity : ℕ)
    → IsSteady source
    → All IsByte (pending source)
    → 0 < capacity
    → length (pending source) ≤ capacity
    → IsReady (with_capacity source capacity)
with_capacity-IsReady source capacity steady bytes room fits =
    let (v, s, c) = with_capacity-IsValid source capacity in
    record {
      valid = v;
      steady = unfold with_capacity in steady;
      bytes = rw s bytes;
      room = omega (arith, c, room);
      fits = omega (arith, c, ap length s, fits);
    }

-- What `has_data_left` says of such a buffer: whether its stream has bytes.
abbrev Left : ReadBuffer → Option Bool × ReadBuffer → Type 0
Left rb (none, rb') = ⊥
Left rb (some true, rb') = IsReady rb' × (stream rb' ≡ stream rb) × (0 < length (stream rb))
Left rb (some false, rb') = stream rb ≡ []

empty : (xs : List ℕ) → length xs ≡ 0 → xs ≡ []
empty [] h = refl
empty (x ∷ xs) h = absurd (omega arith)

has_data_left-Left : (rb : ReadBuffer) → IsReady rb → Left rb (has_data_left rb)
unfolding has_data_left
has_data_left-Left rb r = elim (Bool-cases (length (window rb) == 0)) [
  | inl none_left ↦
      let w : window rb ≡ [] = empty (window rb) (ground arith) in
      rw none_left (
        go w (fill_buf rb) (fill_buf-FillResult rb r.valid)
          (fill_buf-SteadyFill rb r.valid r.steady (omega (arith, r.room, ap length w))))
  | inr left ↦
      let some_left : 0 < length (window rb) = ground arith in
      rw left (r, refl, omega (arith, some_left, length-append (window rb) (pending rb.reader)))
]
  where
    go :
        window rb ≡ []
        → (fill : Option ℕ × ReadBuffer) → FillResult rb fill
        → SteadyFill fill
        → Left rb (any_read fill)
    go w (none, rb') f h = h
    go w (some zero, rb') f (h, z) =
        sym f.same_stream ∙ rw (f.grown, w, empty f.got f.got_length, z refl) refl
    go w (some (suc n), rb') f (h, z) = (
      record {
        valid = f.valid;
        steady = h;
        bytes = rw f.same_stream r.bytes;
        room = rw f.capacity r.room;
        fits = rw (f.same_stream, f.capacity) r.fits;
      },
      f.same_stream,
      omega (
        arith,
        ap length f.same_stream,
        length-append (window rb') (pending rb'.reader),
        ap length f.grown,
        length-append (window rb) f.got,
        f.got_length,
      ),
    )

module _ {S O : Type 0} (parser : Closure S O) (lawful : IsLawful parser) where
  clash :
      {r : Result (List ℕ × O)} {v : List ℕ × O} {s₁ s₂ : S}
      → ◌≡◌ {A = Result (List ℕ × O) × S} (r, s₁) (ok v, s₂)
      → r ≡ ok v
  clash e = ap (λ (x : Result (List ℕ × O) × S). x.0) e

  -- A run where the parser reads a value off the stream.
  run_ok :
      (s s' : S) (rb : ReadBuffer) (rest : List ℕ) (o : O) (run : Run S O)
      → IsReady rb
      → parser s (stream rb) ≡ (ok (rest, o), s')
      → Outcome parser s rb run
      → Ended run
      → Answered parser s rb run
      → (rb' : ReadBuffer) × (run ≡ some (ok o, s', rb')) × IsReady rb' × (stream rb' ≡ rest)
  run_ok s s' rb rest o none r q h k a = elim a [ ]
  run_ok s s' rb rest o (some (ok o₁, s₁, rb')) r q (v, c, e) k a =
      let both = sym e ∙ q in
      let value : ◌≡◌ {A = Result (List ℕ × O)} (ok (stream rb', o₁)) (ok (rest, o)) = clash both in
      let left : stream rb' ≡ rest = cc value in
      let same_value : o₁ ≡ o = cc value in
      let same_state : s₁ ≡ s' = ap (λ (x : Result (List ℕ × O) × S). x.1) both in
      let (front, whole) = lawful.leaves s s' (stream rb) rest o r.bytes q in
      (
        rb',
        rw (same_value, same_state) refl,
        record {
          valid = v;
          steady = k;
          bytes = rw left ((All-append IsByte front rest (rw whole r.bytes)).1);
          room = rw c r.room;
          fits =
              omega (arith, c, ap length left, ap length whole, length-append front rest, r.fits);
        },
        left,
      )
  run_ok s s' rb rest o (some (err (io_error unexpected_eof), _, _)) r q h k a =
      cc (clash (sym a ∙ q))
  run_ok s s' rb rest o (some (err (io_error other), _, _)) r q h k a = elim a [ ]
  run_ok s s' rb rest o (some (err incomplete_buffer, _, _)) r q h k a = cc (clash (sym a ∙ q))
  run_ok s s' rb rest o (some (err (invalid_field _), _, _)) r q h k a = cc (clash (sym a ∙ q))
  run_ok s s' rb rest o (some (err utf8_error, _, _)) r q h k a = cc (clash (sym a ∙ q))
  run_ok s s' rb rest o (some (err from_utf8_error, _, _)) r q h k a = cc (clash (sym a ∙ q))
  run_ok s s' rb rest o (some (err (invalid_interface_id _), _, _)) r q h k a =
      cc (clash (sym a ∙ q))
  run_ok s s' rb rest o (some (panic, _, _)) r q h k a = cc (clash (sym a ∙ q))

  pub parse_with_ok :
      (fuel : ℕ) (s s' : S) (rb : ReadBuffer) (rest : List ℕ) (o : O)
      → IsReady rb
      → length rb.buffer < fuel + length (window rb)
      → parser s (stream rb) ≡ (ok (rest, o), s')
      → (rb' : ReadBuffer) × (parse_with fuel parser s rb ≡ some (ok o, s', rb'))
        × IsReady rb'
        × (stream rb' ≡ rest)
  parse_with_ok fuel s s' rb rest o r enough q =
      run_ok s s' rb rest o (parse_with fuel parser s rb) r q
        (parse_with-Outcome parser lawful fuel s rb r.valid r.bytes enough)
        (parse_with-Ended parser lawful fuel s rb r.valid r.bytes r.steady r.fits)
        (parse_with-Answered parser lawful fuel s rb r.valid r.bytes r.steady r.fits enough)

  -- Where the parser reads a value off a stream that is not empty, the method gives it.
  pub next_with_ok :
      (s s' : S) (rb : ReadBuffer) (rest : List ℕ) (o : O)
      → IsReady rb
      → 0 < length (stream rb)
      → parser s (stream rb) ≡ (ok (rest, o), s')
      → (rb' : ReadBuffer) × (next_with parser s rb ≡ some (some (ok o), s', rb'))
        × IsReady rb'
        × (stream rb' ≡ rest)
  unfolding next_with
  next_with_ok s s' rb rest o r long q = go (has_data_left rb) (has_data_left-Left rb r)
    where
      go :
          (left : Option Bool × ReadBuffer)
          → Left rb left
          → (rb' : ReadBuffer) × (on_data_left
                (λ x. parse_with (suc (length x.buffer)) parser s x)
                s
                left
              ≡ some (some (ok o), s', rb'))
            × IsReady rb'
            × (stream rb' ≡ rest)
      go (none, rb₁) h = elim h [ ]
      go (some false, rb₁) h = absurd (omega (arith, long, ap length h))
      go (some true, rb₁) (r₁, same, _) =
          let (rb', e, r', l) =
            parse_with_ok (suc (length rb₁.buffer)) s s' rb₁ rest o r₁ (omega arith) (rw same q) in
          (rb', rw e (unfold on_data_left in unfold parsed in refl), r', l)

  -- At the end of the stream it gives nothing.
  pub next_with_end :
      (s : S) (rb : ReadBuffer)
      → IsReady rb
      → stream rb ≡ []
      → (rb' : ReadBuffer) × (next_with parser s rb ≡ some (none, s, rb'))
  unfolding next_with
  next_with_end s rb r q = go (has_data_left rb) (has_data_left-Left rb r)
    where
      go :
          (left : Option Bool × ReadBuffer)
          → Left rb left
          → (rb' : ReadBuffer) × (on_data_left
                (λ x. parse_with (suc (length x.buffer)) parser s x)
                s
                left
              ≡ some (none, s, rb'))
      go (none, rb₁) h = elim h [ ]
      go (some false, rb₁) h = (rb₁, unfold on_data_left in refl)
      go (some true, rb₁) (r₁, same, some_left) = absurd (omega (arith, some_left, ap length q))
