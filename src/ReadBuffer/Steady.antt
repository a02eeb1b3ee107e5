-- ===== src/ReadBuffer/Steady.antt =====
-- `parse_with` over a reader that does not fail, and a buffer that can hold the stream.
use pcap_file.Common.{
  ℕ, zero, suc, ◌+◌, ◌-◌, ◌≤◌, ◌<◌, ◌≡◌, refl, List, [], ◌∷◌, length, length-append, length-take,
  length-drop, All, All-append, Option, none, some, Bool-cases, inl, inr, Result, ok, err, panic,
  incomplete_buffer, io_error, append-nil, invalid_field, utf8_error, from_utf8_error,
  invalid_interface_id, unexpected_eof, other, leb, ◌==◌, arith,
}
use pcap_file.ByteOrder.{IsByte}
use pcap_file.ReadBuffer.{
  Source, chunk, fault, read, ReadBuffer, IsValid, window, refilled, fill_buf, advance_with_slice,
  Closure, Run, on_value, on_fill, on_answer, parse_with,
}
use pcap_file.ReadBuffer.Fill.{
  pending, stream, length-window, Filled, FillResult, fill_buf-FillResult, advance_with_slice_lem,
}
use pcap_file.ReadBuffer.Parse.{IsLawful, Outcome, parse_with-Outcome}

-- A source that delivers bytes with each read until its end, and never fails.
abbrev pub IsSteady : Source → Type 0
IsSteady [] = Unit
IsSteady (chunk c ∷ es) = (0 < length c) × IsSteady es
IsSteady (fault ∷ es) = ⊥

-- A read from such a source: it answers, and with no bytes only at the end.
abbrev SteadyRead : Option (List ℕ) × Source → Type 0
SteadyRead (none, es) = ⊥
SteadyRead (some bytes, es) = IsSteady es × (length bytes ≡ 0 → pending es ≡ [])

read-SteadyRead : (room : ℕ) (es : Source) → 0 < room → IsSteady es → SteadyRead (read room es)
unfolding read
read-SteadyRead room [] r h = (tt, λ _. refl)
read-SteadyRead room (fault ∷ es) r h = elim h [ ]
read-SteadyRead room (chunk c ∷ es) r (l, h) = elim (Bool-cases (leb (length c) room)) [
  | inl fits ↦ rw fits (h, λ z. absurd (omega (arith, l, z)))
  | inr long ↦
      let lt : room < length c = ground arith in
      rw long (
        (omega (arith, lt, length-drop room c), h),
        λ z. absurd (omega (arith, lt, z, r, length-take room c)),
      )
]

abbrev pub SteadyFill : Option ℕ × ReadBuffer → Type 0
SteadyFill (none, rb) = ⊥
SteadyFill (some n, rb) = IsSteady rb.reader × (n ≡ 0 → pending rb.reader ≡ [])

pub fill_buf-SteadyFill :
    (rb : ReadBuffer)
    → IsValid rb
    → IsSteady rb.reader
    → length (window rb) < length rb.buffer
    → SteadyFill (fill_buf rb)
unfolding fill_buf refilled
fill_buf-SteadyFill rb v h lt =
    go (read (length rb.buffer - (rb.len - rb.pos)) rb.reader)
      (read-SteadyRead _ rb.reader (omega (arith, lt, length-window rb v)) h)
  where
    go : (answer : Option (List ℕ) × Source) → SteadyRead answer → SteadyFill (refilled rb answer)
    go (none, es) s = s
    go (some bytes, es) s = s

-- A run that answers what the parser answers on the whole stream, `UnexpectedEof` where that is
-- `IncompleteBuffer`.
abbrev pub Answered : {S O : Type 0} → Closure S O → S → ReadBuffer → Run S O → Type 0
Answered parser s rb none = ⊥
Answered parser s rb (some (ok o, s', rb')) = parser s (stream rb) ≡ (ok (stream rb', o), s')
Answered parser s rb (some (err (io_error unexpected_eof), s', rb')) =
    parser s (stream rb) ≡ (err incomplete_buffer, s)
Answered parser s rb (some (err (io_error other), s', rb')) = ⊥
Answered parser s rb (some (err e, s', rb')) = parser s (stream rb) ≡ (err e, s')
Answered parser s rb (some (panic, s', rb')) = parser s (stream rb) ≡ (panic, s')

-- How a run over such a source ends: not with an error of the reader, with `UnexpectedEof` only where
-- the source has no more bytes, and with a value over such a source again.
abbrev pub Ended : {S O : Type 0} → Run S O → Type 0
Ended (some (ok _, s, rb)) = IsSteady rb.reader
Ended (some (err (io_error unexpected_eof), s, rb)) = pending rb.reader ≡ []
Ended (some (err (io_error other), s, rb)) = ⊥
Ended _ = Unit

no_more : (xs : List ℕ) → length xs ≡ 0 → xs ≡ []
no_more [] h = refl
no_more (x ∷ xs) h = absurd (omega arith)

module _ {S O : Type 0} (parser : Closure S O) (lawful : IsLawful parser) where
  value-Ended :
      (s s' : S) (rb : ReadBuffer) (rem : List ℕ) (o : O)
      → IsValid rb
      → All IsByte (window rb)
      → IsSteady rb.reader
      → parser s (window rb) ≡ (ok (rem, o), s')
      → Ended (on_value o s' rb (advance_with_slice rb rem))
  unfolding on_value
  value-Ended s s' rb rem o v bytes steady e =
      let (front, whole) = lawful.leaves s s' (window rb) rem o bytes e in
      let (_, adv, _, _, same, _) = advance_with_slice_lem rb front rem v whole in
      rw (adv, same) steady

  fill-Ended :
      (again : S → ReadBuffer → Run S O) (s : S) (rb : ReadBuffer)
      → ((rb' : ReadBuffer) (n : ℕ) → Filled rb n rb' → IsSteady rb'.reader → Ended (again s rb'))
      → (fill : Option ℕ × ReadBuffer) → FillResult rb fill
      → SteadyFill fill
      → Ended (on_fill again s fill)
  unfolding on_fill
  fill-Ended again s rb next (none, rb') f h = elim h [ ]
  fill-Ended again s rb next (some zero, rb') f (h, z) = z refl
  fill-Ended again s rb next (some (suc n), rb') f (h, z) = next rb' (suc n) f h

  answer-Ended :
      (again : S → ReadBuffer → Run S O) (s : S) (rb : ReadBuffer)
      → IsValid rb
      → All IsByte (stream rb)
      → IsSteady rb.reader
      → length (stream rb) ≤ length rb.buffer
      → ((s' : S) (rb' : ReadBuffer) (n : ℕ)
          → Filled rb n rb'
          → IsSteady rb'.reader
          → Ended (again s' rb'))
      → (answer : Result (List ℕ × O) × S) → parser s (window rb) ≡ answer
      → Ended (on_answer again rb answer)
  unfolding on_answer
  answer-Ended again s rb v bytes h fits next (ok (rem, o), s') e =
      value-Ended s s' rb rem o v (All-append IsByte (window rb) _ bytes).0 h e
  answer-Ended again s rb v bytes h fits next (err incomplete_buffer, s') e =
      elim (Bool-cases (length (window rb) == length rb.buffer)) [
        | inl full ↦ rw full (
            no_more (pending rb.reader) (
              let eq : length (window rb) ≡ length rb.buffer = ground arith in
              omega (arith, eq, fits, length-append (window rb) (pending rb.reader))))
        | inr room ↦
            let ne : length (window rb) < length rb.buffer =
              grind (arith, length-window rb v, v.len-le-capacity) in
            rw room (
              fill-Ended again s' rb (next s') (fill_buf rb) (fill_buf-FillResult rb v)
                (fill_buf-SteadyFill rb v h ne))
      ]
  answer-Ended again s rb v bytes h fits next (err (io_error _), s') e =
      absurd (rw e at (lawful.extends s (window rb) [] (All-append IsByte (window rb) _ bytes).0))
  answer-Ended again s rb v bytes h fits next (err (invalid_field _), s') e = tt
  answer-Ended again s rb v bytes h fits next (err utf8_error, s') e = tt
  answer-Ended again s rb v bytes h fits next (err from_utf8_error, s') e = tt
  answer-Ended again s rb v bytes h fits next (err (invalid_interface_id _), s') e = tt
  answer-Ended again s rb v bytes h fits next (panic, s') e = tt

  pub parse_with-Ended :
      (fuel : ℕ) (s : S) (rb : ReadBuffer)
      → IsValid rb
      → All IsByte (stream rb)
      → IsSteady rb.reader
      → length (stream rb) ≤ length rb.buffer
      → Ended (parse_with fuel parser s rb)
  unfolding parse_with
  parse_with-Ended zero s rb v bytes h fits = tt
  parse_with-Ended (suc fuel) s rb v bytes h fits =
      answer-Ended (parse_with fuel parser) s rb v bytes h fits
        (λ s' rb' n f h'.
          parse_with-Ended fuel s' rb' f.valid (rw f.same_stream bytes) h'
            (rw (f.same_stream, f.capacity) fits))
        (parser s (window rb)) refl

  both-Answered :
      (s : S) (rb : ReadBuffer) (run : Run S O)
      → Outcome parser s rb run
      → Ended run
      → Answered parser s rb run
  both-Answered s rb none h k = h
  both-Answered s rb (some (ok _, s', rb')) (_, _, r) k = r
  both-Answered s rb (some (err (io_error unexpected_eof), s', rb')) (_, _, same, _, r) k =
      rw (← same, k, append-nil) r
  both-Answered s rb (some (err (io_error other), s', rb')) h k = k
  both-Answered s rb (some (err incomplete_buffer, s', rb')) (_, _, _, r) k = r
  both-Answered s rb (some (err (invalid_field _), s', rb')) (_, _, _, r) k = r
  both-Answered s rb (some (err utf8_error, s', rb')) (_, _, _, r) k = r
  both-Answered s rb (some (err from_utf8_error, s', rb')) (_, _, _, r) k = r
  both-Answered s rb (some (err (invalid_interface_id _), s', rb')) (_, _, _, r) k = r
  both-Answered s rb (some (panic, s', rb')) h k = h

  -- Over a source that delivers bytes with each read until its end and never fails, with a valid
  -- buffer that can hold the whole stream of bytes and fuel for each byte that it can still take,
  -- `parse_with` answers exactly what a lawful parser answers on the whole stream, and
  -- `UnexpectedEof` where that is `IncompleteBuffer`.
  pub parse_with-Answered :
      (fuel : ℕ) (s : S) (rb : ReadBuffer)
      → IsValid rb
      → All IsByte (stream rb)
      → IsSteady rb.reader
      → length (stream rb) ≤ length rb.buffer
      → length rb.buffer < fuel + length (window rb)
      → Answered parser s rb (parse_with fuel parser s rb)
  parse_with-Answered fuel s rb v bytes h fits enough =
      both-Answered s rb _ (parse_with-Outcome parser lawful fuel s rb v bytes enough)
        (parse_with-Ended fuel s rb v bytes h fits)
