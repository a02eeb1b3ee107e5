-- ===== src/ReadBuffer/Parse.antt =====
-- `parse_with` against the parser applied to the whole stream.
use pcap_file.Common.{
  ℕ, zero, suc, ◌+◌, ◌<◌, ◌≡◌, refl, ap, ◌∙◌, List, [], ◌∷◌, ◌++◌, append-nil, length, All,
  All-append, length-append, Option, none, some, Bool-cases, inl, inr, Result, ok, err, panic,
  incomplete_buffer, io_error, invalid_field, utf8_error, from_utf8_error, invalid_interface_id,
  unexpected_eof, other, ◌==◌, arith,
}
use pcap_file.ByteOrder.{IsByte}
use pcap_file.ReadBuffer.{
  ReadBuffer, IsValid, window, fill_buf, advance_with_slice, Closure, Run, on_value, on_fill,
  on_answer, parse_with,
}
use pcap_file.ReadBuffer.Fill.{
  pending, stream, length-window, Filled, FillResult, fill_buf-FillResult, advance_with_slice_lem,
}

-- The answer `q` of a closure on a slice that `more` was appended to, against the answer on the
-- slice itself, from the state `s`.
abbrev pub ExtendsFrom :
    {S O : Type 0} → S → List ℕ → Result (List ℕ × O) × S → Result (List ℕ × O) × S → Type 0
ExtendsFrom s more (ok (rem, o), s') q = q ≡ (ok (rem ++ more, o), s')
ExtendsFrom s more (err incomplete_buffer, s') q = s' ≡ s
ExtendsFrom s more (err (io_error k), s') q = ⊥
ExtendsFrom s more (err e, s') q = q ≡ (err e, s')
ExtendsFrom s more (panic, s') q = q ≡ (panic, s')

-- What `parse_with` needs of its parser, on slices of bytes. It leaves an end of the slice; more
-- input changes nothing but the remainder, unless the answer is `IncompleteBuffer`; that answer
-- leaves the parser's state alone; and it reports no I/O error. A panic is an answer like any other.
pub record IsLawful {S O : Type 0} (parser : Closure S O) : Type 0 where
  pub leaves :
      (s s' : S) (slice rem : List ℕ) (o : O)
      → All IsByte slice
      → parser s slice ≡ (ok (rem, o), s')
      → (front : List ℕ) × (front ++ rem ≡ slice)
  pub extends :
      (s : S) (slice more : List ℕ)
      → All IsByte slice
      → ExtendsFrom s more (parser s slice) (parser s (slice ++ more))

-- What a run says about the stream of the buffer it began with.
abbrev pub Outcome : {S O : Type 0} → Closure S O → S → ReadBuffer → Run S O → Type 0
Outcome parser s rb none = ⊥
Outcome parser s rb (some (ok o, s', rb')) =
    IsValid rb'
    × (length rb'.buffer ≡ length rb.buffer)
    × (parser s (stream rb) ≡ (ok (stream rb', o), s'))
Outcome parser s rb (some (err (io_error unexpected_eof), s', rb')) =
    IsValid rb'
    × (length rb'.buffer ≡ length rb.buffer)
    × (stream rb' ≡ stream rb)
    × (s' ≡ s)
    × (parser s (window rb') ≡ (err incomplete_buffer, s))
Outcome parser s rb (some (err (io_error other), s', rb')) =
    IsValid rb' × (length rb'.buffer ≡ length rb.buffer) × (s' ≡ s)
Outcome parser s rb (some (err e, s', rb')) =
    IsValid rb'
    × (length rb'.buffer ≡ length rb.buffer)
    × (stream rb' ≡ stream rb)
    × (parser s (stream rb) ≡ (err e, s'))
Outcome parser s rb (some (panic, s', rb')) = parser s (stream rb) ≡ (panic, s')

module _ {S O : Type 0} (parser : Closure S O) where
  -- An outcome is one from every buffer with the same stream and capacity.
  pub Outcome-moved :
      (s : S) (rb rb₁ : ReadBuffer) (run : Run S O)
      → stream rb₁ ≡ stream rb
      → length rb₁.buffer ≡ length rb.buffer
      → Outcome parser s rb₁ run
      → Outcome parser s rb run
  Outcome-moved s rb rb₁ none e c h = h
  Outcome-moved s rb rb₁ (some (ok o, s', rb')) e c (v, k, r) = (v, k ∙ c, rw (← e) r)
  Outcome-moved s rb rb₁ (some (err (io_error unexpected_eof), s', rb')) e c (v, k, t, u, r) =
      (v, k ∙ c, t ∙ e, u, r)
  Outcome-moved s rb rb₁ (some (err (io_error other), s', rb')) e c (v, k, u) = (v, k ∙ c, u)
  Outcome-moved s rb rb₁ (some (err incomplete_buffer, s', rb')) e c (v, k, t, r) =
      (v, k ∙ c, t ∙ e, rw (← e) r)
  Outcome-moved s rb rb₁ (some (err (invalid_field _), s', rb')) e c (v, k, t, r) =
      (v, k ∙ c, t ∙ e, rw (← e) r)
  Outcome-moved s rb rb₁ (some (err utf8_error, s', rb')) e c (v, k, t, r) =
      (v, k ∙ c, t ∙ e, rw (← e) r)
  Outcome-moved s rb rb₁ (some (err from_utf8_error, s', rb')) e c (v, k, t, r) =
      (v, k ∙ c, t ∙ e, rw (← e) r)
  Outcome-moved s rb rb₁ (some (err (invalid_interface_id _), s', rb')) e c (v, k, t, r) =
      (v, k ∙ c, t ∙ e, rw (← e) r)
  Outcome-moved s rb rb₁ (some (panic, s', rb')) e c h = rw (← e) h

  module _ (lawful : IsLawful parser) where
    value_Outcome :
        (s s' : S) (rb : ReadBuffer) (rem : List ℕ) (o : O)
        → IsValid rb
        → All IsByte (window rb)
        → parser s (window rb) ≡ (ok (rem, o), s')
        → Outcome parser s rb (on_value o s' rb (advance_with_slice rb rem))
    unfolding on_value
    value_Outcome s s' rb rem o v bytes e =
        let (front, whole) = lawful.leaves s s' (window rb) rem o bytes e in
        let (rb', adv, v', w, r, c) = advance_with_slice_lem rb front rem v whole in
        let more : ExtendsFrom s (pending rb.reader) (ok (rem, o), s') (parser s (stream rb)) =
          rw e at (lawful.extends s (window rb) (pending rb.reader) bytes) in
        rw adv (v', c, rw (w, r) more)

    window-bytes : (rb : ReadBuffer) → All IsByte (stream rb) → All IsByte (window rb)
    window-bytes rb h = (All-append IsByte (window rb) (pending rb.reader) h).0

    -- The rest of a round in which the parser asks for more input.
    fill_Outcome :
        (again : S → ReadBuffer → Run S O) (s s' : S) (rb : ReadBuffer)
        → s' ≡ s
        → parser s (window rb) ≡ (err incomplete_buffer, s)
        → ((rb' : ReadBuffer) (n : ℕ) → Filled rb (suc n) rb' → Outcome parser s rb' (again s' rb'))
        → (fill : Option ℕ × ReadBuffer) → FillResult rb fill
        → Outcome parser s rb (on_fill again s' fill)
    unfolding on_fill
    fill_Outcome again s s' rb e p step (none, rb') f = (f.valid, f.capacity, e)
    fill_Outcome again s s' rb e p step (some zero, rb') f = (
      f.valid,
      f.capacity,
      f.same_stream,
      e,
      rw (f.grown, nothing f.got f.got_length, append-nil) p,
    )
      where
        nothing : (xs : List ℕ) → length xs ≡ 0 → xs ≡ []
        nothing [] h = refl
        nothing (x ∷ xs) h = absurd (omega arith)
    fill_Outcome again s s' rb e p step (some (suc n), rb') f =
        Outcome-moved s rb rb' (again s' rb') f.same_stream f.capacity (step rb' n f)

    extended :
        (s : S) (rb : ReadBuffer) (answer : Result (List ℕ × O) × S)
        → All IsByte (stream rb)
        → parser s (window rb) ≡ answer
        → ExtendsFrom s (pending rb.reader) answer (parser s (stream rb))
    extended s rb answer bytes e =
        rw e at (lawful.extends s (window rb) (pending rb.reader) (window-bytes rb bytes))

    pub grown_enough :
        (fuel : ℕ) {rb rb' : ReadBuffer} {n : ℕ}
        → Filled rb (suc n) rb'
        → length rb.buffer < suc fuel + length (window rb)
        → length rb'.buffer < fuel + length (window rb')
    grown_enough fuel {rb} f enough =
        omega (arith, f.capacity, ap length f.grown, length-append (window rb) f.got, f.got_length)

    -- One round, by the answer of the parser on the window.
    answer_Outcome :
        (fuel : ℕ) (s : S) (rb : ReadBuffer)
        → IsValid rb
        → All IsByte (stream rb)
        → ((rb' : ReadBuffer) (n : ℕ)
            → Filled rb (suc n) rb'
            → Outcome parser s rb' (parse_with fuel parser s rb'))
        → (answer : Result (List ℕ × O) × S) → parser s (window rb) ≡ answer
        → Outcome parser s rb (on_answer (parse_with fuel parser) rb answer)
    unfolding on_answer
    answer_Outcome fuel s rb v bytes next (ok (rem, o), s') e =
        value_Outcome s s' rb rem o v (window-bytes rb bytes) e
    answer_Outcome fuel s rb v bytes next (err incomplete_buffer, s') e =
        let same = extended s rb _ bytes e in
        let stays : parser s (window rb) ≡ (err incomplete_buffer, s) = rw same at e in
        elim (Bool-cases (length (window rb) == length rb.buffer)) [
          | inl full ↦ rw full (v, refl, refl, same, stays)
          | inr room ↦ rw room (
              fill_Outcome (parse_with fuel parser) s s' rb same stays
                (λ rb' n f. rw same (next rb' n f)) (fill_buf rb) (fill_buf-FillResult rb v))
        ]
    answer_Outcome fuel s rb v bytes next (panic, s') e = extended s rb _ bytes e
    answer_Outcome fuel s rb v bytes next (err (io_error _), s') e =
        absurd (extended s rb _ bytes e)
    answer_Outcome fuel s rb v bytes next (err (invalid_field _), s') e =
        (v, refl, refl, extended s rb _ bytes e)
    answer_Outcome fuel s rb v bytes next (err utf8_error, s') e =
        (v, refl, refl, extended s rb _ bytes e)
    answer_Outcome fuel s rb v bytes next (err from_utf8_error, s') e =
        (v, refl, refl, extended s rb _ bytes e)
    answer_Outcome fuel s rb v bytes next (err (invalid_interface_id _), s') e =
        (v, refl, refl, extended s rb _ bytes e)

    -- For a lawful parser and a valid buffer over a stream of bytes, every run of `parse_with` with
    -- fuel for each byte that the buffer can still take ends. It either says of the stream what the
    -- parser says of it (the value and the remainder, the error, or the panic), or reports an I/O
    -- error. A run that ends with `UnexpectedEof` has lost nothing, and the parser asks for more than
    -- the window that is left.
    pub parse_with-Outcome :
        (fuel : ℕ) (s : S) (rb : ReadBuffer)
        → IsValid rb
        → All IsByte (stream rb)
        → length rb.buffer < fuel + length (window rb)
        → Outcome parser s rb (parse_with fuel parser s rb)
    unfolding parse_with
    parse_with-Outcome zero s rb v bytes enough =
        absurd (omega (arith, length-window rb v, v.len-le-capacity))
    parse_with-Outcome (suc fuel) s rb v bytes enough =
        answer_Outcome fuel s rb v bytes
          (λ rb' n f.
            parse_with-Outcome fuel s rb' f.valid (rw f.same_stream bytes)
              (grown_enough fuel f enough))
          (parser s (window rb)) refl
