-- ===== src/ReadBuffer/Failures.antt =====
-- When `parse_with` reports an I/O error: what its reader must have answered.
use pcap_file.Common.{
  ℕ, zero, suc, ◌+◌, ◌-◌, ◌≤◌, ◌<◌, ◌≡◌, refl, ◌∙◌, List, [], ◌∷◌, length, length-take, drop,
  length-drop, All, All-append, Option, none, some, Bool-cases, ◌⊎◌, inl, inr, Result, ok, err,
  panic, incomplete_buffer, io_error, invalid_field, utf8_error, from_utf8_error,
  invalid_interface_id, unexpected_eof, other, leb, ◌==◌, arith,
}
use pcap_file.ByteOrder.{IsByte}
use pcap_file.ReadBuffer.{
  Source, chunk, fault, read, ReadBuffer, IsValid, window, refilled, fill_buf, advance_with_slice,
  Closure, Run, on_value, on_fill, on_answer, parse_with,
}
use pcap_file.ReadBuffer.Fill.{
  stream, length-window, Filled, FillResult, fill_buf-FillResult, advance_with_slice_lem,
}
use pcap_file.ReadBuffer.Parse.{IsLawful, Outcome, grown_enough, parse_with-Outcome}

-- How often a source fails.
abbrev pub faults : Source → ℕ
faults [] = 0
faults (chunk _ ∷ es) = faults es
faults (fault ∷ es) = suc (faults es)

-- How often a source answers with no bytes before its end.
abbrev pub silences : Source → ℕ
silences [] = 0
silences (chunk [] ∷ es) = suc (silences es)
silences (chunk (_ ∷ _) ∷ es) = silences es
silences (fault ∷ es) = silences es

-- A source that was read on without a failure.
pub record Kept (es es' : Source) : Type 0 where
  pub same_faults : faults es' ≡ faults es
  pub fewer_silences : silences es' ≤ silences es

-- A read that answered with no bytes: at the end of the source, or one of its silences.
abbrev pub Silent : Source → Source → Type 0
Silent es es' = (es' ≡ []) ⊎ (silences es' < silences es)

Kept-refl : (es : Source) → Kept es es
Kept-refl es = record { same_faults = refl; fewer_silences = omega arith }

Kept-trans : {a b c : Source} → Kept a b → Kept b c → Kept a c
Kept-trans h k = record {
  same_faults = k.same_faults ∙ h.same_faults;
  fewer_silences = omega (arith, h.fewer_silences, k.fewer_silences);
}

silences_loud : (c : List ℕ) (es : Source) → 0 < length c → silences (chunk c ∷ es) ≡ silences es
silences_loud [] es h = absurd (omega (arith, h))
silences_loud (_ ∷ _) es h = refl

silences-le : (c : List ℕ) (es : Source) → silences es ≤ silences (chunk c ∷ es)
silences-le [] es = omega arith
silences-le (_ ∷ _) es = omega arith

-- What one read says of its source.
abbrev Noted : Source → Option (List ℕ) × Source → Type 0
Noted es (none, es') = faults es ≡ suc (faults es')
Noted es (some bytes, es') = Kept es es' × (length bytes ≡ 0 → Silent es es')

read-Noted : (room : ℕ) (es : Source) → 0 < room → Noted es (read room es)
unfolding read
read-Noted room [] r = (Kept-refl [], λ _. inl refl)
read-Noted room (fault ∷ es) r = refl
read-Noted room (chunk c ∷ es) r = elim (Bool-cases (leb (length c) room)) [
  | inl fits ↦ rw fits (record { same_faults = refl; fewer_silences = silences-le c es }, silent c)
  | inr long ↦
      let lt : room < length c = ground arith in
      let loud = silences_loud (drop room c) es (omega (arith, lt, length-drop room c)) in
      rw long (
        record { same_faults = refl; fewer_silences = omega (arith, loud, silences-le c es) },
        λ z. absurd (omega (arith, lt, z, r, length-take room c)),
      )
]
  where
    silent : (c : List ℕ) → length c ≡ 0 → Silent (chunk c ∷ es) es
    silent [] z = inr (omega arith)
    silent (_ ∷ _) z = absurd (omega (arith, z))

-- What `fill_buf` says of its source, where it has room.
abbrev NotedFill : ReadBuffer → Option ℕ × ReadBuffer → Type 0
NotedFill rb (none, rb') = faults rb.reader ≡ suc (faults rb'.reader)
NotedFill rb (some n, rb') = Kept rb.reader rb'.reader × (n ≡ 0 → Silent rb.reader rb'.reader)

fill_buf-NotedFill :
    (rb : ReadBuffer)
    → IsValid rb
    → length (window rb) < length rb.buffer
    → NotedFill rb (fill_buf rb)
unfolding fill_buf refilled
fill_buf-NotedFill rb v lt =
    go (read (length rb.buffer - (rb.len - rb.pos)) rb.reader)
      (read-Noted _ rb.reader (omega (arith, lt, length-window rb v)))
  where
    go :
        (answer : Option (List ℕ) × Source)
        → Noted rb.reader answer
        → NotedFill rb (refilled rb answer)
    go (none, es) s = s
    go (some bytes, es) s = s

-- Why a run reports `UnexpectedEof`: the window fills the whole buffer, or a read gave no bytes.
abbrev pub Exhausted : ReadBuffer → ReadBuffer → Type 0
Exhausted rb rb' = (length (window rb') ≡ length rb'.buffer) ⊎ Silent rb.reader rb'.reader

-- What a run says of its reader: it reports the error of a read exactly where one read has failed,
-- and `UnexpectedEof` only if it is exhausted.
abbrev pub Excused : {S O : Type 0} → ReadBuffer → Run S O → Type 0
Excused rb none = ⊥
Excused rb (some (err (io_error unexpected_eof), s, rb')) =
    Kept rb.reader rb'.reader × Exhausted rb rb'
Excused rb (some (err (io_error other), s, rb')) = faults rb.reader ≡ suc (faults rb'.reader)
Excused rb (some (_, s, rb')) = Kept rb.reader rb'.reader

Silent-later : {a b c : Source} → Kept a b → Silent b c → Silent a c
Silent-later k (inl e) = inl e
Silent-later k (inr lt) = inr (omega (arith, k.fewer_silences, lt))

Exhausted-later :
    (rb rb₁ rb' : ReadBuffer) → Kept rb.reader rb₁.reader → Exhausted rb₁ rb' → Exhausted rb rb'
Exhausted-later rb rb₁ rb' k (inl full) = inl full
Exhausted-later rb rb₁ rb' k (inr silent) = inr (Silent-later k silent)

module _ {S O : Type 0} where
  Excused-later :
      (rb rb₁ : ReadBuffer) (run : Run S O)
      → Kept rb.reader rb₁.reader
      → Excused rb₁ run
      → Excused rb run
  Excused-later rb rb₁ none k h = h
  Excused-later rb rb₁ (some (ok _, s, rb')) k h = Kept-trans k h
  Excused-later rb rb₁ (some (err (io_error unexpected_eof), s, rb')) k (h, x) =
      (Kept-trans k h, Exhausted-later rb rb₁ rb' k x)
  Excused-later rb rb₁ (some (err (io_error other), s, rb')) k h = omega (arith, k.same_faults, h)
  Excused-later rb rb₁ (some (err incomplete_buffer, s, rb')) k h = Kept-trans k h
  Excused-later rb rb₁ (some (err (invalid_field _), s, rb')) k h = Kept-trans k h
  Excused-later rb rb₁ (some (err utf8_error, s, rb')) k h = Kept-trans k h
  Excused-later rb rb₁ (some (err from_utf8_error, s, rb')) k h = Kept-trans k h
  Excused-later rb rb₁ (some (err (invalid_interface_id _), s, rb')) k h = Kept-trans k h
  Excused-later rb rb₁ (some (panic, s, rb')) k h = Kept-trans k h

module _ {S O : Type 0} (parser : Closure S O) (lawful : IsLawful parser) where
  value-Excused :
      (s s' : S) (rb : ReadBuffer) (rem : List ℕ) (o : O)
      → IsValid rb
      → All IsByte (window rb)
      → parser s (window rb) ≡ (ok (rem, o), s')
      → Excused rb (on_value o s' rb (advance_with_slice rb rem))
  unfolding on_value
  value-Excused s s' rb rem o v bytes e =
      let (front, whole) = lawful.leaves s s' (window rb) rem o bytes e in
      let (_, adv, _, _, same, _) = advance_with_slice_lem rb front rem v whole in
      rw (adv, same) (Kept-refl rb.reader)

  fill-Excused :
      (again : S → ReadBuffer → Run S O) (s : S) (rb : ReadBuffer)
      → ((rb' : ReadBuffer) (n : ℕ) → Filled rb (suc n) rb' → Excused rb' (again s rb'))
      → (fill : Option ℕ × ReadBuffer) → FillResult rb fill
      → NotedFill rb fill
      → Excused rb (on_fill again s fill)
  unfolding on_fill
  fill-Excused again s rb next (none, rb') f h = h
  fill-Excused again s rb next (some zero, rb') f (h, z) = (h, inr (z refl))
  fill-Excused again s rb next (some (suc n), rb') f (h, z) =
      Excused-later rb rb' (again s rb') h (next rb' n f)

  answer-Excused :
      (again : S → ReadBuffer → Run S O) (s : S) (rb : ReadBuffer)
      → IsValid rb
      → All IsByte (stream rb)
      → ((s' : S) (rb' : ReadBuffer) (n : ℕ) → Filled rb (suc n) rb' → Excused rb' (again s' rb'))
      → (answer : Result (List ℕ × O) × S) → parser s (window rb) ≡ answer
      → Excused rb (on_answer again rb answer)
  unfolding on_answer
  answer-Excused again s rb v bytes next (ok (rem, o), s') e =
      value-Excused s s' rb rem o v (All-append IsByte (window rb) _ bytes).0 e
  answer-Excused again s rb v bytes next (err incomplete_buffer, s') e =
      elim (Bool-cases (length (window rb) == length rb.buffer)) [
        | inl full ↦ rw full (Kept-refl rb.reader, inl (ground arith))
        | inr room ↦
            let lt : length (window rb) < length rb.buffer =
              grind (arith, length-window rb v, v.len-le-capacity) in
            rw room (
              fill-Excused again s' rb (next s') (fill_buf rb) (fill_buf-FillResult rb v)
                (fill_buf-NotedFill rb v lt))
      ]
  answer-Excused again s rb v bytes next (err (io_error _), s') e =
      absurd (rw e at (lawful.extends s (window rb) [] (All-append IsByte (window rb) _ bytes).0))
  answer-Excused again s rb v bytes next (err (invalid_field _), s') e = Kept-refl rb.reader
  answer-Excused again s rb v bytes next (err utf8_error, s') e = Kept-refl rb.reader
  answer-Excused again s rb v bytes next (err from_utf8_error, s') e = Kept-refl rb.reader
  answer-Excused again s rb v bytes next (err (invalid_interface_id _), s') e = Kept-refl rb.reader
  answer-Excused again s rb v bytes next (panic, s') e = Kept-refl rb.reader

  parse_with-Excused :
      (fuel : ℕ) (s : S) (rb : ReadBuffer)
      → IsValid rb
      → All IsByte (stream rb)
      → length rb.buffer < fuel + length (window rb)
      → Excused rb (parse_with fuel parser s rb)
  unfolding parse_with
  parse_with-Excused zero s rb v bytes enough =
      absurd (omega (arith, length-window rb v, v.len-le-capacity))
  parse_with-Excused (suc fuel) s rb v bytes enough =
      answer-Excused (parse_with fuel parser) s rb v bytes
        (λ s' rb' n f.
          parse_with-Excused fuel s' rb' f.valid (rw f.same_stream bytes)
            (grown_enough parser lawful fuel f enough))
        (parser s (window rb)) refl

  -- For a lawful parser and a valid buffer over a stream of bytes, every run of `parse_with` with
  -- fuel for each byte that the buffer can still take ends. It says of the stream what the parser
  -- says of it (the value and the remainder, the error, or the panic), and then no read has failed;
  -- or it reports the error of a read, and then exactly one read has failed; or it reports
  -- `UnexpectedEof`, and then nothing is lost, no read has failed, the parser asks for more than the
  -- window that is left, and either this fills the whole buffer or a read has answered with no
  -- bytes.
  pub parse_with-Explained :
      (fuel : ℕ) (s : S) (rb : ReadBuffer)
      → IsValid rb
      → All IsByte (stream rb)
      → length rb.buffer < fuel + length (window rb)
      → Outcome parser s rb (parse_with fuel parser s rb) × Excused rb (parse_with fuel parser s rb)
  parse_with-Explained fuel s rb v bytes enough = (
    parse_with-Outcome parser lawful fuel s rb v bytes enough,
    parse_with-Excused fuel s rb v bytes enough,
  )
