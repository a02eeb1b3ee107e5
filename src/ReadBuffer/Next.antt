-- ===== src/ReadBuffer/Next.antt =====
-- The `next_*` methods of a reader against its parser, applied to the whole stream.
use pcap_file.Common.{
  ℕ, zero, suc, ◌≡◌, refl, ◌∙◌, List, [], ◌∷◌, length, All, Option, none, some, Bool, true, false,
  Bool-cases, inl, inr, ◌==◌, arith,
}
use pcap_file.ByteOrder.{IsByte}
use pcap_file.ReadBuffer.{
  ReadBuffer, IsValid, window, fill_buf, any_read, has_data_left, Closure, Run, NextRun, parse_with,
  parsed, on_data_left, next_with,
}
use pcap_file.ReadBuffer.Fill.{stream, Failed, FillResult, fill_buf-FillResult}
use pcap_file.ReadBuffer.Parse.{IsLawful, Outcome, Outcome-moved, parse_with-Outcome}

-- What `has_data_left` says.
abbrev DataLeft : ReadBuffer → Option Bool × ReadBuffer → Type 0
DataLeft rb (none, rb') = Failed rb rb'
DataLeft rb (some true, rb') =
    IsValid rb' × (length rb'.buffer ≡ length rb.buffer) × (stream rb' ≡ stream rb)
DataLeft rb (some false, rb') =
    IsValid rb'
    × (length rb'.buffer ≡ length rb.buffer)
    × (stream rb' ≡ stream rb)
    × (window rb' ≡ [])

empty : (xs : List ℕ) → length xs ≡ 0 → xs ≡ []
empty [] h = refl
empty (x ∷ xs) h = absurd (omega arith)

has_data_left-DataLeft : (rb : ReadBuffer) → IsValid rb → DataLeft rb (has_data_left rb)
unfolding has_data_left
has_data_left-DataLeft rb v = elim (Bool-cases (length (window rb) == 0)) [
  | inl none_left ↦
      rw none_left (go (empty (window rb) (ground arith)) (fill_buf rb) (fill_buf-FillResult rb v))
  | inr left ↦ rw left (v, refl, refl)
]
  where
    go :
        window rb ≡ []
        → (fill : Option ℕ × ReadBuffer) → FillResult rb fill
        → DataLeft rb (any_read fill)
    go e (none, rb') f = f
    go e (some zero, rb') f =
        (f.valid, f.capacity, f.same_stream, f.grown ∙ rw (e, empty f.got f.got_length))
    go e (some (suc _), rb') f = (f.valid, f.capacity, f.same_stream)

-- What a `next_*` method says about the stream of the buffer that it began with. It answers `None`
-- only where the reader had no more bytes for an empty buffer.
abbrev pub NextOutcome : {S O : Type 0} → Closure S O → S → ReadBuffer → NextRun S O → Type 0
NextOutcome parser s rb none = ⊥
NextOutcome parser s rb (some (none, s', rb')) =
    IsValid rb' × (stream rb' ≡ stream rb) × (window rb' ≡ []) × (s' ≡ s)
NextOutcome parser s rb (some (some r, s', rb')) = Outcome parser s rb (some (r, s', rb'))

module _ {S O : Type 0} (parser : Closure S O) (lawful : IsLawful parser) where
  parsed-NextOutcome :
      (s : S) (rb : ReadBuffer) (run : Run S O)
      → Outcome parser s rb run
      → NextOutcome parser s rb (parsed run)
  unfolding parsed
  parsed-NextOutcome s rb none h = h
  parsed-NextOutcome s rb (some (r, s', rb')) h = h

  -- For every lawful parser and every valid buffer over a stream of bytes, however the reader cuts
  -- the stream into pieces: the method answers, and what it answers is what the parser answers on the
  -- whole stream, its panics included, unless the reader failed or ended early.
  pub next_with-NextOutcome :
      (s : S) (rb : ReadBuffer)
      → IsValid rb
      → All IsByte (stream rb)
      → NextOutcome parser s rb (next_with parser s rb)
  unfolding next_with
  next_with-NextOutcome s rb v bytes = go (has_data_left rb) (has_data_left-DataLeft rb v)
    where
      go :
          (left : Option Bool × ReadBuffer)
          → DataLeft rb left
          → NextOutcome parser s rb
              (on_data_left (λ rb'. parse_with (suc (length rb'.buffer)) parser s rb') s left)
      go (none, rb') f = (f.valid, f.capacity, refl)
      go (some false, rb') (v', c, e, w) = (v', e, w, refl)
      go (some true, rb') (v', c, e) = parsed-NextOutcome s rb _ (
          Outcome-moved parser s rb rb' _ e c (
            parse_with-Outcome parser lawful (suc (length rb'.buffer)) s rb' v' (rw e bytes)
              (omega arith)))
