-- ===== src/ReadBuffer/Opening.antt =====
-- A run of `parse_with` on a new buffer, as the constructors of the two readers make it.
use pcap_file.Common.{
  ℕ, suc, ◌<◌, ◌≡◌, refl, ap, ◌∙◌, List, [], ◌++◌, length, All, some, none, ◌⊎◌, inl, inr, Result,
  ok, err, panic, incomplete_buffer, io_error, invalid_field, utf8_error, from_utf8_error,
  invalid_interface_id, unexpected_eof, other, arith,
}
use pcap_file.ByteOrder.{IsByte}
use pcap_file.ReadBuffer.{Source, ReadBuffer, IsValid, window, with_capacity, Run, parse_with}
use pcap_file.ReadBuffer.Fill.{pending, stream, with_capacity-IsValid}
use pcap_file.ReadBuffer.Parse.{IsLawful, Outcome}
use pcap_file.ReadBuffer.Failures.{faults, silences, Excused, Exhausted, parse_with-Explained}
use pcap_file.ReadBuffer.Stateless.{stateless, result_of}

-- A parser that asks for more than the front of the source that it was given: the front fills the
-- buffer, or it is all that the source delivers, or the source has answered with no bytes.
pub record Starved {O : Type 0} (p : List ℕ → Result (List ℕ × O)) (source : Source) (capacity : ℕ)
    : Type 0 where
  pub front : List ℕ
  pub rest : List ℕ
  pub whole : front ++ rest ≡ pending source
  pub asks : p front ≡ err incomplete_buffer
  pub reason : (length front ≡ capacity) ⊎ ((rest ≡ []) ⊎ (0 < silences source))

-- What such a run says of all that the source delivers.
abbrev pub Opens :
    {O : Type 0} → (List ℕ → Result (List ℕ × O)) → Source → ℕ → Run (Unit {0}) O → Type 0
Opens p source capacity none = ⊥
Opens p source capacity (some (ok o, _, rb)) = IsValid rb × (p (pending source) ≡ ok (stream rb, o))
Opens p source capacity (some (err (io_error unexpected_eof), _, rb)) = Starved p source capacity
Opens p source capacity (some (err (io_error other), _, rb)) = 0 < faults source
Opens p source capacity (some (err e, _, rb)) = p (pending source) ≡ err e
Opens p source capacity (some (panic, _, rb)) = p (pending source) ≡ panic

module _ {O : Type 0} (p : List ℕ → Result (List ℕ × O)) (source : Source) (capacity : ℕ) where
  reason_of :
      (rb rb' : ReadBuffer)
      → rb.reader ≡ source
      → length rb'.buffer ≡ capacity
      → Exhausted rb rb'
      → (length (window rb') ≡ capacity) ⊎ ((pending rb'.reader ≡ []) ⊎ (0 < silences source))
  reason_of rb rb' r c (inl full) = inl (full ∙ c)
  reason_of rb rb' r c (inr (inl ended)) = inr (inl (ap pending ended))
  reason_of rb rb' r c (inr (inr silent)) = inr (inr (omega (arith, silent, ap silences r)))

  run-Opens :
      (rb : ReadBuffer)
      → rb.reader ≡ source
      → stream rb ≡ pending source
      → length rb.buffer ≡ capacity
      → (run : Run (Unit {0}) O) → Outcome (stateless p) tt rb run
      → Excused rb run
      → Opens p source capacity run
  run-Opens rb r s c none h x = h
  run-Opens rb r s c (some (ok o, _, rb')) (v, _, e) x = (v, rw s at (result_of e))
  run-Opens rb r s c (some (err (io_error unexpected_eof), _, rb')) (_, k, t, _, e) (_, x) =
      record {
        front = window rb';
        rest = pending rb'.reader;
        whole = t ∙ s;
        asks = result_of e;
        reason = reason_of rb rb' r (k ∙ c) x;
      }
  run-Opens rb r s c (some (err (io_error other), _, rb')) h x = omega (arith, x, ap faults r)
  run-Opens rb r s c (some (err incomplete_buffer, _, rb')) (_, _, _, e) x = rw s at (result_of e)
  run-Opens rb r s c (some (err (invalid_field _), _, rb')) (_, _, _, e) x = rw s at (result_of e)
  run-Opens rb r s c (some (err utf8_error, _, rb')) (_, _, _, e) x = rw s at (result_of e)
  run-Opens rb r s c (some (err from_utf8_error, _, rb')) (_, _, _, e) x = rw s at (result_of e)
  run-Opens rb r s c (some (err (invalid_interface_id _), _, rb')) (_, _, _, e) x =
      rw s at (result_of e)
  run-Opens rb r s c (some (panic, _, rb')) h x = rw s at (result_of h)

  -- For a lawful parser and any capacity.
  pub parse_with-Opens :
      IsLawful (stateless p)
      → All IsByte (pending source)
      → Opens p source capacity (
          parse_with
            (suc (length (with_capacity source capacity).buffer))
            (stateless p)
            tt
            (with_capacity source capacity))
  parse_with-Opens lawful bytes =
      let (v, s, c) = with_capacity-IsValid source capacity in
      let rb = with_capacity source capacity in
      let (h, x) =
        parse_with-Explained (stateless p) lawful (suc (length rb.buffer)) tt rb v (rw s bytes)
          (omega arith) in
      run-Opens rb (unfold with_capacity in refl) s c _ h x
