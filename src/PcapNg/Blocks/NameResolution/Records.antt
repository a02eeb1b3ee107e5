-- ===== src/PcapNg/Blocks/NameResolution/Records.antt =====
-- How the records of a name resolution block are read: what stops the loop, and what panics.
use pcap_file.Common.{
  ℕ, zero, suc, ◌+◌, ◌%◌, ◌≤◌, ◌<◌, ◌≡◌, ◌≢◌, refl, ap, List, [], ◌∷◌, ◌++◌, length, Bool, false,
  Bool-cases, inl, inr, Result, ok, err, panic, PcapError, ◌>>=◌, leb, le→leb, ◌==◌, ne→==, not,
  slice_to, slice_from, slice_to-eq-ok, slice_from-eq-ok, >>=-eq-ok, ok_or-eq-ok, guard-eq-ok, drop,
  take, arith, incomplete_buffer, length-drop,
}
use pcap_file.ByteOrder.{ByteOrder, Endianness, read_u16, write_u16}
use pcap_file.ByteOrder.Laws.{read-write, read_length}
use pcap_file.ByteOrder.Calm.{
  IsCalm, ok-IsCalm, invalid-IsCalm, if-IsCalm, >>=-IsCalm, ok_or-IsCalm, guard-IsCalm,
  too_short-IsCalm, slice_to-IsCalm, slice_from-IsCalm,
}
use pcap_file.PcapNg.Options.{pad_len, opts_from_slice}
use pcap_file.PcapNg.Options.Calm.{from_utf8-IsCalm, opts_from_slice-IsCalm}
use pcap_file.PcapNg.Blocks.Calm.{name_resolution_option-IsCalm}
use pcap_file.PcapNg.Blocks.NameResolution.{
  Record, end, ipv4, ipv6, unknown, split, parse_names, ipv4_from_slice, ipv6_from_slice,
  record_value, record_from_slice, records_round, records_loop, from_slice, name_resolution_option,
}

-- A finite run of the loop over the records, with no fuel: each round reads a record, and the loop
-- goes on behind every record but the end.
pub data RecordsRun ⦃bo : ByteOrder⦄ (e : Endianness)
    : List ℕ → Result (List ℕ × List Record) → Type 0 where
  failed :
      {slice : List ℕ} (x : PcapError)
      → record_from_slice e slice ≡ err x
      → RecordsRun e slice (err x)
  panicked : {slice : List ℕ} → record_from_slice e slice ≡ panic → RecordsRun e slice panic
  ended :
      {slice : List ℕ} (rest : List ℕ)
      → record_from_slice e slice ≡ ok (rest, end)
      → RecordsRun e slice (ok (rest, []))
  went_on :
      {slice : List ℕ} (rest : List ℕ) (r : Record) (later : Result (List ℕ × List Record))
      → record_from_slice e slice ≡ ok (rest, r)
      → r ≢ end
      → RecordsRun e rest later
      → RecordsRun e slice (do (rem, rs) ← later; ok (rem, r ∷ rs))

module _ {strict : Bool} where
  names-IsCalm : (pieces : List (List ℕ)) → IsCalm strict (parse_names pieces)
  unfolding parse_names
  names-IsCalm [] = ok-IsCalm _
  names-IsCalm (name ∷ pieces) = if-IsCalm (length name == 0) _ _ (ok-IsCalm _) (
      from_utf8-IsCalm name _
        λ text. >>=-IsCalm (parse_names pieces) _ (names-IsCalm pieces) λ _ _. ok-IsCalm _)

  ipv4-IsCalm : (slice : List ℕ) → IsCalm strict (ipv4_from_slice slice)
  unfolding ipv4_from_slice
  ipv4-IsCalm slice = too_short-IsCalm (length slice) 6 _ _ (invalid-IsCalm _) λ le.
      slice_to-IsCalm 4 slice _ (omega (arith, le)) (
        slice_from-IsCalm 4 slice _ (omega (arith, le)) (
          >>=-IsCalm (parse_names (split [] (drop 4 slice))) _
            (names-IsCalm (split [] (drop 4 slice)))
            λ names _. guard-IsCalm (not (length names == 0)) _ _ λ _. ok-IsCalm _))

  ipv6-IsCalm : (slice : List ℕ) → IsCalm strict (ipv6_from_slice slice)
  unfolding ipv6_from_slice
  ipv6-IsCalm slice = too_short-IsCalm (length slice) 18 _ _ (invalid-IsCalm _) λ le.
      slice_to-IsCalm 16 slice _ (omega (arith, le)) (
        slice_from-IsCalm 16 slice _ (omega (arith, le)) (
          >>=-IsCalm (parse_names (split [] (drop 16 slice))) _
            (names-IsCalm (split [] (drop 16 slice)))
            λ names _. guard-IsCalm (not (length names == 0)) _ _ λ _. ok-IsCalm _))

module _ ⦃bo : ByteOrder⦄ where
  value-IsCalm :
      {strict : Bool} (type_ len : ℕ) (value : List ℕ)
      → IsCalm strict (record_value type_ len value)
  unfolding record_value
  value-IsCalm type_ len value =
      if-IsCalm (type_ == 0) _ _ (guard-IsCalm (len == 0) _ _ λ _. ok-IsCalm _) (
        if-IsCalm (type_ == 1) _ _
          (>>=-IsCalm (ipv4_from_slice value) _ (ipv4-IsCalm value) λ _ _. ok-IsCalm _)
          (if-IsCalm (type_ == 2) _ _
            (>>=-IsCalm (ipv6_from_slice value) _ (ipv6-IsCalm value) λ _ _. ok-IsCalm _)
            (ok-IsCalm _)))

  -- The slice behind the padding may panic.
  unpadded-IsCalm :
      {B : Type 0} (n : ℕ) (slice : List ℕ) (f : List ℕ → Result B)
      → ((rem : List ℕ) → IsCalm false (f rem))
      → IsCalm false (slice_from n slice >>= f)
  unfolding slice_from
  unpadded-IsCalm n slice f h = elim (Bool-cases (leb n (length slice))) [
    | inl fits ↦ rw fits (h (drop n slice))
    | inr short ↦ rw short (record { ne_panic = λ q. cc q; ne_io_error = λ k e. cc e })
  ]

  record-IsCalm : (e : Endianness) (slice : List ℕ) → IsCalm false (record_from_slice e slice)
  unfolding record_from_slice
  record-IsCalm e slice = ok_or-IsCalm (read_u16 e slice) _ λ (type_, s₁) _.
      ok_or-IsCalm (read_u16 e s₁) _ λ (len, s₂) _. guard-IsCalm (leb len (length s₂)) _ _ λ fits.
        slice_to-IsCalm len s₂ _ (ground arith) (
          >>=-IsCalm (record_value type_ len (take len s₂)) _ (value-IsCalm type_ len _)
            λ r _. unpadded-IsCalm (len + pad_len len) s₂ _ λ rem. ok-IsCalm _)

  -- A round, whatever the next one is, as long as it is calm.
  round-IsCalm :
      (again : List ℕ → Result (List ℕ × List Record)) (a : List ℕ × Record)
      → ((rest : List ℕ) → IsCalm false (again rest))
      → IsCalm false (records_round again a)
  unfolding records_round
  round-IsCalm again (rest, end) h = ok-IsCalm _
  round-IsCalm again (rest, ipv4 _) h = >>=-IsCalm (again rest) _ (h rest) λ _ _. ok-IsCalm _
  round-IsCalm again (rest, ipv6 _) h = >>=-IsCalm (again rest) _ (h rest) λ _ _. ok-IsCalm _
  round-IsCalm again (rest, unknown _) h = >>=-IsCalm (again rest) _ (h rest) λ _ _. ok-IsCalm _

  records-IsCalm :
      (e : Endianness) (fuel : ℕ) (slice : List ℕ) → IsCalm false (records_loop e fuel slice)
  unfolding records_loop
  records-IsCalm e zero slice = record { ne_panic = λ q _. cc q; ne_io_error = λ k q. cc q }
  records-IsCalm e (suc fuel) slice =
      >>=-IsCalm (record_from_slice e slice) _ (record-IsCalm e slice)
        λ a _. round-IsCalm (records_loop e fuel) a (records-IsCalm e fuel)

  -- Reading a name resolution block makes no I/O error; it can panic.
  pub name_resolution-IsCalm : (e : Endianness) (slice : List ℕ) → IsCalm false (from_slice e slice)
  unfolding from_slice
  name_resolution-IsCalm e slice =
      >>=-IsCalm (records_loop e (suc (length slice)) slice) _
        (records-IsCalm e (suc (length slice)) slice)
        λ (rest, records) _.
          >>=-IsCalm (opts_from_slice name_resolution_option e rest) _
            (opts_from_slice-IsCalm name_resolution_option e (name_resolution_option-IsCalm e) rest)
            λ (rem, options) _. ok-IsCalm _

  -- A record that was read takes four bytes at least.
  record_from_slice_shrinks :
      (e : Endianness) (slice rest : List ℕ) (r : Record)
      → record_from_slice e slice ≡ ok (rest, r)
      → length rest + 4 ≤ length slice
  unfolding record_from_slice
  record_from_slice_shrinks e slice rest r q =
      let ((type_, s₁), q₁, h₁) = ok_or-eq-ok (read_u16 e slice) incomplete_buffer _ q in
      let ((len, s₂), q₂, h₂) = ok_or-eq-ok (read_u16 e s₁) incomplete_buffer _ h₁ in
      let (_, h₃) = guard-eq-ok (leb len (length s₂)) _ _ h₂ in
      let (_, h₄) = slice_to-eq-ok len s₂ _ h₃ in
      let (r', _, h₅) = >>=-eq-ok (record_value type_ len (take len s₂)) _ h₄ in
      let (_, h₆) = slice_from-eq-ok (len + pad_len len) s₂ _ h₅ in
      let left : drop (len + pad_len len) s₂ ≡ rest = cc h₆ in
      omega (
        arith,
        read_length 2 e slice type_ s₁ q₁,
        read_length 2 e s₁ len s₂ q₂,
        ap length left,
        length-drop (len + pad_len len) s₂,
      )

  records_loop-RecordsRun :
      (e : Endianness) (fuel : ℕ) (slice : List ℕ)
      → length slice < fuel
      → RecordsRun e slice (records_loop e fuel slice)
  unfolding records_loop records_round
  records_loop-RecordsRun e zero slice h = absurd (omega (arith, h))
  records_loop-RecordsRun e (suc fuel) slice h = go (record_from_slice e slice) refl λ rest r q.
      let le = record_from_slice_shrinks e slice rest r q in
      records_loop-RecordsRun e fuel rest (omega (arith, le, h))
    where
      go :
          (m : Result (List ℕ × Record))
          → record_from_slice e slice ≡ m
          → ((rest : List ℕ) (r : Record)
              → record_from_slice e slice ≡ ok (rest, r)
              → RecordsRun e rest (records_loop e fuel rest))
          → RecordsRun e slice (m >>= records_round (records_loop e fuel))
      go panic q next = panicked q
      go (err x) q next = failed x q
      go (ok (rest, end)) q next = ended rest q
      go (ok (rest, ipv4 a)) q next = went_on rest (ipv4 a) _ q (λ p. cc p) (next rest (ipv4 a) q)
      go (ok (rest, ipv6 a)) q next = went_on rest (ipv6 a) _ q (λ p. cc p) (next rest (ipv6 a) q)
      go (ok (rest, unknown a)) q next =
          went_on rest (unknown a) _ q (λ p. cc p) (next rest (unknown a) q)

  -- The loop of a name resolution block ends, on every slice: the fuel that it gets is enough for a
  -- finite run of the loop as the source has it, without fuel, which reads records until one is the
  -- end, or is refused, or panics; and the loop's answer is that of the run.
  pub records_loop_ends :
      (e : Endianness) (slice : List ℕ)
      → RecordsRun e slice (records_loop e (suc (length slice)) slice)
  records_loop_ends e slice = records_loop-RecordsRun e (suc (length slice)) slice (omega arith)

  -- A record of a type above 2 whose value is the end of the slice, with no padding behind it: reading it
  -- panics, if the length of the value is no multiple of four.
  pub record_from_slice_unpadded :
      (e : Endianness) (type_ : ℕ) (value : List ℕ)
      → 2 < type_
      → type_ < 65536
      → length value < 65536
      → length value % 4 ≢ 0
      → record_from_slice e (write_u16 e type_ ++ (write_u16 e (length value) ++ value)) ≡ panic
  unfolding record_from_slice record_value slice_from slice_to
  record_from_slice_unpadded e type_ value gt lt short odd = rw (
    read-write 2 e type_ (write_u16 e (length value) ++ value) lt,
    read-write 2 e (length value) value short,
    le→leb (length value) (length value) (omega arith),
    ne→== type_ 0 (λ q. omega (arith, gt, q)),
    ne→== type_ 1 (λ q. omega (arith, gt, q)),
    ne→== type_ 2 (λ q. omega (arith, gt, q)),
    beyond,
  )
    where
      beyond : leb (length value + pad_len (length value)) (length value) ≡ false
      beyond = ground (arith, odd)
