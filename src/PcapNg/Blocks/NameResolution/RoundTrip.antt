-- ===== src/PcapNg/Blocks/NameResolution/RoundTrip.antt =====
-- Name resolution blocks that were written are read back.
use pcap_file.Common.{
  ℕ, zero, suc, ◌+◌, ◌%◌, ◌<◌, ◌≤◌, ◌≡◌, refl, ap, List, [], ◌∷◌, ◌++◌, append_assoc, length,
  length-append, take-append, drop-append, All, Result, ok, ◌>>=◌, arith, le→leb, ne→==,
  slice_to_lem, slice_from_lem,
}
use pcap_file.ByteOrder.{ByteOrder, Endianness}
use pcap_file.ByteOrder.Laws.{read-write}
use pcap_file.PcapNg.Options.{pad_len, padding, write_opts_to}
use pcap_file.PcapNg.Options.RoundTrip.{
  layout, length-layout, length-padding, opts_from_slice-write_opts_to, length-write_opts_to,
}
use pcap_file.PcapNg.Options.Layouts.{write_opts_to_words}
use pcap_file.PcapNg.Blocks.NameResolution.Options.{IsValidOption, options-IsReadable}
use pcap_file.PcapNg.Blocks.NameResolution.Names.{
  IsNames, ipv4_from_slice-write_to, ipv6_from_slice-write_to, length-ipv4_write_to,
  length-ipv6_write_to,
}
use pcap_file.PcapNg.Blocks.NameResolution.{
  Record, end, ipv4, ipv6, unknown, NameResolutionBlock, ipv4_write_to, ipv6_write_to, record_value,
  record_from_slice, record_write_to, records_round, records_loop, write_records,
  name_resolution_option, from_slice, write_to,
}

-- A record with an address of its kind, names, and a value that its 16 bits of length can hold. The
-- end of the records is written behind them, it is none of them.
unfoldable pub IsValidRecord : Record → Type 0
IsValidRecord end = ⊥
IsValidRecord (ipv4 r) = (length r.ip_addr ≡ 4) × IsNames r.names × ((ipv4_write_to r).1 < 65536)
IsValidRecord (ipv6 r) = (length r.ip_addr ≡ 16) × IsNames r.names × ((ipv6_write_to r).1 < 65536)
IsValidRecord (unknown r) =
    (2 < r.type_) × (r.type_ < 65536) × (r.length ≡ length r.value) × (length r.value < 65536)

-- A block of such records with valid options.
pub record IsValid (b : NameResolutionBlock) : Type 0 where
  pub records_valid : All IsValidRecord b.records
  pub options_valid : All IsValidOption b.options

module _ ⦃bo : ByteOrder⦄ where
  -- A record as it lies in a file, like an option: type, length, value and padding.
  record IsRecordOf (e : Endianness) (r : Record) : Type 0 where
    code : ℕ
    value : List ℕ
    code_u16 : code < 65536
    value_u16 : length value < 65536
    written : (record_write_to e r).0 ≡ layout e code value
    counted : (record_write_to e r).1 ≡ length (layout e code value)
    read_back : record_value code (length value) value ≡ ok r

  small : (n : ℕ) → n < 65536 → n % 65536 ≡ n
  small n h = omega arith

  valid_record : (e : Endianness) (r : Record) → IsValidRecord r → IsRecordOf e r
  unfolding record_write_to record_value IsValidRecord
  valid_record e end h = elim h [ ]
  valid_record e (ipv4 r) (l, n, u) =
      let k = length-ipv4_write_to r l in
      record {
        code = 1;
        value = (ipv4_write_to r).0;
        code_u16 = omega arith;
        value_u16 = omega (arith, k, u);
        written = rw (← k, small (length (ipv4_write_to r).0) (omega (arith, k, u))) refl;
        counted = omega (arith, k, length-layout name_resolution_option e 1 (ipv4_write_to r).0);
        read_back = rw (ipv4_from_slice-write_to r l n);
      }
  valid_record e (ipv6 r) (l, n, u) =
      let k = length-ipv6_write_to r l in
      record {
        code = 2;
        value = (ipv6_write_to r).0;
        code_u16 = omega arith;
        value_u16 = omega (arith, k, u);
        written = rw (← k, small (length (ipv6_write_to r).0) (omega (arith, k, u))) refl;
        counted = omega (arith, k, length-layout name_resolution_option e 2 (ipv6_write_to r).0);
        read_back = rw (ipv6_from_slice-write_to r l n);
      }
  valid_record e (unknown r) (g, c, k, u) = record {
    code = r.type_;
    value = r.value;
    code_u16 = c;
    value_u16 = u;
    written = rw k refl;
    counted = omega (arith, length-layout name_resolution_option e r.type_ r.value);
    read_back =
        rw
          (
            ne→== r.type_ 0 (λ z. omega (arith, g, z)),
            ne→== r.type_ 1 (λ z. omega (arith, g, z)),
            ne→== r.type_ 2 (λ z. omega (arith, g, z)),
            ← k,
          )
          refl;
  }

  record_from_slice-layout :
      (e : Endianness) (code : ℕ) (value : List ℕ) (r : Record) (rest : List ℕ)
      → code < 65536
      → length value < 65536
      → record_value code (length value) value ≡ ok r
      → record_from_slice e (layout e code value ++ rest) ≡ ok (rest, r)
  unfolding record_from_slice
  record_from_slice-layout e code value r rest c l q =
      simp
        (
          append_assoc,
          read-write 2 e code _ (omega (arith, c)),
          read-write 2 e n _ (omega (arith, l)),
        )
        (rw (
          le→leb n (length src) (omega (arith, total)),
          slice_to_lem n src (omega (arith, total)),
          take-append n value (padding n ++ rest) refl,
          q,
          slice_from_lem (n + pad_len n) src (omega (arith, total)),
          ← append_assoc value (padding n) rest,
          drop-append (n + pad_len n) (value ++ padding n) rest padded,
        ))
    where
      n : ℕ
      n = length value

      src : List ℕ
      src = value ++ (padding n ++ rest)

      padded : length (value ++ padding n) ≡ n + pad_len n
      padded = simp (length-append, length-padding)

      total : length src ≡ n + pad_len n + length rest
      total = simp (length-append, length-padding) (omega arith)

  -- The rounds behind a record other than the end.
  records_round_lem :
      (again : List ℕ → Result (List ℕ × List Record)) (rest : List ℕ) (r : Record)
      → IsValidRecord r
      → records_round again (rest, r) ≡ (again rest >>= λ (rem, rs). ok (rem, r ∷ rs))
  unfolding records_round IsValidRecord
  records_round_lem again rest end h = elim h [ ]
  records_round_lem again rest (ipv4 _) h = refl
  records_round_lem again rest (ipv6 _) h = refl
  records_round_lem again rest (unknown _) h = refl

  record_from_slice-write_to :
      (e : Endianness) (r : Record) (rest : List ℕ)
      → IsValidRecord r
      → record_from_slice e ((record_write_to e r).0 ++ rest) ≡ ok (rest, r)
  record_from_slice-write_to e r rest h =
      let v = valid_record e r h in
      rw v.written
        (record_from_slice-layout e v.code v.value r rest v.code_u16 v.value_u16 v.read_back)

  end_from_slice :
      (e : Endianness) (rest : List ℕ)
      → record_from_slice e ((record_write_to e end).0 ++ rest) ≡ ok (rest, end)
  unfolding record_write_to record_from_slice record_value
  end_from_slice e rest =
      simp (append_assoc, read-write 2 e 0 _ (omega arith), read-write 2 e 0 _ (omega arith))
        (rw (
          le→leb 0 (length rest) (omega arith),
          slice_to_lem 0 rest (omega arith),
          slice_from_lem 0 rest (omega arith),
        ))

  records_loop-write_records :
      (e : Endianness) (fuel : ℕ) (rs : List Record) (rest : List ℕ)
      → All IsValidRecord rs
      → length rs < fuel
      → records_loop e fuel ((write_records e rs).0 ++ rest) ≡ ok (rest, rs)
  unfolding records_loop write_records
  records_loop-write_records e zero rs rest h l = absurd (omega (arith, l))
  records_loop-write_records e (suc fuel) [] rest h l =
      rw (end_from_slice e rest) (unfold records_round in refl)
  records_loop-write_records e (suc fuel) (r ∷ rs) rest (v, h) l = rw (
    append_assoc (record_write_to e r).0 (write_records e rs).0 rest,
    record_from_slice-write_to e r ((write_records e rs).0 ++ rest) v,
    records_round_lem (records_loop e fuel) ((write_records e rs).0 ++ rest) r v,
    records_loop-write_records e fuel rs rest h (omega (arith, l)),
  )

  -- The records take whole words, four bytes each at least.
  length-write_records :
      (e : Endianness) (rs : List Record)
      → All IsValidRecord rs
      → (length (write_records e rs).0 ≡ (write_records e rs).1)
        × ((write_records e rs).1 % 4 ≡ 0)
        × (length rs ≤ length (write_records e rs).0)
  unfolding write_records
  length-write_records e [] h =
      unfold record_write_to in (simp (length-append, bo.length-write), refl, omega arith)
  length-write_records e (r ∷ rs) (v, h) =
      let w = valid_record e r v in
      let (l, k, n) = length-write_records e rs h in
      let a = length-append (record_write_to e r).0 (write_records e rs).0 in
      let b = ap length w.written in
      let c = length-layout name_resolution_option e w.code w.value in
      (omega (arith, a, b, l, w.counted), omega (arith, c, k, w.counted), omega (arith, a, b, c, n))

  pub length-write_to_names :
      (e : Endianness) (b : NameResolutionBlock)
      → IsValid b
      → (length (write_to e b).0 ≡ (write_to e b).1) × ((write_to e b).1 % 4 ≡ 0)
  unfolding write_to
  length-write_to_names e b v =
      let rs = options-IsReadable e b.options v.options_valid in
      let l = length-write_opts_to name_resolution_option e b.options rs in
      let w = write_opts_to_words name_resolution_option e b.options rs in
      let (k, m, _) = length-write_records e b.records v.records_valid in
      let a =
        length-append (write_records e b.records).0
          (write_opts_to name_resolution_option e b.options).0 in
      (omega (arith, a, l, k), omega (arith, w, m))

  -- A valid name resolution block (its records with an address of their kind, at least one name and a
  -- value of 16 bits of length, or of a type above 2; its options valid) is read back from what was
  -- written for it, with nothing left over.
  pub from_slice-write_to_names :
      (e : Endianness) (b : NameResolutionBlock)
      → IsValid b
      → from_slice e (write_to e b).0 ≡ ok ([], b)
  unfolding from_slice write_to
  from_slice-write_to_names e b v =
      let records = (write_records e b.records).0 in
      let opts = (write_opts_to name_resolution_option e b.options).0 in
      let (_, _, n) = length-write_records e b.records v.records_valid in
      rw (
        records_loop-write_records e (suc (length (records ++ opts))) b.records opts v.records_valid
            (omega (arith, n, length-append records opts)),
        opts_from_slice-write_opts_to name_resolution_option e b.options
            (options-IsReadable e b.options v.options_valid),
      )
