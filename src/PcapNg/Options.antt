-- ===== src/PcapNg/Options.antt =====
-- The options of src/pcapng/blocks/opt_common.rs, and what the option types share.
pub mod RoundTrip
pub mod Layouts
pub mod Readable
pub mod Calm
use pcap_file.Common.{
  ℕ, zero, suc, ◌+◌, ◌-◌, ◌%◌, ◌^◌, List, [], ◌∷◌, ◌++◌, length, take, Option, Result, ok, err,
  panic, ◌>>=◌, ◌>>◌, unwrap, ok_or, invalid_field, incomplete_buffer, ltb, ◌==◌, if◌then◌else◌,
  slice_to, slice_from,
}
use pcap_file.ByteOrder.{
  ByteOrder, Endianness, big, read_u16, read_u32, write_u16, write_u32, write_u64,
}
use pcap_file.Utf8.{from_utf8}

-- `(4 - n % 4) % 4`
abbrev pub pad_len : ℕ → ℕ
pad_len n = (4 - n % 4) % 4

-- `&[0_u8; 3][..pad_len]`
abbrev pub padding : ℕ → List ℕ
padding n = take (pad_len n) (0 ∷ 0 ∷ 0 ∷ [])

pub record UnknownOption : Type 0 where
  pub code : ℕ
  pub length : ℕ
  pub value : List ℕ

pub record CustomBinaryOption : Type 0 where
  pub code : ℕ
  pub pen : ℕ
  pub value : List ℕ

-- The text is its bytes.
pub record CustomUtf8Option : Type 0 where
  pub code : ℕ
  pub pen : ℕ
  pub value : List ℕ

-- The trait `PcapNgOption`: how one option is read from its code, length and value, and written.
-- A write is the bytes written, with the count that is returned.
pub record PcapNgOption (O : Type 0) : Type 0 where
  pub from_slice : Endianness → ℕ → ℕ → List ℕ → Result O
  pub write_to : Endianness → O → List ℕ × ℕ

module _ ⦃bo : ByteOrder⦄ where
  -- `CustomBinaryOption::from_slice`
  unfoldable pub custom_binary_from_slice : Endianness → ℕ → List ℕ → Result CustomBinaryOption
  custom_binary_from_slice e code src = do
    (pen, rest) ← ok_or (read_u32 e src) incomplete_buffer
    ok (record { code = code; pen = pen; value = rest })

  -- `CustomUtf8Option::from_slice`
  unfoldable pub custom_utf8_from_slice : Endianness → ℕ → List ℕ → Result CustomUtf8Option
  unfolding from_utf8
  custom_utf8_from_slice e code src = do
    (pen, rest) ← ok_or (read_u32 e src) incomplete_buffer
    text ← from_utf8 rest
    ok (record { code = code; pen = pen; value = text })

  -- `write_opt_to` of `Cow<[u8]>` and `Cow<str>`
  unfoldable pub write_bytes_opt : Endianness → ℕ → List ℕ → List ℕ × ℕ
  write_bytes_opt e code value = (
    write_u16 e code ++ (write_u16 e (length value % 2 ^ 16) ++ (value ++ padding (length value))),
    length value + pad_len (length value) + 4,
  )

  -- `write_opt_to` of `u8`
  unfoldable pub write_u8_opt : Endianness → ℕ → ℕ → List ℕ × ℕ
  write_u8_opt e code value =
      (write_u16 e code ++ (write_u16 e 1 ++ (bo.write_uint 1 big value ++ (0 ∷ 0 ∷ 0 ∷ []))), 8)

  -- `write_opt_to` of `u16`
  unfoldable pub write_u16_opt : Endianness → ℕ → ℕ → List ℕ × ℕ
  write_u16_opt e code value =
      (write_u16 e code ++ (write_u16 e 2 ++ (write_u16 e value ++ (0 ∷ 0 ∷ []))), 8)

  -- `write_opt_to` of `u32`
  unfoldable pub write_u32_opt : Endianness → ℕ → ℕ → List ℕ × ℕ
  write_u32_opt e code value = (write_u16 e code ++ (write_u16 e 4 ++ write_u32 e value), 8)

  -- `write_opt_to` of `u64`
  unfoldable pub write_u64_opt : Endianness → ℕ → ℕ → List ℕ × ℕ
  write_u64_opt e code value = (write_u16 e code ++ (write_u16 e 8 ++ write_u64 e value), 12)

  -- `write_opt_to` of `CustomBinaryOption`, with the code of the option itself.
  unfoldable pub write_custom_binary_opt : Endianness → CustomBinaryOption → List ℕ × ℕ
  write_custom_binary_opt e o = (
    write_u16 e o.code
        ++ (write_u16 e ((length o.value + 4) % 2 ^ 16)
            ++ (write_u32 e o.pen ++ (o.value ++ padding (length o.value + 4)))),
    length o.value + 4 + pad_len (length o.value + 4) + 4,
  )

  -- `write_opt_to` of `CustomUtf8Option`
  unfoldable pub write_custom_utf8_opt : Endianness → CustomUtf8Option → List ℕ × ℕ
  write_custom_utf8_opt e o = (
    write_u16 e o.code
        ++ (write_u16 e ((length o.value + 4) % 2 ^ 16)
            ++ (write_u32 e o.pen ++ (o.value ++ padding (length o.value + 4)))),
    length o.value + 4 + pad_len (length o.value + 4) + 4,
  )

  -- `write_opt_to` of `UnknownOption`
  unfoldable pub write_unknown_opt : Endianness → UnknownOption → List ℕ × ℕ
  write_unknown_opt e o = (
    write_u16 e o.code
        ++ (write_u16 e (length o.value % 2 ^ 16) ++ (o.value ++ padding (length o.value))),
    length o.value + pad_len (length o.value) + 4,
  )

  module _ {O : Type 0} (option : PcapNgOption O) (e : Endianness) where
    -- A round of the loop of `opts_from_slice` behind the code and the length of an option.
    unfoldable pub opts_value :
        (List ℕ → Result (List ℕ × List O)) → ℕ → ℕ → List ℕ → Result (List ℕ × List O)
    opts_value again code len slice =
        if code == 0
        then ok (slice, [])
        else if ltb (length slice) (len + pad_len len)
        then err (invalid_field "Option: length + pad.len() > slice.len()")
        else do
          tmp_slice ← slice_to len slice
          opt ← option.from_slice e code len tmp_slice
          rest ← slice_from (len + pad_len len) slice
          (rem, options) ← again rest
          ok (rem, opt ∷ options)

    -- A round of the loop. `again` is what the later rounds answer on the rest of the slice.
    unfoldable pub opts_round :
        (List ℕ → Result (List ℕ × List O)) → List ℕ → Result (List ℕ × List O)
    unfolding opts_value
    opts_round again slice =
        if length slice == 0
        then err (invalid_field "Invalid option")
        else if ltb (length slice) 4
        then err (invalid_field "Option: slice.len() < 4")
        else do
          (code, s₁) ← unwrap (read_u16 e slice)
          (len, s₂) ← unwrap (read_u16 e s₁)
          opts_value again code len s₂

    -- The loop, with fuel for its rounds. Where the fuel runs out it answers `panic`.
    unfoldable pub opts_loop : ℕ → List ℕ → Result (List ℕ × List O)
    unfolding opts_round
    opts_loop zero slice = panic
    opts_loop (suc fuel) slice = opts_round (opts_loop fuel) slice

    -- `opts_from_slice`. Each round takes four bytes at least, so a round for each byte and one more
    -- are enough.
    unfoldable pub opts_from_slice : List ℕ → Result (List ℕ × List O)
    unfolding opts_loop
    opts_from_slice slice =
        if length slice == 0 then ok (slice, []) else opts_loop (suc (length slice)) slice

    unfoldable pub write_each : List O → List ℕ × ℕ
    write_each [] = ([], 0)
    write_each (o ∷ os) =
        let (bytes, n) = option.write_to e o in
        let (more, m) = write_each os in (bytes ++ more, n + m)

    -- `write_opts_to`
    unfoldable pub write_opts_to : List O → List ℕ × ℕ
    unfolding write_each
    write_opts_to [] = ([], 0)
    write_opts_to (o ∷ os) =
        let (bytes, n) = write_each (o ∷ os) in (bytes ++ (write_u16 e 0 ++ write_u16 e 0), n + 4)

-- What the arms of the options' `from_slice` share: `slice.read_*().map_err(…)?` of a value alone.
abbrev pub read_only : Option (ℕ × List ℕ) → Result ℕ
read_only o = do (v, _) ← ok_or o incomplete_buffer; ok v
