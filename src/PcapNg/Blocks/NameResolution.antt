-- ===== src/PcapNg/Blocks/NameResolution.antt =====
-- The name resolution block of src/pcapng/blocks/name_resolution.rs.
pub mod Options
pub mod Records
pub mod Names
pub mod RoundTrip
use pcap_file.Common.{
  ℕ, zero, suc, ◌+◌, ◌%◌, ◌^◌, List, [], ◌∷◌, ◌++◌, length, ◌||◌, not, Result, ok, err, panic,
  ◌>>=◌, ◌>>◌, guard, ok_or, invalid_field, incomplete_buffer, ltb, leb, ◌==◌, if◌then◌else◌,
  slice_to, slice_from,
}
use pcap_file.ByteOrder.{ByteOrder, Endianness, read_u16, write_u16}
use pcap_file.Utf8.{from_utf8}
use pcap_file.PcapNg.Options.{
  UnknownOption, CustomBinaryOption, CustomUtf8Option, PcapNgOption, custom_binary_from_slice,
  custom_utf8_from_slice, write_bytes_opt, write_custom_binary_opt, write_custom_utf8_opt,
  write_unknown_opt, opts_from_slice, write_opts_to, pad_len, padding,
}
use mathlib.Core.List.{reverse}

-- `NameResolutionOption`; a text is its bytes.
pub data NameResolutionOption : Type 0 where
  comment : List ℕ → NameResolutionOption
  ns_dns_name : List ℕ → NameResolutionOption
  ns_dns_ipv4_addr : List ℕ → NameResolutionOption
  ns_dns_ipv6_addr : List ℕ → NameResolutionOption
  custom_binary : CustomBinaryOption → NameResolutionOption
  custom_utf8 : CustomUtf8Option → NameResolutionOption
  unknown : UnknownOption → NameResolutionOption

-- A name is its bytes.
pub record Ipv4Record : Type 0 where
  pub ip_addr : List ℕ
  pub names : List (List ℕ)

pub record Ipv6Record : Type 0 where
  pub ip_addr : List ℕ
  pub names : List (List ℕ)

pub record UnknownRecord : Type 0 where
  pub type_ : ℕ
  pub length : ℕ
  pub value : List ℕ

pub data Record : Type 0 where
  end : Record
  ipv4 : Ipv4Record → Record
  ipv6 : Ipv6Record → Record
  unknown : UnknownRecord → Record

pub record NameResolutionBlock : Type 0 where
  pub records : List Record
  pub options : List NameResolutionOption

-- `slice.split(|&b| b == 0)`: the pieces between the zero bytes. The first argument is the piece
-- begun, in reverse.
unfoldable pub split : List ℕ → List ℕ → List (List ℕ)
split piece [] = reverse piece ∷ []
split piece (b ∷ bs) =
    let next = split [] bs in
    let more = split (b ∷ piece) bs in if b == 0 then reverse piece ∷ next else more

-- The loop over the pieces, up to the first empty one.
unfoldable pub parse_names : List (List ℕ) → Result (List (List ℕ))
unfolding from_utf8
parse_names [] = ok []
parse_names (name ∷ pieces) =
    let more = do text ← from_utf8 name; names ← parse_names pieces; ok (text ∷ names)
    in if length name == 0 then ok [] else more

-- `Ipv4Record::from_slice`
unfoldable pub ipv4_from_slice : List ℕ → Result Ipv4Record
unfolding split parse_names
ipv4_from_slice slice =
    if ltb (length slice) 6
    then err (invalid_field "NameResolutionBlock: Ipv4Record len < 6")
    else do
      ip_addr ← slice_to 4 slice
      rest ← slice_from 4 slice
      names ← parse_names (split [] rest)
      guard (not (length names == 0))
          (invalid_field "NameResolutionBlock: Ipv4Record without any name")
      ok (record { ip_addr = ip_addr; names = names })

-- `Ipv6Record::from_slice`
unfoldable pub ipv6_from_slice : List ℕ → Result Ipv6Record
unfolding split parse_names
ipv6_from_slice slice =
    if ltb (length slice) 18
    then err (invalid_field "NameResolutionBlock: Ipv6Record len < 18")
    else do
      ip_addr ← slice_to 16 slice
      rest ← slice_from 16 slice
      names ← parse_names (split [] rest)
      guard (not (length names == 0))
          (invalid_field "NameResolutionBlock: Ipv6Record without any name")
      ok (record { ip_addr = ip_addr; names = names })

-- The names, each closed by a zero byte, and the bytes counted for them.
unfoldable pub write_names : List (List ℕ) → List ℕ × ℕ
write_names [] = ([], 0)
write_names (name ∷ names) =
    let (bytes, n) = write_names names in (name ++ (0 ∷ bytes), length name + 1 + n)

-- `Ipv4Record::write_to` and `Ipv6Record::write_to`
unfoldable pub ipv4_write_to : Ipv4Record → List ℕ × ℕ
unfolding write_names
ipv4_write_to r = let (bytes, n) = write_names r.names in (r.ip_addr ++ bytes, 4 + n)

unfoldable pub ipv6_write_to : Ipv6Record → List ℕ × ℕ
unfolding write_names
ipv6_write_to r = let (bytes, n) = write_names r.names in (r.ip_addr ++ bytes, 16 + n)

module _ ⦃bo : ByteOrder⦄ where
  -- `NameResolutionOption::from_slice`
  unfoldable pub parse_option : Endianness → ℕ → ℕ → List ℕ → Result NameResolutionOption
  unfolding from_utf8 custom_utf8_from_slice custom_binary_from_slice
  parse_option e code len slice =
      if code == 1
      then (from_utf8 slice >>= λ text. ok (comment text))
      else if code == 2
      then (from_utf8 slice >>= λ text. ok (ns_dns_name text))
      else if code == 3
      then (guard (length slice == 4)
            (invalid_field "NameResolutionOption: NsDnsIpv4Addr length != 4")
          >> ok (ns_dns_ipv4_addr slice))
      else if code == 4
      then (guard (length slice == 16)
            (invalid_field "NameResolutionOption: NsDnsIpv6Addr length != 16")
          >> ok (ns_dns_ipv6_addr slice))
      else if (code == 2988) || (code == 19372)
      then (custom_utf8_from_slice e code slice >>= λ o. ok (custom_utf8 o))
      else if (code == 2989) || (code == 19373)
      then (custom_binary_from_slice e code slice >>= λ o. ok (custom_binary o))
      else ok (unknown (record { code = code; length = len; value = slice }))

  -- `NameResolutionOption::write_to`
  unfoldable pub write_option : Endianness → NameResolutionOption → List ℕ × ℕ
  unfolding write_bytes_opt write_custom_binary_opt write_custom_utf8_opt write_unknown_opt
  write_option e (comment a) = write_bytes_opt e 1 a
  write_option e (ns_dns_name a) = write_bytes_opt e 2 a
  write_option e (ns_dns_ipv4_addr a) = write_bytes_opt e 3 a
  write_option e (ns_dns_ipv6_addr a) = write_bytes_opt e 4 a
  write_option e (custom_binary a) = write_custom_binary_opt e a
  write_option e (custom_utf8 a) = write_custom_utf8_opt e a
  write_option e (unknown a) = write_unknown_opt e a

  -- `impl PcapNgOption for NameResolutionOption`
  abbrev pub name_resolution_option : PcapNgOption NameResolutionOption
  name_resolution_option = record { from_slice = parse_option; write_to = write_option }

  -- The match of `Record::from_slice` on the type.
  unfoldable pub record_value : ℕ → ℕ → List ℕ → Result Record
  unfolding ipv4_from_slice ipv6_from_slice
  record_value type_ len value =
      if type_ == 0
      then (guard (len == 0) (invalid_field "NameResolutionBlock: nrb_record_end length != 0")
          >> ok end)
      else if type_ == 1
      then (ipv4_from_slice value >>= λ r. ok (ipv4 r))
      else if type_ == 2
      then (ipv6_from_slice value >>= λ r. ok (ipv6 r))
      else ok (unknown (record { type_ = type_; length = len; value = value }))

  -- `Record::from_slice`; the last slice is not checked against the padding.
  unfoldable pub record_from_slice : Endianness → List ℕ → Result (List ℕ × Record)
  unfolding record_value
  record_from_slice e slice = do
    (type_, s₁) ← ok_or (read_u16 e slice) incomplete_buffer
    (len, s₂) ← ok_or (read_u16 e s₁) incomplete_buffer
    guard (leb len (length s₂)) (invalid_field "NameResolutionBlock: Record length > slice.len()")
    value ← slice_to len s₂
    r ← record_value type_ len value
    rem ← slice_from (len + pad_len len) s₂
    ok (rem, r)

  -- `Record::write_to`
  unfoldable pub record_write_to : Endianness → Record → List ℕ × ℕ
  unfolding ipv4_write_to ipv6_write_to
  record_write_to e end = (write_u16 e 0 ++ write_u16 e 0, 4)
  record_write_to e (ipv4 a) =
      let (bytes, len) = ipv4_write_to a in
      (
        write_u16 e 1 ++ (write_u16 e (len % 2 ^ 16) ++ (bytes ++ padding len)),
        4 + len + pad_len len,
      )
  record_write_to e (ipv6 a) =
      let (bytes, len) = ipv6_write_to a in
      (
        write_u16 e 2 ++ (write_u16 e (len % 2 ^ 16) ++ (bytes ++ padding len)),
        4 + len + pad_len len,
      )
  record_write_to e (unknown a) = (
    write_u16 e a.type_ ++ (write_u16 e a.length ++ (a.value ++ padding (length a.value))),
    4 + length a.value + pad_len (length a.value),
  )

  -- A round of the loop of `NameResolutionBlock::from_slice` behind the record it has read.
  unfoldable pub records_round :
      (List ℕ → Result (List ℕ × List Record)) → List ℕ × Record → Result (List ℕ × List Record)
  records_round again (slice, end) = ok (slice, [])
  records_round again (slice, r) = do (rem, rs) ← again slice; ok (rem, r ∷ rs)

  -- The loop, with fuel for its rounds. Where the fuel runs out it answers `panic`.
  unfoldable pub records_loop : Endianness → ℕ → List ℕ → Result (List ℕ × List Record)
  unfolding record_from_slice records_round
  records_loop e zero slice = panic
  records_loop e (suc fuel) slice =
      record_from_slice e slice >>= records_round (records_loop e fuel)

  -- `NameResolutionBlock::from_slice`. Each round takes four bytes at least, so a round for each
  -- byte and one more are enough.
  unfoldable pub from_slice : Endianness → List ℕ → Result (List ℕ × NameResolutionBlock)
  unfolding records_loop parse_option
  from_slice e slice = do
    (rest, records) ← records_loop e (suc (length slice)) slice
    (rem, options) ← opts_from_slice name_resolution_option e rest
    ok (rem, record { records = records; options = options })

  unfoldable pub write_records : Endianness → List Record → List ℕ × ℕ
  unfolding record_write_to
  write_records e [] = record_write_to e end
  write_records e (r ∷ rs) =
      let (bytes, n) = record_write_to e r in
      let (more, m) = write_records e rs in (bytes ++ more, n + m)

  -- `NameResolutionBlock::write_to`
  unfoldable pub write_to : Endianness → NameResolutionBlock → List ℕ × ℕ
  unfolding write_records write_option
  write_to e b =
      let (bytes, n) = write_records e b.records in
      let (opts, m) = write_opts_to name_resolution_option e b.options in (bytes ++ opts, n + m)
