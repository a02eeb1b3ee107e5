-- ===== src/PcapNg/RawBlock/Section.antt =====
-- The raw block of a section header, whose byte order is its own.
use pcap_file.Common.{
  ℕ, ◌+◌, ◌%◌, ◌<◌, ◌≤◌, ◌≡◌, refl, List, ◌++◌, append_assoc, length, length-append, some, ok,
  ◌>>=◌, unwrap, arith, le→ltb,
}
use pcap_file.ByteOrder.{ByteOrder, Endianness, big, little, swap_bytes}
use pcap_file.ByteOrder.Laws.{read-write, read-write_other}
use pcap_file.PcapNg.RawBlock.{section_header_block, section_header_parse, from_slice, write_to}
use pcap_file.PcapNg.RawBlock.Laws.{raw_of, Fits, inner_parse_lem}

swap_twice : (v : ℕ) → v < 4294967296 → swap_bytes (swap_bytes v) ≡ v
swap_twice v h = omega (arith, h)

module _ ⦃bo : ByteOrder⦄ where
  -- The type of a section header is the same in both byte orders.
  section_type :
      (e e' : Endianness) (rest : List ℕ)
      → bo.read_uint 4 e' (bo.write_uint 4 e section_header_block ++ rest)
        ≡ some (section_header_block, rest)
  section_type big big rest = read-write 4 big section_header_block rest (omega arith)
  section_type little little rest = read-write 4 little section_header_block rest (omega arith)
  section_type big little rest = read-write_other big section_header_block rest (omega arith)
  section_type little big rest = read-write_other little section_header_block rest (omega arith)

  -- The body of a section header begins with the magic number.
  abbrev pub section_body : Endianness → List ℕ → List ℕ
  section_body e more = bo.write_uint 4 e 0x1A2B3C4D ++ more

  -- What lies behind the type and the length.
  abbrev behind : Endianness → List ℕ → List ℕ → List ℕ
  behind e more rest =
      section_body e more ++ (bo.write_uint 4 e (length (section_body e more) + 12) ++ rest)

  -- Behind the type: the length, read the wrong way round if need be, and the magic number, which
  -- tells so.
  section_tail :
      (e : Endianness) (more rest : List ℕ)
      → Fits (length (section_body e more))
      → (length (section_body e more) + 12) % 4 ≡ 0
      → (unwrap (
            bo.read_uint 4 big
              (bo.write_uint 4 e (length (section_body e more) + 12) ++ behind e more rest))
          >>= λ (initial_len, s₂). unwrap (bo.read_uint 4 big s₂) >>= λ (magic, _).
              section_header_parse s₂ section_header_block initial_len magic)
        ≡ ok (rest, raw_of section_header_block (section_body e more))
  unfolding section_header_parse
  section_tail big more rest f w =
      let n = length (section_body big more) + 12 in
      let after = bo.write_uint 4 big n ++ rest in
      rw (
        read-write 4 big n (behind big more rest) (omega (arith, f)),
        append_assoc (bo.write_uint 4 big 0x1A2B3C4D) more after,
        read-write 4 big 0x1A2B3C4D (more ++ after) (omega arith),
        ← append_assoc (bo.write_uint 4 big 0x1A2B3C4D) more after,
        inner_parse_lem big (raw_of section_header_block (section_body big more)) rest
            (omega (arith, f)) w refl refl,
      )
  section_tail little more rest f w =
      let n = length (section_body little more) + 12 in
      let after = bo.write_uint 4 little n ++ rest in
      rw (
        read-write_other little n (behind little more rest) (omega (arith, f)),
        append_assoc (bo.write_uint 4 little 0x1A2B3C4D) more after,
        read-write_other little 0x1A2B3C4D (more ++ after) (omega arith),
        ← append_assoc (bo.write_uint 4 little 0x1A2B3C4D) more after,
        swap_twice n (omega (arith, f)),
        inner_parse_lem little (raw_of section_header_block (section_body little more)) rest
            (omega (arith, f)) w refl refl,
      )

  -- The raw block of a section header, whose body begins with the magic number in the byte order it was
  -- written in: it is read back whatever byte order the reader has.
  pub from_slice-write_to_section_raw :
      (e e' : Endianness) (more rest : List ℕ)
      → Fits (length (section_body e more))
      → (length (section_body e more) + 12) % 4 ≡ 0
      → from_slice e' ((write_to e (raw_of section_header_block (section_body e more))).0 ++ rest)
        ≡ ok (rest, raw_of section_header_block (section_body e more))
  unfolding from_slice
  from_slice-write_to_section_raw e e' more rest f w = rw (le→ltb _ 12 long) (
      unfold write_to in
      simp (append_assoc, section_type e e')
        (rw
          (append_assoc (bo.write_uint 4 e 0x1A2B3C4D) more
            (bo.write_uint 4 e (length (section_body e more) + 12) ++ rest))
          at (section_tail e more rest f w)))
    where
      long :
          12 ≤ length ((write_to e (raw_of section_header_block (section_body e more))).0 ++ rest)
      long = unfold write_to in simp (length-append, bo.length-write) (omega arith)
