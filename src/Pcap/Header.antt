-- ===== src/Pcap/Header.antt =====
-- `PcapHeader` of src/pcap/header.rs and `TsResolution` of src/common.rs.
pub mod RoundTrip
pub mod WriteBack
use pcap_file.Common.{
  ℕ, ◌+◌, ◌*◌, ◌<◌, ◌^◌, ◌≡◌, List, [], ◌∷◌, ◌++◌, length, Result, ok, err, panic, ◌>>=◌, ◌>>◌,
  unwrap, invalid_field, incomplete_buffer, ltb, ◌==◌, if◌then◌else◌, Option, none, some,
}
use pcap_file.ByteOrder.{
  ByteOrder, Endianness, big, little, read_u16, read_u32, write_u16, write_u32,
}
use pcap_file.DataLink.{DataLink, ethernet, from_u32, to_u32}

pub data TsResolution : Type 0 where
  micro_second nano_second : TsResolution

-- `ts_correction`, an `i32`, is its two's complement pattern.
pub record PcapHeader : Type 0 where
  pub version_major : ℕ
  pub version_minor : ℕ
  pub ts_correction : ℕ
  pub ts_accuracy : ℕ
  pub snaplen : ℕ
  pub datalink : DataLink
  pub ts_resolution : TsResolution
  pub endianness : Endianness

-- The values that the fields can have: the machine widths, and a link type that a number can name.
pub record IsValid (h : PcapHeader) : Type 0 where
  pub version_major_u16 : h.version_major < 2 ^ 16
  pub version_minor_u16 : h.version_minor < 2 ^ 16
  pub ts_correction_i32 : h.ts_correction < 2 ^ 32
  pub ts_accuracy_u32 : h.ts_accuracy < 2 ^ 32
  pub snaplen_u32 : h.snaplen < 2 ^ 32
  pub datalink_u32 : to_u32 h.datalink < 2 ^ 32
  pub datalink_canonical : from_u32 (to_u32 h.datalink) ≡ h.datalink

-- `PcapHeader::default()`
abbrev pub default : PcapHeader
default = record {
  version_major = 2;
  version_minor = 4;
  ts_correction = 0;
  ts_accuracy = 0;
  snaplen = 65535;
  datalink = ethernet;
  ts_resolution = micro_second;
  endianness = big;
}

-- The magic number that `write_header` chooses.
abbrev pub magic_number : TsResolution → ℕ
magic_number micro_second = 0xA1B2C3D4
magic_number nano_second = 0xA1B23C4D

module _ ⦃bo : ByteOrder⦄ where
  unfoldable pub init_pcap_header :
      Endianness → List ℕ → TsResolution → Endianness → Result (List ℕ × PcapHeader)
  init_pcap_header e src ts_resolution endianness = do
    (version_major, src₁) ← unwrap (read_u16 e src)
    (version_minor, src₂) ← unwrap (read_u16 e src₁)
    (ts_correction, src₃) ← unwrap (read_u32 e src₂)
    (ts_accuracy, src₄) ← unwrap (read_u32 e src₃)
    (snaplen, src₅) ← unwrap (read_u32 e src₄)
    (datalink, src₆) ← unwrap (read_u32 e src₅)
    ok (
      src₆,
      record {
        version_major = version_major;
        version_minor = version_minor;
        ts_correction = ts_correction;
        ts_accuracy = ts_accuracy;
        snaplen = snaplen;
        datalink = from_u32 datalink;
        ts_resolution = ts_resolution;
        endianness = endianness;
      },
    )

  -- The match on the magic number, which is read big-endian.
  unfoldable pub match_magic : ℕ → List ℕ → Result (List ℕ × PcapHeader)
  match_magic magic slice =
      if magic == 0xA1B2C3D4
      then init_pcap_header big slice micro_second big
      else if magic == 0xA1B23C4D
      then init_pcap_header big slice nano_second big
      else if magic == 0xD4C3B2A1
      then init_pcap_header little slice micro_second little
      else if magic == 0x4D3CB2A1
      then init_pcap_header little slice nano_second little
      else err (invalid_field "PcapHeader: wrong magic number")

  -- `PcapHeader::from_slice`
  unfoldable pub from_slice : List ℕ → Result (List ℕ × PcapHeader)
  unfolding match_magic
  from_slice slice =
      if ltb (length slice) 24
      then err incomplete_buffer
      else do (magic, src) ← unwrap (read_u32 big slice); match_magic magic src

  -- The bytes written, and the count that is returned.
  unfoldable pub write_header : Endianness → PcapHeader → List ℕ × ℕ
  write_header e h = (
    write_u32 e (magic_number h.ts_resolution)
        ++ (write_u16 e h.version_major
            ++ (write_u16 e h.version_minor
                ++ (write_u32 e h.ts_correction
                    ++ (write_u32 e h.ts_accuracy
                        ++ (write_u32 e h.snaplen ++ write_u32 e (to_u32 h.datalink)))))),
    24,
  )

  -- `PcapHeader::write_to`
  unfoldable pub write_to : PcapHeader → List ℕ × ℕ
  unfolding write_header
  write_to h = write_header h.endianness h
