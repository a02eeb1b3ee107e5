-- ===== src/Pcap/Packet.antt =====
-- `PcapPacket` of src/pcap/packet.rs: a packet with a checked timestamp and checked lengths.
pub mod Laws
pub mod Refusals
use pcap_file.Common.{
  ℕ, ◌+◌, ◌*◌, ◌/◌, ◌%◌, ◌<◌, ◌≤◌, ◌^◌, List, length, Option, some, none, Result, ok, err, ◌>>=◌,
  ok_or, invalid_field, ltb, leb, if◌then◌else◌,
}
use pcap_file.ByteOrder.{ByteOrder, Endianness}
use pcap_file.Duration
use pcap_file.Duration.{Duration}
use pcap_file.Pcap.Header.{TsResolution, micro_second, nano_second}
use pcap_file.Pcap.RawPacket
use pcap_file.Pcap.RawPacket.{RawPcapPacket}

-- `payload` is the field `data`.
pub record PcapPacket : Type 0 where
  pub timestamp : Duration
  pub orig_len : ℕ
  pub payload : List ℕ

-- `PcapPacket::new` and `PcapPacket::new_owned`
abbrev pub new : Duration → ℕ → List ℕ → PcapPacket
new timestamp orig_len payload = record {
  timestamp = timestamp;
  orig_len = orig_len;
  payload = payload;
}

-- The widths of the fields, as the types have them.
pub record IsValid (p : PcapPacket) : Type 0 where
  pub timestamp_valid : Duration.IsValid p.timestamp
  pub orig_len_u32 : p.orig_len < 2 ^ 32

-- `u32::checked_mul`
abbrev pub checked_mul : ℕ → ℕ → Option ℕ
checked_mul a b = if ltb (a * b) (2 ^ 32) then some (a * b) else none

-- The nanoseconds of a raw timestamp, not yet checked.
abbrev pub ts_nsec : TsResolution → ℕ → Result ℕ
ts_nsec micro_second ts_frac =
    ok_or (checked_mul ts_frac 1000) (invalid_field "PacketHeader ts_nanosecond is invalid")
ts_nsec nano_second ts_frac = ok ts_frac

-- The fraction that is written for a timestamp.
abbrev pub ts_frac : TsResolution → ℕ → ℕ
ts_frac micro_second nanos = nanos / 1000
ts_frac nano_second nanos = nanos

-- The checks of `try_from_raw_packet` on the timestamp and the lengths, in their order.
unfoldable pub check_raw : ℕ → RawPcapPacket → ℕ → Result PcapPacket
unfolding Duration.new
check_raw nsec raw snap_len =
    if leb Duration.nanos_per_sec nsec
    then err (invalid_field "PacketHeader ts_nanosecond >= 1_000_000_000")
    else if ltb snap_len raw.incl_len
    then err (invalid_field "PacketHeader incl_len > snap_len")
    else if ltb snap_len raw.orig_len
    then err (invalid_field "PacketHeader orig_len > snap_len")
    else if ltb raw.orig_len raw.incl_len
    then err (invalid_field "PacketHeader incl_len > orig_len")
    else do
      timestamp ← Duration.new raw.ts_sec nsec
      ok (record { timestamp = timestamp; orig_len = raw.orig_len; payload = raw.payload })

-- `PcapPacket::try_from_raw_packet`
unfoldable pub try_from_raw_packet : RawPcapPacket → TsResolution → ℕ → Result PcapPacket
try_from_raw_packet raw ts_resolution snap_len = do
  nsec ← ts_nsec ts_resolution raw.ts_frac
  check_raw nsec raw snap_len

-- `RawPcapPacket::try_into_pcap_packet`
abbrev pub try_into_pcap_packet : RawPcapPacket → TsResolution → ℕ → Result PcapPacket
try_into_pcap_packet raw ts_resolution snap_len = try_from_raw_packet raw ts_resolution snap_len

-- The raw packet that `write_to` makes, behind its checks. `incl_len` is the payload's length.
unfoldable pub to_raw_packet : PcapPacket → TsResolution → ℕ → Result RawPcapPacket
to_raw_packet p ts_resolution snap_len =
    if leb (2 ^ 32) p.timestamp.secs
    then err (invalid_field "PcapPacket: timestamp_secs > u32::MAX")
    else if leb (2 ^ 32) (length p.payload)
    then err (invalid_field "PcapPacket: incl_len > u32::MAX")
    else if ltb snap_len (length p.payload)
    then err (invalid_field "PcapPacket: incl_len > snap_len")
    else if ltb p.orig_len (length p.payload)
    then err (invalid_field "PcapPacket: incl_len > orig_len")
    else ok (record {
      ts_sec = p.timestamp.secs;
      ts_frac = ts_frac ts_resolution p.timestamp.nanos;
      incl_len = length p.payload;
      orig_len = p.orig_len;
      payload = p.payload;
    })

module _ ⦃bo : ByteOrder⦄ where
  -- `PcapPacket::from_slice`
  unfoldable pub from_slice : Endianness → List ℕ → TsResolution → ℕ → Result (List ℕ × PcapPacket)
  from_slice e slice ts_resolution snap_len = do
    (rem, raw_packet) ← RawPacket.from_slice e slice
    s ← try_from_raw_packet raw_packet ts_resolution snap_len
    ok (rem, s)

  -- `PcapPacket::write_to`: the bytes written, and the count that is returned.
  unfoldable pub write_to : Endianness → PcapPacket → TsResolution → ℕ → Result (List ℕ × ℕ)
  write_to e p ts_resolution snap_len = do
    raw ← to_raw_packet p ts_resolution snap_len
    ok (RawPacket.write_to e raw)
