-- ===== src/Pcap/Packet/Laws.antt =====
-- The checks on packets: what they let through, and that nothing else is lost on the way to a file
-- and back.
use pcap_file.Common.{
  true, ℕ, ◌*◌, ◌/◌, ◌<◌, ◌≤◌, ◌^◌, ◌≡◌, refl, List, ◌++◌, length, All, ok, err, invalid_field,
  arith, >>=-eq-ok,
}
use pcap_file.ByteOrder.{ByteOrder, Endianness, IsByte}
use pcap_file.ByteOrder.Calm.{IsCalm}
use pcap_file.ByteOrder.Steps.{Extends, Extends-then}
use pcap_file.Duration
use pcap_file.Duration.{Duration}
use pcap_file.Pcap.Header.{TsResolution, micro_second, nano_second}
use pcap_file.Pcap.RawPacket
use pcap_file.Pcap.RawPacket.{RawPcapPacket}
use pcap_file.Pcap.RawPacket.Laws
use pcap_file.Pcap.Packet.{
  PcapPacket, IsValid, ts_nsec, ts_frac, check_raw, try_from_raw_packet, to_raw_packet, from_slice,
  write_to,
}

-- What a file keeps of a packet: with microseconds, the timestamp is cut down to a whole one.
abbrev pub kept_nanos : TsResolution → ℕ → ℕ
kept_nanos micro_second nanos = nanos / 1000 * 1000
kept_nanos nano_second nanos = nanos

abbrev pub kept : TsResolution → PcapPacket → PcapPacket
kept r p = record p {
  timestamp = record { secs = p.timestamp.secs; nanos = kept_nanos r p.timestamp.nanos };
}

-- A packet that the reader of a file with this snap length accepts.
pub record Fits (p : PcapPacket) (snap_len : ℕ) : Type 0 where
  pub secs_u32 : p.timestamp.secs < 2 ^ 32
  pub payload_u32 : length p.payload < 2 ^ 32
  pub payload-le-orig_len : length p.payload ≤ p.orig_len
  pub orig_len-le-snap_len : p.orig_len ≤ snap_len

-- The raw packet for a packet that fits.
raw_of : TsResolution → PcapPacket → RawPcapPacket
raw_of r p = record {
  ts_sec = p.timestamp.secs;
  ts_frac = ts_frac r p.timestamp.nanos;
  incl_len = length p.payload;
  orig_len = p.orig_len;
  payload = p.payload;
}

to_raw_packet_lem :
    (p : PcapPacket) (r : TsResolution) (snap_len : ℕ)
    → Fits p snap_len
    → to_raw_packet p r snap_len ≡ ok (raw_of r p)
unfolding to_raw_packet raw_of
to_raw_packet_lem p r snap_len f = ground arith

ts_nsec-ts_frac :
    (r : TsResolution) (n : ℕ) → n < 10 ^ 9 → ts_nsec r (ts_frac r n) ≡ ok (kept_nanos r n)
ts_nsec-ts_frac micro_second n h = ground arith
ts_nsec-ts_frac nano_second n h = refl

kept_nanos-le : (r : TsResolution) (n : ℕ) → kept_nanos r n ≤ n
kept_nanos-le micro_second n = omega arith
kept_nanos-le nano_second n = omega arith

check_raw_lem :
    (p : PcapPacket) (r : TsResolution) (nsec snap_len : ℕ)
    → nsec < 10 ^ 9
    → Fits p snap_len
    → check_raw nsec (raw_of r p) snap_len
      ≡ ok (record p { timestamp = record { secs = p.timestamp.secs; nanos = nsec } })
unfolding check_raw raw_of
check_raw_lem p r nsec snap_len h f =
    ground (arith, Duration.new_lem p.timestamp.secs nsec (omega arith) h)

try_from_raw_packet_lem :
    (p : PcapPacket) (r : TsResolution) (snap_len : ℕ)
    → p.timestamp.nanos < 10 ^ 9
    → Fits p snap_len
    → try_from_raw_packet (raw_of r p) r snap_len ≡ ok (kept r p)
unfolding try_from_raw_packet raw_of
try_from_raw_packet_lem p r snap_len h f = rw (ts_nsec-ts_frac r p.timestamp.nanos h) (
    unfold raw_of in
    check_raw_lem p r (kept_nanos r p.timestamp.nanos) snap_len
      (omega (arith, kept_nanos-le r p.timestamp.nanos)) f)

raw_of-IsValid :
    (p : PcapPacket) (r : TsResolution) (snap_len : ℕ)
    → IsValid p
    → Fits p snap_len
    → RawPacket.IsValid (raw_of r p)
unfolding raw_of
raw_of-IsValid p micro_second snap_len v f = ground (arith, v.timestamp_valid.nanos_lt)
raw_of-IsValid p nano_second snap_len v f = ground (arith, v.timestamp_valid.nanos_lt)

-- What the checks of `check_raw` let through.
check_raw-eq-ok :
    (raw : RawPcapPacket) (nsec snap_len : ℕ) (p : PcapPacket)
    → raw.ts_sec < 2 ^ 32
    → check_raw nsec raw snap_len ≡ ok p
    → (nsec < 10 ^ 9)
      × (raw.orig_len ≤ snap_len)
      × (raw.incl_len ≤ raw.orig_len)
      × (p ≡ record {
        timestamp = record { secs = raw.ts_sec; nanos = nsec };
        orig_len = raw.orig_len;
        payload = raw.payload;
      })
unfolding check_raw
check_raw-eq-ok raw nsec snap_len p lt h =
    ground (arith, Duration.new_lem raw.ts_sec nsec (omega arith))

ts_nsec-eq-ok :
    (r : TsResolution) (frac nsec : ℕ) → ts_nsec r frac ≡ ok nsec → ts_frac r nsec ≡ frac
ts_nsec-eq-ok micro_second frac nsec h = ground arith
ts_nsec-eq-ok nano_second frac nsec h = ground arith

try_from_raw_packet-eq-ok :
    (raw : RawPcapPacket) (r : TsResolution) (snap_len : ℕ) (p : PcapPacket)
    → RawPacket.IsValid raw
    → try_from_raw_packet raw r snap_len ≡ ok p
    → IsValid p × Fits p snap_len × (raw_of r p ≡ raw)
unfolding try_from_raw_packet raw_of
try_from_raw_packet-eq-ok raw r snap_len p v h =
    let (nsec, h₁, h₂) = >>=-eq-ok (ts_nsec r raw.ts_frac) _ h in
    let (n_lt, o_le, i_le, ep) = check_raw-eq-ok raw nsec snap_len p v.ts_sec_u32 h₂ in
    let ef = ts_nsec-eq-ok r raw.ts_frac nsec h₁ in
    rw ep (
      record {
        timestamp_valid = record { secs_u64 = omega (arith, v.ts_sec_u32); nanos_lt = n_lt };
        orig_len_u32 = v.orig_len_u32;
      },
      record {
        secs_u32 = v.ts_sec_u32;
        payload_u32 = omega (arith, v.payload_len, v.incl_len_u32);
        payload-le-orig_len = omega (arith, v.payload_len, i_le);
        orig_len-le-snap_len = o_le;
      },
      cc (ef, v.payload_len),
    )

try_from_raw_packet-IsCalm :
    (raw : RawPcapPacket) (r : TsResolution) (snap_len : ℕ)
    → raw.ts_sec < 2 ^ 32
    → IsCalm true (try_from_raw_packet raw r snap_len)
unfolding try_from_raw_packet check_raw Duration.new
try_from_raw_packet-IsCalm raw micro_second snap_len h = record {
  ne_panic = λ _ e. ground arith;
  ne_io_error = λ k e. ground arith;
}
try_from_raw_packet-IsCalm raw nano_second snap_len h = record {
  ne_panic = λ _ e. ground arith;
  ne_io_error = λ k e. ground arith;
}

module _ ⦃bo : ByteOrder⦄ where
  -- A valid packet that fits the snap length is written, with the returned count of bytes, and read back
  -- from what was written. Only what the resolution of the file cannot tell is lost, and what
  -- follows the packet is left.
  pub from_slice-write_to_packet :
      (e : Endianness) (p : PcapPacket) (r : TsResolution) (snap_len : ℕ)
      → IsValid p
      → Fits p snap_len
      → (bytes : List ℕ) × (write_to e p r snap_len ≡ ok (bytes, length bytes))
        × ((rest : List ℕ) → from_slice e (bytes ++ rest) r snap_len ≡ ok (rest, kept r p))
  unfolding from_slice write_to
  from_slice-write_to_packet e p r snap_len v f = (
    (RawPacket.write_to e (raw_of r p)).0,
    rw (to_raw_packet_lem p r snap_len f, RawPacket.Laws.length-write_to e (raw_of r p)),
    λ rest. rw (
      RawPacket.Laws.from_slice-write_to_raw e (raw_of r p) rest (raw_of-IsValid p r snap_len v f),
      try_from_raw_packet_lem p r snap_len v.timestamp_valid.nanos_lt f,
    ),
  )

  -- A valid packet whose data fit the snap length but which was longer on the wire is written, and
  -- refused when it is read back with the same snap length.
  pub from_slice-write_to_too_long :
      (e : Endianness) (p : PcapPacket) (r : TsResolution) (snap_len : ℕ) (rest : List ℕ)
      → IsValid p
      → Fits p p.orig_len
      → length p.payload ≤ snap_len
      → snap_len < p.orig_len
      → (bytes : List ℕ) × (write_to e p r snap_len ≡ ok (bytes, length bytes))
        × (from_slice e (bytes ++ rest) r snap_len
            ≡ err (invalid_field "PacketHeader orig_len > snap_len"))
  unfolding from_slice write_to
  from_slice-write_to_too_long e p r snap_len rest v f le lt = (
    (RawPacket.write_to e (raw_of r p)).0,
    rw (accepted, RawPacket.Laws.length-write_to e (raw_of r p)),
    rw (
      RawPacket.Laws.from_slice-write_to_raw e (raw_of r p) rest
          (raw_of-IsValid p r p.orig_len v f),
      refused r,
    ),
  )
    where
      accepted : to_raw_packet p r snap_len ≡ ok (raw_of r p)
      accepted = unfold to_raw_packet raw_of in ground (arith, f.payload_u32, f.secs_u32)

      refused :
          (r : TsResolution)
          → try_from_raw_packet (raw_of r p) r snap_len
            ≡ err (invalid_field "PacketHeader orig_len > snap_len")
      refused r =
          unfold try_from_raw_packet raw_of in
          rw (ts_nsec-ts_frac r p.timestamp.nanos v.timestamp_valid.nanos_lt) (
            unfold check_raw in
            ground (arith, kept_nanos-le r p.timestamp.nanos, v.timestamp_valid.nanos_lt))

  from_slice-eq-ok :
      (e : Endianness) (slice rem : List ℕ) (p : PcapPacket) (r : TsResolution) (snap_len : ℕ)
      → from_slice e slice r snap_len ≡ ok (rem, p)
      → (raw : RawPcapPacket) × (RawPacket.from_slice e slice ≡ ok (rem, raw))
        × (try_from_raw_packet raw r snap_len ≡ ok p)
  unfolding from_slice
  from_slice-eq-ok e slice rem p r snap_len q =
      let (m, q₁, q₂) = >>=-eq-ok (RawPacket.from_slice e slice) _ q in
      let (s, q₃, q₄) = >>=-eq-ok (try_from_raw_packet m.1 r snap_len) _ q₂ in
      (m.1, cc (q₁, q₄), cc (q₃, q₄))

  -- What is read from a slice of bytes has a timestamp and lengths within their bounds and can be
  -- written again, which gives the bytes that were read.
  pub write_to-from_slice_packet :
      (e : Endianness) (slice rem : List ℕ) (p : PcapPacket) (r : TsResolution) (snap_len : ℕ)
      → All IsByte slice
      → from_slice e slice r snap_len ≡ ok (rem, p)
      → IsValid p
        × Fits p snap_len
        × ((bytes : List ℕ) × (write_to e p r snap_len ≡ ok (bytes, length bytes))
            × (bytes ++ rem ≡ slice))
  unfolding write_to
  write_to-from_slice_packet e slice rem p r snap_len h q =
      let (raw, q₁, q₂) = from_slice-eq-ok e slice rem p r snap_len q in
      let (valid, same) = RawPacket.Laws.write_to-from_slice_raw e slice rem raw h q₁ in
      let (v, f, again) = try_from_raw_packet-eq-ok raw r snap_len p valid q₂ in
      (
        v,
        f,
        (
          (RawPacket.write_to e raw).0,
          rw (to_raw_packet_lem p r snap_len f, again, RawPacket.Laws.length-write_to e raw),
          same,
        ),
      )

  -- On a slice of bytes `PcapPacket::from_slice` never panics, and once it has answered anything but
  -- `IncompleteBuffer`, more input behind the slice changes nothing but the remainder.
  pub from_slice_packet-Extends :
      (e : Endianness) (r : TsResolution) (snap_len : ℕ) (slice more : List ℕ)
      → All IsByte slice
      → Extends more (from_slice e slice r snap_len) (from_slice e (slice ++ more) r snap_len)
  unfolding from_slice
  from_slice_packet-Extends e r snap_len slice more h =
      Extends-then more _ _ (λ raw. try_from_raw_packet raw r snap_len)
        (RawPacket.Laws.from_slice_raw-Extends e slice more h)
        λ rem raw q.
          try_from_raw_packet-IsCalm raw r snap_len
            (RawPacket.Laws.write_to-from_slice_raw e slice rem raw h q).0.ts_sec_u32
