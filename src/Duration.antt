-- ===== src/Duration.antt =====
-- `std::time::Duration`, as far as src/pcap/packet.rs and
-- src/pcapng/blocks/enhanced_packet.rs use it.
use pcap_file.Common.{
  ℕ, ◌+◌, ◌*◌, ◌/◌, ◌%◌, ◌^◌, ◌<◌, ◌≡◌, ltb, if◌then◌else◌, Result, ok, panic, arith,
}

pub record Duration : Type 0 where
  pub secs : ℕ
  pub nanos : ℕ

abbrev pub nanos_per_sec : ℕ
nanos_per_sec = 1_000_000_000

-- What every `Duration` satisfies.
pub record IsValid (d : Duration) : Type 0 where
  pub secs_u64 : d.secs < 2 ^ 64
  pub nanos_lt : d.nanos < nanos_per_sec

-- `Duration::new`: it carries whole seconds over, and panics where they overflow.
unfoldable pub new : ℕ → ℕ → Result Duration
new secs nanos =
    if ltb (secs + nanos / nanos_per_sec) (2 ^ 64)
    then ok (record { secs = secs + nanos / nanos_per_sec; nanos = nanos % nanos_per_sec })
    else panic

abbrev pub from_nanos : ℕ → Duration
from_nanos n = record { secs = n / nanos_per_sec; nanos = n % nanos_per_sec }

-- A `u128`: it cannot overflow.
abbrev pub as_nanos : Duration → ℕ
as_nanos d = d.secs * nanos_per_sec + d.nanos

pub new_lem :
    (secs nanos : ℕ)
    → secs < 2 ^ 64
    → nanos < nanos_per_sec
    → new secs nanos ≡ ok (record { secs = secs; nanos = nanos })
unfolding new
new_lem secs nanos h k = ground arith

pub from_nanos-as_nanos : (d : Duration) → d.nanos < nanos_per_sec → from_nanos (as_nanos d) ≡ d
from_nanos-as_nanos d h = ground arith

pub as_nanos-from_nanos : (n : ℕ) → as_nanos (from_nanos n) ≡ n
as_nanos-from_nanos n = omega arith
