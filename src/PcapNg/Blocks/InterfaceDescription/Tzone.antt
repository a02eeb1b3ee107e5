-- ===== src/PcapNg/Blocks/InterfaceDescription/Tzone.antt =====
-- The time zone option of an interface.
use pcap_file.Common.{ℕ, ◌≢◌, List, length, ok, ◌==◌, Bool-cases, inl, inr, arith}
use pcap_file.ByteOrder.{ByteOrder, Endianness}
use pcap_file.PcapNg.Blocks.InterfaceDescription.{InterfaceDescriptionOption, parse_option}

module _ ⦃bo : ByteOrder⦄ where
  -- No value, of whatever length, is accepted for the time zone option, whose code is 10.
  pub parse_option_tzone :
      (e : Endianness) (len : ℕ) (slice : List ℕ) (o : InterfaceDescriptionOption)
      → parse_option e 10 len slice ≢ ok o
  unfolding parse_option
  parse_option_tzone e len slice o = elim (Bool-cases (length slice == 1)) [
    | inl one ↦ λ q. cc (rw (one, bo.read_short 4 e slice (ground arith)) at q)
    | inr not_one ↦ λ q. cc (rw not_one at q)
  ]
