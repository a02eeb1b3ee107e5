-- ===== src/PcapNg/Blocks/Unknown.antt =====
-- The unknown block of src/pcapng/blocks/unknown.rs.
use pcap_file.Common.{ℕ, List, length}

pub record UnknownBlock : Type 0 where
  pub type_ : ℕ
  pub length : ℕ
  pub value : List ℕ

-- `UnknownBlock::new`
unfoldable pub new : ℕ → ℕ → List ℕ → UnknownBlock
new type_ len value = record { type_ = type_; length = len; value = value }

-- `UnknownBlock::write_to`
unfoldable pub write_to : UnknownBlock → List ℕ × ℕ
write_to b = (b.value, length b.value)
