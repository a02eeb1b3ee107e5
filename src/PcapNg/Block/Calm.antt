-- ===== src/PcapNg/Block/Calm.antt =====
-- What the reading of a block's body answers: no I/O error, and a panic for name resolution only.
use pcap_file.Common.{
  ℕ, ◌≡◌, ◌≢◌, refl, List, Bool, true, false, Bool-cases, inl, inr, Result, panic, ◌==◌,
  if◌then◌else◌, arith,
}
use pcap_file.ByteOrder.{ByteOrder, Endianness}
use pcap_file.ByteOrder.Calm.{IsCalm, ok-IsCalm, if-IsCalm, >>=-IsCalm}
use pcap_file.PcapNg.Blocks.Calm.{
  section_header-IsCalm, interface_description-IsCalm, packet-IsCalm, simple_packet-IsCalm,
  interface_statistics-IsCalm, enhanced_packet-IsCalm, systemd_journal_export-IsCalm,
}
use pcap_file.PcapNg.Blocks.NameResolution
use pcap_file.PcapNg.Blocks.NameResolution.Records.{name_resolution-IsCalm}
use pcap_file.PcapNg.RawBlock.{RawBlock}
use pcap_file.PcapNg.Block.{
  Block, name_resolution, as_block, name_resolution_block, try_from_raw_block,
}

as_block-IsCalm :
    {strict : Bool} {B : Type 0} (f : B → Block) (m : Result (List ℕ × B))
    → IsCalm strict m
    → IsCalm strict (as_block f m)
as_block-IsCalm f m h = >>=-IsCalm m _ h λ (_, b) _. ok-IsCalm (f b)

module _ ⦃bo : ByteOrder⦄ where
  -- The arm for name resolution, the only one that can panic.
  name_resolution_arm :
      {strict : Bool} (e : Endianness) (raw : RawBlock) (other : Result Block)
      → (raw.type_ ≡ name_resolution_block → strict ≡ false)
      → IsCalm strict other
      → IsCalm strict (
          if raw.type_ == name_resolution_block
          then as_block name_resolution (NameResolution.from_slice e raw.body)
          else other)
  name_resolution_arm {strict} e raw other loose h =
      elim (Bool-cases (raw.type_ == name_resolution_block)) [
        | inl is ↦
            rw (is, loose (ground (arith, is)))
              (as_block-IsCalm name_resolution _ (name_resolution-IsCalm e raw.body))
        | inr isnt ↦ rw isnt h
      ]

  pub try_from_raw_block-IsCalm :
      {strict : Bool} (e : Endianness) (raw : RawBlock)
      → (raw.type_ ≡ name_resolution_block → strict ≡ false)
      → IsCalm strict (try_from_raw_block e raw)
  unfolding try_from_raw_block
  try_from_raw_block-IsCalm e raw loose =
      if-IsCalm _ _ _ (as_block-IsCalm _ _ (section_header-IsCalm raw.body)) (
        if-IsCalm _ _ _ (as_block-IsCalm _ _ (interface_description-IsCalm e raw.body)) (
          if-IsCalm _ _ _ (as_block-IsCalm _ _ (packet-IsCalm e raw.body)) (
            if-IsCalm _ _ _ (as_block-IsCalm _ _ (simple_packet-IsCalm e raw.body)) (
              name_resolution_arm e raw _ loose (
                if-IsCalm _ _ _ (as_block-IsCalm _ _ (interface_statistics-IsCalm e raw.body)) (
                  if-IsCalm _ _ _ (as_block-IsCalm _ _ (enhanced_packet-IsCalm e raw.body)) (
                    if-IsCalm _ _ _ (as_block-IsCalm _ _ (systemd_journal_export-IsCalm raw.body))
                      (ok-IsCalm _))))))))

  -- A raw block of any type but name resolution, with any body: taking it apart does not panic.
  pub try_from_raw_block-ne-panic :
      (e : Endianness) (raw : RawBlock)
      → raw.type_ ≢ name_resolution_block
      → try_from_raw_block e raw ≢ panic
  try_from_raw_block-ne-panic e raw ne =
      (try_from_raw_block-IsCalm {strict = true} e raw λ q. absurd (ne q)).ne_panic refl
