-- ===== src/PcapNg/Block/Laws.antt =====
-- The block that each type of raw block becomes.
use pcap_file.Common.{ℕ, ◌≡◌, List, ok, err, panic, ◌==◌, if◌then◌else◌, Bool, true, false, Result}
use pcap_file.ByteOrder.{ByteOrder, Endianness}
use pcap_file.PcapNg.Blocks.SectionHeader.{SectionHeaderBlock}
use pcap_file.PcapNg.Blocks.InterfaceDescription.{InterfaceDescriptionBlock}
use pcap_file.PcapNg.Blocks.Packet
use pcap_file.PcapNg.Blocks.SimplePacket
use pcap_file.PcapNg.Blocks.NameResolution
use pcap_file.PcapNg.Blocks.InterfaceStatistics
use pcap_file.PcapNg.Blocks.EnhancedPacket
use pcap_file.PcapNg.Blocks.SystemdJournalExport
use pcap_file.PcapNg.Blocks.Unknown.{UnknownBlock}
use pcap_file.PcapNg.RawBlock.{RawBlock, section_header_block}
use pcap_file.PcapNg.Block.{
  Block, section_header, interface_description, unknown, as_block, packet_block, packet,
  simple_packet_block, simple_packet, name_resolution_block, name_resolution,
  interface_statistic_block, interface_statistics, enhanced_packet_block, enhanced_packet,
  systemd_journal_export_block, systemd_journal_export, try_from_raw_block,
  interface_description_block,
}

-- A block that brings neither a section nor an interface.
unfoldable pub IsPlain : Block → Type 0
IsPlain (section_header _) = ⊥
IsPlain (interface_description _) = ⊥
IsPlain _ = Unit

as_block-eq-ok :
    {B : Type 0} (f : B → Block) (m : Result (List ℕ × B)) {b : Block}
    → as_block f m ≡ ok b
    → (x : B) × (b ≡ f x)
as_block-eq-ok f (ok (_, x)) q = (x, cc q)
as_block-eq-ok f (err _) q = cc q
as_block-eq-ok f panic q = cc q

-- A branch of `try_from_raw_block` that gives a plain block.
branch :
    {B : Type 0} (c : Bool) (f : B → Block) (m : Result (List ℕ × B)) (y : Result Block) {b : Block}
    → ((x : B) → IsPlain (f x))
    → (y ≡ ok b → IsPlain b)
    → (if c then as_block f m else y) ≡ ok b
    → IsPlain b
branch true f m y h k q = let (x, e) = as_block-eq-ok f m q in rw e (h x)
branch false f m y h k q = k q

unknown-IsPlain :
    (x : UnknownBlock) {b : Block} → Path (Result Block) (ok (unknown x)) (ok b) → IsPlain b
unfolding IsPlain
unknown-IsPlain x {b} q = let e : b ≡ unknown x = cc q in rw e tt

module _ ⦃bo : ByteOrder⦄ where
  pub header_block :
      (e : Endianness) (raw : RawBlock) (b : Block)
      → (raw.type_ == section_header_block) ≡ true
      → try_from_raw_block e raw ≡ ok b
      → (x : SectionHeaderBlock) × (b ≡ section_header x)
  unfolding try_from_raw_block
  header_block e raw b s q = as_block-eq-ok _ _ (rw s at q)

  pub interface_block :
      (e : Endianness) (raw : RawBlock) (b : Block)
      → (raw.type_ == section_header_block) ≡ false
      → (raw.type_ == interface_description_block) ≡ true
      → try_from_raw_block e raw ≡ ok b
      → (x : InterfaceDescriptionBlock) × (b ≡ interface_description x)
  unfolding try_from_raw_block
  interface_block e raw b s i q = as_block-eq-ok _ _ (rw (s, i) at q)

  pub try_from_raw_block-IsPlain :
      (e : Endianness) (raw : RawBlock) (b : Block)
      → (raw.type_ == section_header_block) ≡ false
      → (raw.type_ == interface_description_block) ≡ false
      → try_from_raw_block e raw ≡ ok b
      → IsPlain b
  unfolding try_from_raw_block IsPlain
  try_from_raw_block-IsPlain e raw b s i q =
      branch (raw.type_ == packet_block) packet (Packet.from_slice e raw.body) _ (λ _. tt)
        (branch (raw.type_ == simple_packet_block) simple_packet
          (SimplePacket.from_slice e raw.body) _ (λ _. tt)
          (branch (raw.type_ == name_resolution_block) name_resolution
            (NameResolution.from_slice e raw.body) _ (λ _. tt)
            (branch (raw.type_ == interface_statistic_block) interface_statistics
              (InterfaceStatistics.from_slice e raw.body) _ (λ _. tt)
              (branch (raw.type_ == enhanced_packet_block) enhanced_packet
                (EnhancedPacket.from_slice e raw.body) _ (λ _. tt)
                (branch (raw.type_ == systemd_journal_export_block) systemd_journal_export
                  (SystemdJournalExport.from_slice raw.body) _ (λ _. tt) (unknown-IsPlain _))))))
        (rw (s, i) at q)
