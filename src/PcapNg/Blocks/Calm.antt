-- ===== src/PcapNg/Blocks/Calm.antt =====
-- No block panics or makes an I/O error when it is read, but for a name resolution block.
use pcap_file.Common.{ℕ, ◌+◌, ◌≤◌, List, length, Bool, leb, ◌==◌, drop, arith}
use pcap_file.ByteOrder.{ByteOrder, Endianness, big, little}
use pcap_file.ByteOrder.Calm.{
  IsCalm, ok-IsCalm, invalid-IsCalm, if-IsCalm, >>=-IsCalm, guard-IsCalm, too_short-IsCalm,
  read-IsCalm, slice_to-IsCalm, slice_from-IsCalm,
}
use pcap_file.PcapNg.Options.{pad_len, opts_from_slice}
use pcap_file.PcapNg.Options.Calm.{calm_option, opts_from_slice-IsCalm}
use pcap_file.PcapNg.Blocks.SectionHeader
use pcap_file.PcapNg.Blocks.InterfaceDescription
use pcap_file.PcapNg.Blocks.Packet
use pcap_file.PcapNg.Blocks.SimplePacket
use pcap_file.PcapNg.Blocks.NameResolution
use pcap_file.PcapNg.Blocks.InterfaceStatistics
use pcap_file.PcapNg.Blocks.EnhancedPacket
use pcap_file.PcapNg.Blocks.SystemdJournalExport

module _ {strict : Bool} ⦃bo : ByteOrder⦄ where
  section_header_option-IsCalm :
      (e : Endianness) (code len : ℕ) (slice : List ℕ)
      → IsCalm strict (SectionHeader.parse_option e code len slice)
  unfolding SectionHeader.parse_option
  section_header_option-IsCalm e code len slice = search calm_option depth 24

  interface_description_option-IsCalm :
      (e : Endianness) (code len : ℕ) (slice : List ℕ)
      → IsCalm strict (InterfaceDescription.parse_option e code len slice)
  unfolding InterfaceDescription.parse_option
  interface_description_option-IsCalm e code len slice = search calm_option depth 24

  packet_option-IsCalm :
      (e : Endianness) (code len : ℕ) (slice : List ℕ)
      → IsCalm strict (Packet.parse_option e code len slice)
  unfolding Packet.parse_option
  packet_option-IsCalm e code len slice = search calm_option depth 24

  pub name_resolution_option-IsCalm :
      (e : Endianness) (code len : ℕ) (slice : List ℕ)
      → IsCalm strict (NameResolution.parse_option e code len slice)
  unfolding NameResolution.parse_option
  name_resolution_option-IsCalm e code len slice = search calm_option depth 24

  interface_statistics_option-IsCalm :
      (e : Endianness) (code len : ℕ) (slice : List ℕ)
      → IsCalm strict (InterfaceStatistics.parse_option e code len slice)
  unfolding InterfaceStatistics.parse_option
  interface_statistics_option-IsCalm e code len slice = search calm_option depth 24

  enhanced_packet_option-IsCalm :
      (e : Endianness) (code len : ℕ) (slice : List ℕ)
      → IsCalm strict (EnhancedPacket.parse_option e code len slice)
  unfolding EnhancedPacket.parse_option
  enhanced_packet_option-IsCalm e code len slice = search calm_option depth 24

  section_inner-IsCalm :
      (e : Endianness) (slice : List ℕ)
      → 12 ≤ length slice
      → IsCalm strict (SectionHeader.parse_inner e slice)
  unfolding SectionHeader.parse_inner
  section_inner-IsCalm e slice le = read-IsCalm 2 e slice _ (omega (arith, le)) λ _ s₁ l₁.
      read-IsCalm 2 e s₁ _ (omega (arith, le, l₁)) λ _ s₂ l₂.
        read-IsCalm 8 e s₂ _ (omega (arith, le, l₁, l₂)) λ _ s₃ _.
          >>=-IsCalm (opts_from_slice SectionHeader.section_header_option e s₃) _
            (opts_from_slice-IsCalm _ e (section_header_option-IsCalm e) s₃) λ _ _. ok-IsCalm _

  pub section_header-IsCalm : (slice : List ℕ) → IsCalm strict (SectionHeader.from_slice slice)
  unfolding SectionHeader.from_slice
  section_header-IsCalm slice = too_short-IsCalm (length slice) 16 _ _ (invalid-IsCalm _) λ le.
      read-IsCalm 4 big slice _ (omega (arith, le)) λ magic src l.
        if-IsCalm (magic == 0x1A2B3C4D) _ _ (section_inner-IsCalm big src (omega (arith, le, l))) (
          if-IsCalm (magic == 0x4D3C2B1A) _ _
            (section_inner-IsCalm little src (omega (arith, le, l))) (invalid-IsCalm _))

  pub interface_description-IsCalm :
      (e : Endianness) (slice : List ℕ) → IsCalm strict (InterfaceDescription.from_slice e slice)
  unfolding InterfaceDescription.from_slice
  interface_description-IsCalm e slice =
      too_short-IsCalm (length slice) 8 _ _ (invalid-IsCalm _) λ le.
        read-IsCalm 2 e slice _ (omega (arith, le)) λ _ s₁ l₁.
          read-IsCalm 2 e s₁ _ (omega (arith, le, l₁)) λ reserved s₂ l₂.
            guard-IsCalm (reserved == 0) _ _ λ _.
              read-IsCalm 4 e s₂ _ (omega (arith, le, l₁, l₂)) λ _ s₃ _.
                >>=-IsCalm (opts_from_slice InterfaceDescription.interface_description_option e s₃)
                  _ (opts_from_slice-IsCalm _ e (interface_description_option-IsCalm e) s₃)
                  λ _ _. ok-IsCalm _

  pub packet-IsCalm : (e : Endianness) (slice : List ℕ) → IsCalm strict (Packet.from_slice e slice)
  unfolding Packet.from_slice
  packet-IsCalm e slice = too_short-IsCalm (length slice) 20 _ _ (invalid-IsCalm _) λ le.
      read-IsCalm 2 e slice _ (omega (arith, le)) λ _ s₁ l₁.
        read-IsCalm 2 e s₁ _ (omega (arith, le, l₁)) λ _ s₂ l₂.
          read-IsCalm 8 e s₂ _ (omega (arith, le, l₁, l₂)) λ _ s₃ l₃.
            read-IsCalm 4 e s₃ _ (omega (arith, le, l₁, l₂, l₃)) λ n s₄ l₄.
              read-IsCalm 4 e s₄ _ (omega (arith, le, l₁, l₂, l₃, l₄)) λ _ s₅ _.
                guard-IsCalm (leb (n + pad_len n) (length s₅)) _ _ λ fits.
                  let le₅ : n + pad_len n ≤ length s₅ = ground arith in
                  slice_to-IsCalm n s₅ _ (omega (arith, le₅)) (
                    slice_from-IsCalm (n + pad_len n) s₅ _ le₅ (
                      >>=-IsCalm (opts_from_slice Packet.packet_option e (drop (n + pad_len n) s₅))
                        _ (opts_from_slice-IsCalm _ e (packet_option-IsCalm e) _)
                        λ _ _. ok-IsCalm _))

  pub simple_packet-IsCalm :
      (e : Endianness) (slice : List ℕ) → IsCalm strict (SimplePacket.from_slice e slice)
  unfolding SimplePacket.from_slice
  simple_packet-IsCalm e slice =
      too_short-IsCalm (length slice) 4 _ _ (invalid-IsCalm _)
        λ le. read-IsCalm 4 e slice _ le λ _ _ _. ok-IsCalm _

  pub interface_statistics-IsCalm :
      (e : Endianness) (slice : List ℕ) → IsCalm strict (InterfaceStatistics.from_slice e slice)
  unfolding InterfaceStatistics.from_slice
  interface_statistics-IsCalm e slice =
      too_short-IsCalm (length slice) 12 _ _ (invalid-IsCalm _) λ le.
        read-IsCalm 4 e slice _ (omega (arith, le)) λ _ s₁ l₁.
          read-IsCalm 8 e s₁ _ (omega (arith, le, l₁)) λ _ s₂ _.
            >>=-IsCalm (opts_from_slice InterfaceStatistics.interface_statistics_option e s₂) _
              (opts_from_slice-IsCalm _ e (interface_statistics_option-IsCalm e) s₂)
              λ _ _. ok-IsCalm _

  pub enhanced_packet-IsCalm :
      (e : Endianness) (slice : List ℕ) → IsCalm strict (EnhancedPacket.from_slice e slice)
  unfolding EnhancedPacket.from_slice
  enhanced_packet-IsCalm e slice = too_short-IsCalm (length slice) 20 _ _ (invalid-IsCalm _) λ le.
      read-IsCalm 4 e slice _ (omega (arith, le)) λ _ s₁ l₁.
        read-IsCalm 4 e s₁ _ (omega (arith, le, l₁)) λ _ s₂ l₂.
          read-IsCalm 4 e s₂ _ (omega (arith, le, l₁, l₂)) λ _ s₃ l₃.
            read-IsCalm 4 e s₃ _ (omega (arith, le, l₁, l₂, l₃)) λ n s₄ l₄.
              read-IsCalm 4 e s₄ _ (omega (arith, le, l₁, l₂, l₃, l₄)) λ _ s₅ _.
                guard-IsCalm (leb (n + pad_len n) (length s₅)) _ _ λ fits.
                  let le₅ : n + pad_len n ≤ length s₅ = ground arith in
                  slice_to-IsCalm n s₅ _ (omega (arith, le₅)) (
                    slice_from-IsCalm (n + pad_len n) s₅ _ le₅ (
                      >>=-IsCalm
                        (opts_from_slice EnhancedPacket.enhanced_packet_option e
                          (drop (n + pad_len n) s₅))
                        _ (opts_from_slice-IsCalm _ e (enhanced_packet_option-IsCalm e) _)
                        λ _ _. ok-IsCalm _))

  pub systemd_journal_export-IsCalm :
      (slice : List ℕ) → IsCalm strict (SystemdJournalExport.from_slice slice)
  unfolding SystemdJournalExport.from_slice
  systemd_journal_export-IsCalm slice = ok-IsCalm _
