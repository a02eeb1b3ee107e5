-- ===== src/PcapNg/Blocks.antt =====
-- The blocks of src/pcapng/blocks/, one module each.
pub mod SectionHeader
pub mod InterfaceDescription
pub mod Packet
pub mod SimplePacket
pub mod NameResolution
pub mod InterfaceStatistics
pub mod EnhancedPacket
pub mod SystemdJournalExport
pub mod Unknown
pub mod Calm
mod Tests
