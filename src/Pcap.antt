-- ===== src/Pcap.antt =====
-- The pcap format of src/pcap/: the global header and the packets, their parser, reader and writer.
pub mod Header
pub mod RawPacket
pub mod Packet
pub mod Parser
pub mod Writer
pub mod Reader
pub mod WholeFile
pub mod Drain
mod Tests
