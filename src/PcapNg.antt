-- ===== src/PcapNg.antt =====
-- The pcapng format of src/pcapng/: options, blocks, their parser and writer.
pub mod Options
pub mod Blocks
pub mod RawBlock
pub mod Block
pub mod Parser
pub mod Reader
pub mod Writer
pub mod WholeFile
pub mod Drain
mod Tests
