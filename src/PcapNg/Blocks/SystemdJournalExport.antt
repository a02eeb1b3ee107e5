-- ===== src/PcapNg/Blocks/SystemdJournalExport.antt =====
-- The systemd journal export block of src/pcapng/blocks/systemd_journal_export.rs.
use pcap_file.Common.{ℕ, ◌+◌, List, [], ◌++◌, length, Result, ok}
use pcap_file.PcapNg.Options.{pad_len, padding}

pub record SystemdJournalExportBlock : Type 0 where
  pub journal_entry : List ℕ

-- `SystemdJournalExportBlock::from_slice`
unfoldable pub from_slice : List ℕ → Result (List ℕ × SystemdJournalExportBlock)
from_slice slice = ok ([], record { journal_entry = slice })

-- `SystemdJournalExportBlock::write_to`
unfoldable pub write_to : SystemdJournalExportBlock → List ℕ × ℕ
write_to b = (
  b.journal_entry ++ padding (length b.journal_entry),
  length b.journal_entry + pad_len (length b.journal_entry),
)
