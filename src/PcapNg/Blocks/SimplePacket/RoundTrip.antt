-- ===== src/PcapNg/Blocks/SimplePacket/RoundTrip.antt =====
-- Simple packet blocks that were written are read back.
use pcap_file.Common.{◌%◌, ◌<◌, ◌≤◌, ◌≡◌, [], append-nil, length, length-append, ok, arith, le→ltb}
use pcap_file.ByteOrder.{ByteOrder, Endianness}
use pcap_file.ByteOrder.Laws.{read-write}
use pcap_file.PcapNg.Options.RoundTrip.{length-padding, no_padding}
use pcap_file.PcapNg.Blocks.SimplePacket.{SimplePacketBlock, from_slice, write_to}

-- A block with fields of their widths. The payload is whole words: the padding of another would be
-- read as part of it.
pub record IsValid (b : SimplePacketBlock) : Type 0 where
  pub original_u32 : b.original_len < 4294967296
  pub payload_words : length b.payload % 4 ≡ 0

module _ ⦃bo : ByteOrder⦄ where
  pub length-write_to_simple :
      (e : Endianness) (b : SimplePacketBlock)
      → (length (write_to e b).0 ≡ (write_to e b).1) × ((write_to e b).1 % 4 ≡ 0)
  unfolding write_to
  length-write_to_simple e b =
      (simp (length-append, bo.length-write, length-padding) (omega arith), omega arith)

  -- A simple packet block with an original length of 32 bits and a payload of whole words is read
  -- back from what was written for it, with nothing left over.
  pub from_slice-write_to_simple :
      (e : Endianness) (b : SimplePacketBlock)
      → IsValid b
      → from_slice e (write_to e b).0 ≡ ok ([], b)
  unfolding from_slice write_to
  from_slice-write_to_simple e b v = rw (
    le→ltb _ 4 long,
    read-write 4 e b.original_len _ (omega (arith, v.original_u32)),
    no_padding (length b.payload) v.payload_words,
    append-nil b.payload,
  )
    where
      long : 4 ≤ length (write_to e b).0
      long = simp (length-append, bo.length-write) (omega arith)
