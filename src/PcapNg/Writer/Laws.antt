-- ===== src/PcapNg/Writer/Laws.antt =====
-- What the pcapng writer registers and refuses.
use pcap_file.Common.{
  ℕ, ◌≤◌, ◌<◌, ◌≡◌, refl, ap, [], ◌∷◌, ◌++◌, length, ok, err, arith, invalid_interface_id, leb,
  le→leb, if◌then◌else◌, false, Option, some, none,
}
use mathlib.Core.Option.{some-injective}
use pcap_file.ByteOrder.{ByteOrder}
use pcap_file.PcapNg.Block
use pcap_file.PcapNg.Block.{
  Block, section_header, interface_description, interface_statistics, enhanced_packet,
}
use pcap_file.PcapNg.Writer.{PcapNgWriter, register, registered, write_block}

-- The interface that `write_block` looks up: that of an enhanced packet or of interface statistics.
-- It does not look up that of a packet block.
unfoldable pub checked_interface : Block → Option ℕ
checked_interface (interface_statistics a) = some a.interface_id
checked_interface (enhanced_packet a) = some a.interface_id
checked_interface _ = none

-- The section and the interfaces behind a block that is accepted.
unfoldable pub brought : PcapNgWriter → Block → PcapNgWriter
brought w (section_header a) = record w { section = a; interfaces = [] }
brought w (interface_description a) = record w { interfaces = w.interfaces ++ (a ∷ []) }
brought w _ = w

-- A block is known if the interface that is looked up for it, if any, was registered in this
-- section.
unfoldable pub IsKnown : PcapNgWriter → Block → Type 0
unfolding checked_interface
IsKnown w b = (i : ℕ) → checked_interface b ≡ some i → i < length w.interfaces

refused_or_known : (n i : ℕ) → i < n → leb n i ≡ false
refused_or_known n i h = ground arith

register_known : (w : PcapNgWriter) (b : Block) → IsKnown w b → register w b ≡ ok (brought w b)
unfolding register IsKnown checked_interface brought
register_known w (section_header a) k = refl
register_known w (interface_description a) k = refl
register_known w (interface_statistics a) k =
    rw (refused_or_known (length w.interfaces) a.interface_id (k a.interface_id refl)) refl
register_known w (enhanced_packet a) k =
    rw (refused_or_known (length w.interfaces) a.interface_id (k a.interface_id refl)) refl
register_known w _ k = refl

refused :
    (w : PcapNgWriter) (i j n : ℕ)
    → Path (Option ℕ) (some j) (some i)
    → n ≤ i
    → (if leb n j then err (invalid_interface_id j) else ok w) ≡ err (invalid_interface_id i)
refused w i j n q h =
    let e : j ≡ i = some-injective j i q in
    rw (le→leb n j (omega (arith, e, h))) (ap (λ k. err (invalid_interface_id k)) e)

brought_writer : (w : PcapNgWriter) (b : Block) → (brought w b).writer ≡ w.writer
unfolding brought
brought_writer w (section_header a) = refl
brought_writer w (interface_description a) = refl
brought_writer w _ = refl

register_unknown :
    (w : PcapNgWriter) (b : Block) (i : ℕ)
    → checked_interface b ≡ some i
    → length w.interfaces ≤ i
    → register w b ≡ err (invalid_interface_id i)
unfolding register checked_interface
register_unknown w (interface_statistics a) i q h = refused w i a.interface_id _ q h
register_unknown w (enhanced_packet a) i q h = refused w i a.interface_id _ q h
register_unknown w _ i q h = cc

module _ ⦃bo : ByteOrder⦄ where
  -- An enhanced packet block or interface statistics block whose interface was not registered in this
  -- section is refused with that interface's number: nothing is written, and the writer's state is as
  -- before.
  pub write_block_unknown :
      (w : PcapNgWriter) (b : Block) (i : ℕ)
      → checked_interface b ≡ some i
      → length w.interfaces ≤ i
      → write_block w b ≡ (err (invalid_interface_id i), w)
  unfolding write_block registered
  write_block_unknown w b i q h = rw (register_unknown w b i q h) refl

  -- A block that is known is appended to what was written, in the byte order of the section it belongs to
  -- (a section header's own), and a section header or an interface description is registered.
  pub write_block_known :
      (w : PcapNgWriter) (b : Block)
      → IsKnown w b
      → write_block w b ≡ (
        ok (Block.write_to (brought w b).section.endianness b).1,
        record (brought w b) {
          writer = w.writer ++ (Block.write_to (brought w b).section.endianness b).0;
        },
      )
  unfolding write_block registered brought
  write_block_known w b k = rw (register_known w b k, brought_writer w b) refl
