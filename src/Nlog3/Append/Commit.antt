-- ===== src/Nlog3/Append/Commit.antt =====
-- What nlog3_append leaves in the memory of a working flash.
use mathlib.Core.Path.{fun_ext}
use qoraal_flash.Common.{
  ℕ, zero, suc, ◌+◌, ◌%◌, ◌≤◌, ◌<◌, ◌≡◌, refl, sym, List, arith, ◌==◌, Bool, true, false, length,
  drop, take, length-drop, length-take,
}
use qoraal_flash.Common.Word.{u32_bytes, u32_mod}
use qoraal_flash.Common.Run.{done}
use qoraal_flash.Flash.{Platform}
use qoraal_flash.Flash.Nor.{NorFlash, programmed}
use qoraal_flash.Flash.Nor.Ranges.{programmed-nil}
use qoraal_flash.Nlog3.Format.{
  RecordHeader, record_header_bytes, record_header_size, state_pending, state_valid,
}
use qoraal_flash.Nlog3.Format.Bytes.{length-record_header_bytes}
use qoraal_flash.Nlog3.Layout.{World}
use qoraal_flash.Nlog3.Sector.Calls.{flash_write-done, write_u32-done, write_pending_header-done}
use qoraal_flash.Nlog3.Append.{write_payload, write_record}
use qoraal_flash.Nlog3.Append.Memory.{committed}

header_size-gt : (crc : Bool) → 4 < record_header_size crc
header_size-gt true = omega arith
header_size-gt false = omega arith

module _ {Store : Type 0} {p : Platform Store} (F : NorFlash p) where
  pub cell-program_eq :
      (s : Store) (a : ℕ) (bs : List ℕ) → F.cell (F.program s a bs) ≡ programmed (F.cell s) a bs
  cell-program_eq s a bs = fun_ext (F.cell_program s a bs)

  -- The payload's write, none for an empty payload.
  pub write_payload-done :
      (a size : ℕ) (payload : List ℕ) (w : World Store)
      → size ≤ length payload
      → a + record_header_size p.payload_crc + size < F.size
      → a + record_header_size p.payload_crc < u32_mod
      → (s : Store) × (write_payload p a size payload w ≡ done tt (record w { store = s }))
        × (F.cell s
            ≡ programmed
                (F.cell w.store)
                (a + record_header_size p.payload_crc)
                (take size payload))
  unfolding write_payload
  write_payload-done a zero payload w len fits small =
      (w.store, refl, sym (programmed-nil (F.cell w.store) (a + record_header_size p.payload_crc)))
  write_payload-done a (suc n) payload w len fits small =
      let at : (a + record_header_size p.payload_crc) % u32_mod
          ≡ a + record_header_size p.payload_crc =
        omega arith in
      let test : (suc n == 0) ≡ false = ground arith in
      (
        F.program w.store (a + record_header_size p.payload_crc) (take (suc n) payload),
        rw (test, at)
            (flash_write-done F (a + record_header_size p.payload_crc) (take (suc n) payload) w
              (omega (arith, length-take (suc n) payload))),
        cell-program_eq w.store (a + record_header_size p.payload_crc) (take (suc n) payload),
      )

  -- All writes of a record succeed, and leave the memory that Append/Memory describes.
  pub write_record-done :
      (a : ℕ) (h : RecordHeader) (size : ℕ) (payload : List ℕ) (w : World Store)
      → length h.desc ≡ 8
      → size ≤ length payload
      → a + record_header_size p.payload_crc + size < F.size
      → a + record_header_size p.payload_crc < u32_mod
      → (s : Store) × (write_record p a h size payload w ≡ done tt (record w { store = s }))
        × (F.cell s
            ≡ committed
                (F.cell w.store)
                a
                (drop 4 (record_header_bytes p.payload_crc h))
                (take size payload))
  unfolding write_record
  write_record-done a h size payload w eight len fits small =
      let hs = record_header_size p.payload_crc in
      let header = record_header_bytes p.payload_crc h in
      let whole : length header ≡ hs = length-record_header_bytes p.payload_crc h eight in
      let w1 : World Store = record w {
        store = F.program (F.program w.store a (u32_bytes state_pending)) (a + 4) (drop 4 header);
      } in
      let (s, wrote, cells) = write_payload-done a size payload w1 len fits small in
      let behind : a + 4 + length (drop 4 header) ≡ a + hs =
        omega (arith, length-drop 4 header, header_size-gt p.payload_crc) in
      (
        F.program s a (u32_bytes state_valid),
        rw
            (
              write_pending_header-done F a header state_pending w
                  (omega (arith, header_size-gt p.payload_crc)) (omega arith)
                  (omega (arith, header_size-gt p.payload_crc)),
              wrote,
            )
            (write_u32-done F a state_valid (record w { store = s })
              (omega (arith, header_size-gt p.payload_crc))),
        cc (
          cell-program_eq s a (u32_bytes state_valid),
          cells,
          cell-program_eq (F.program w.store a (u32_bytes state_pending)) (a + 4) (drop 4 header),
          cell-program_eq w.store a (u32_bytes state_pending),
          behind,
        ),
      )
