-- ===== src/Nlog3/Record/Read.antt =====
-- nlog3_record_read against the bytes in the memory of a working flash.
use qoraal_flash.Common.{
  mul_room, ℕ, ◌+◌, ◌*◌, ◌%◌, ◌≤◌, ◌<◌, ◌≡◌, ◌≢◌, ap, ◌∙◌, Bool, true, false, arith, leb,
}
use qoraal_flash.Common.Word.{u32_bytes}
use qoraal_flash.Common.Run.{ok}
use qoraal_flash.Flash.{Platform}
use qoraal_flash.Flash.Nor.{NorFlash, bytes_at}
use qoraal_flash.Nlog3.Format.{
  RecordHeader, record_header_bytes, record_header_crc, record_header_size, record_magic,
  state_valid, state_pending,
}
use qoraal_flash.Nlog3.Format.Bytes.{Storable, record_header_of_bytes-record_header_bytes}
use qoraal_flash.Nlog3.Layout.{Log, sector_end, addr_has_room, record_size_from_header}
use qoraal_flash.Nlog3.Layout.Placed.{Placed, sector_end_lem}
use qoraal_flash.Nlog3.Record.{
  scan_record, scan_terminal, u32_of_bytes, record_check, record_read_header, record_read_state,
  record_read,
}

pub header_size-gt : (crc : Bool) → 4 < record_header_size crc
header_size-gt true = omega arith
header_size-gt false = omega arith

-- A log that lies within a working flash, its sectors whole pages of it.
pub record Mounted {Store : Type 0} {p : Platform Store} (F : NorFlash p) (log : Log) : Type 0 where
  pub placed : Placed log
  pub inside : log.startaddr + log.sectorsize * log.sectorcount < F.size
  pub start_paged : log.startaddr % F.page ≡ 0
  pub sector_paged : log.sectorsize % F.page ≡ 0

pub has_room : (a end n : ℕ) → a + n ≤ end → addr_has_room a end n ≡ true
unfolding addr_has_room
has_room a end n h = ground arith

pub no_room : (a end n : ℕ) → end < a + n → addr_has_room a end n ≡ false
unfolding addr_has_room
no_room a end n h = ground arith

record_check-committed :
    {Store : Type 0} (p : Platform Store) (a end : ℕ) (header : RecordHeader)
    → a + record_size_from_header p.payload_crc header ≤ end
    → record_size_from_header p.payload_crc header ≢ 0
    → header.state ≡ state_valid
    → header.magic ≡ record_magic
    → header.header_crc ≡ record_header_crc p.payload_crc header
    → record_check p a end header ≡ scan_record header
unfolding record_check
record_check-committed p a end header whole pos valid magic crc =
    ground (arith, has_room a end (record_size_from_header p.payload_crc header) whole)

module _ {Store : Type 0} {p : Platform Store} (F : NorFlash p) {log : Log} (m : Mounted F log)
    (s : Store) (sector : ℕ) (h : sector < log.sectorcount) where
  pub sector_end-lt_size : sector_end log sector < F.size
  sector_end-lt_size = omega (
    arith,
    sector_end_lem m.placed sector h,
    m.inside,
    mul_room log.sectorsize sector log.sectorcount h,
  )

  -- The state word decides.
  pub record_read-state :
      (a : ℕ)
      → a + 4 ≤ sector_end log sector
      → record_read p log s sector a
        ≡ record_read_state p s a (sector_end log sector) (u32_of_bytes (bytes_at (F.cell s) a 4))
  unfolding record_read
  record_read-state a room =
      let sector_ok : leb log.sectorcount sector ≡ false = ground arith in
      rw (
        m.placed.valid,
        sector_ok,
        has_room a (sector_end log sector) 4 room,
        F.read_ok s a 4 (omega (arith, sector_end-lt_size)),
      )

  -- Nothing is read of a record that is written but not committed.
  pub record_read-pending :
      (a : ℕ)
      → a + 4 ≤ sector_end log sector
      → bytes_at (F.cell s) a 4 ≡ u32_bytes state_pending
      → record_read p log s sector a ≡ ok scan_terminal
  unfolding record_read_state
  record_read-pending a room e = record_read-state a room ∙ rw e

  module _ (a : ℕ) (header : RecordHeader) where
    pub record_read-committed :
        a + record_header_size p.payload_crc ≤ sector_end log sector
        → a + record_size_from_header p.payload_crc header ≤ sector_end log sector
        → record_size_from_header p.payload_crc header ≢ 0
        → header.state ≡ state_valid
        → header.magic ≡ record_magic
        → header.header_crc ≡ record_header_crc p.payload_crc header
        → Storable p.payload_crc header
        → bytes_at (F.cell s) a 4 ≡ u32_bytes state_valid
        → bytes_at (F.cell s) a (record_header_size p.payload_crc)
          ≡ record_header_bytes p.payload_crc header
        → record_read p log s sector a ≡ ok (scan_record header)
    unfolding record_read_state record_read_header
    record_read-committed room whole pos valid magic crc storable word bytes =
        record_read-state a (omega (arith, header_size-gt p.payload_crc))
        ∙ rw
            (
              word,
              has_room a (sector_end log sector) (record_header_size p.payload_crc) room,
              F.read_ok s a (record_header_size p.payload_crc) (omega (arith, sector_end-lt_size)),
              bytes,
              record_header_of_bytes-record_header_bytes p.payload_crc header storable,
            )
            (ap ok
              (record_check-committed p a (sector_end log sector) header whole pos valid magic crc))
