-- ===== src/Nlog3/Record.antt =====
-- Reading records: nlog3_record_read and nlog3_sector_scan. A scan gets more rounds than records can
-- follow one another in a sector; Record/Rounds has the proof.
pub mod Read
pub mod Rounds
use qoraal_flash.Common.{
  ℕ, zero, suc, ◌+◌, ◌-◌, Bool, true, false, not, ◌&&◌, ◌||◌, List, ltb, leb, ◌==◌, if◌then◌else◌,
  get_or,
}
use qoraal_flash.Common.Word.{add32, sub32, u32_of}
use qoraal_flash.Common.Run.{Status, e_parm, out_of_rounds, Result, ok, err, bind}
use qoraal_flash.Flash.{Platform, qoraal_flash_read}
use qoraal_flash.Nlog3.Format.{
  RecordHeader, record_header_of_bytes, record_header_crc, record_header_size, record_magic,
  state_empty, state_valid,
}
use qoraal_flash.Nlog3.Layout.{
  Log, log_valid, sector_end, sector_data_start, addr_has_room, record_size_from_header,
}

-- NLOG3_SCAN_RECORD with the header that was read, NLOG3_SCAN_EMPTY and NLOG3_SCAN_TERMINAL.
pub data Scanned : Type 0 where
  scan_record : RecordHeader → Scanned
  scan_empty : Scanned
  scan_terminal : Scanned

-- NLOG3_SECTOR_SCAN_T
pub record SectorScan : Type 0 where
  pub end_addr : ℕ
  pub terminal : Scanned
  pub has_records : Bool
  pub last_record_addr : ℕ

-- The state word in a buffer of four bytes.
abbrev pub u32_of_bytes : List ℕ → ℕ
u32_of_bytes bs = u32_of (get_or bs 0 255) (get_or bs 1 255) (get_or bs 2 255) (get_or bs 3 255)

module _ {Store : Type 0} (p : Platform Store) where
  -- The test on a header that was read at `addr` in a sector that ends at `end`.
  unfoldable pub record_check : ℕ → ℕ → RecordHeader → Scanned
  record_check addr end h =
      let size = record_size_from_header p.payload_crc h in
      if not (h.state == state_valid)
        || not (h.magic == record_magic)
        || (size == 0)
        || not (addr_has_room addr end size)
        || not (h.header_crc == record_header_crc p.payload_crc h)
      then scan_terminal
      else scan_record h

  -- The part behind the state word.
  unfoldable pub record_read_header : Store → ℕ → ℕ → Result Scanned
  record_read_header s addr end =
      if not (addr_has_room addr end (record_header_size p.payload_crc))
      then ok scan_terminal
      else bind (qoraal_flash_read p s addr (record_header_size p.payload_crc))
          (λ bytes. ok (record_check addr end (record_header_of_bytes p.payload_crc bytes)))

  -- The three cases of the state word.
  unfoldable pub record_read_state : Store → ℕ → ℕ → ℕ → Result Scanned
  record_read_state s addr end state =
      if state == state_empty
      then ok scan_empty
      else if not (state == state_valid)
      then ok scan_terminal
      else record_read_header s addr end

  unfoldable pub record_read : Log → Store → ℕ → ℕ → Result Scanned
  record_read log s sector addr =
      if not (log_valid log) || leb log.sectorcount sector
      then err e_parm
      else if not (addr_has_room addr (sector_end log sector) 4)
      then ok scan_terminal
      else bind (qoraal_flash_read p s addr 4)
          (λ bytes. record_read_state s addr (sector_end log sector) (u32_of_bytes bytes))

  -- The loop of nlog3_sector_scan from `addr` on.
  unfoldable pub scan_loop : ℕ → Log → Store → ℕ → ℕ → SectorScan → Result SectorScan
  scan_loop zero log s sector addr scan = err out_of_rounds
  scan_loop (suc rounds) log s sector addr scan = elim (ltb addr (sector_end log sector)) [
    | false ↦ ok (record scan { terminal = scan_terminal; end_addr = sector_end log sector })
    | true ↦ elim (record_read log s sector addr) [
      | err e ↦ err e
      | ok scan_empty ↦ ok (record scan { terminal = scan_empty; end_addr = addr })
      | ok scan_terminal ↦ ok (record scan { terminal = scan_terminal; end_addr = addr })
      | ok (scan_record h) ↦
          scan_loop rounds log s sector (add32 addr (record_size_from_header p.payload_crc h))
            (record scan { has_records = true; last_record_addr = addr })
    ]
  ]

  unfoldable pub sector_scan : Log → Store → ℕ → Result SectorScan
  sector_scan log s sector =
      if not (log_valid log) || leb log.sectorcount sector
      then err e_parm
      else let start = sector_data_start log sector in
        scan_loop (suc (sector_end log sector - start)) log s sector start (record {
          end_addr = start;
          terminal = scan_terminal;
          has_records = false;
          last_record_addr = start;
        })
