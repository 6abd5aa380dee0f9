-- ===== src/Nlog3/Record/Rounds.antt =====
-- A record that is read lies within its sector, so a scan ends.
use qoraal_flash.Common.{
  ℕ, zero, suc, ◌+◌, ◌-◌, ◌≤◌, ◌<◌, ◌≡◌, ◌≢◌, ◌∙◌, inl, inr, true, false, arith, ltb, leb,
  Bool-cases,
}
use qoraal_flash.Common.Word.{u32_mod, add32}
use qoraal_flash.Common.Run.{ok, err, out_of_rounds, Result-cases}
use qoraal_flash.Flash.{Platform, qoraal_flash_read}
use qoraal_flash.Nlog3.Format.{
  RecordHeader, record_header_of_bytes, record_header_size, record_header_crc, record_magic,
  state_valid,
}
use qoraal_flash.Nlog3.Layout.{
  Log, log_valid, sector_end, sector_data_start, addr_has_room, record_size_from_header,
}
use qoraal_flash.Nlog3.Record.{
  scan_record, scan_empty, scan_terminal, SectorScan, u32_of_bytes, record_check,
  record_read_header, record_read_state, record_read, scan_loop, sector_scan,
}

-- The facts that nlog3_record_read has established of a header that it passes on.
pub record Checked {Store : Type 0} (p : Platform Store) (addr end : ℕ) (h : RecordHeader)
    : Type 0 where
  pub size_ne : record_size_from_header p.payload_crc h ≢ 0
  pub within : addr + record_size_from_header p.payload_crc h ≤ end
  pub state : h.state ≡ state_valid
  pub magic : h.magic ≡ record_magic
  pub crc : h.header_crc ≡ record_header_crc p.payload_crc h

-- The reads of the driver return, with bytes or with a code of the code.
abbrev pub Answers : {Store : Type 0} → Platform Store → Type 0
Answers {Store} p = (s : Store) (a n : ℕ) → qoraal_flash_read p s a n ≢ err out_of_rounds

module _ {Store : Type 0} (p : Platform Store) where
  record_check-Checked :
      (addr end : ℕ) (g h : RecordHeader)
      → record_check p addr end g ≡ scan_record h
      → Checked p addr end h
  unfolding record_check addr_has_room
  record_check-Checked addr end g h e = ground arith

  read_header-Checked :
      (s : Store) (addr end : ℕ) (h : RecordHeader)
      → record_read_header p s addr end ≡ ok (scan_record h)
      → Checked p addr end h
  unfolding record_read_header
  read_header-Checked s addr end h e =
      elim (Result-cases (qoraal_flash_read p s addr (record_header_size p.payload_crc))) [
        | inl (bytes, read) ↦ ground (
          arith,
          read,
          record_check-Checked addr end (record_header_of_bytes p.payload_crc bytes) h,
        )
        | inr (code, read) ↦ ground (arith, read)
      ]

  read_state-Checked :
      (s : Store) (addr end state : ℕ) (h : RecordHeader)
      → record_read_state p s addr end state ≡ ok (scan_record h)
      → Checked p addr end h
  unfolding record_read_state
  read_state-Checked s addr end state h e = ground (arith, read_header-Checked s addr end h)

  -- A record that nlog3_record_read reports is not empty, ends within its sector, and has the magic
  -- number, the committed state and the CRC of its header.
  pub record_read-Checked :
      (log : Log) (s : Store) (sector addr : ℕ) (h : RecordHeader)
      → record_read p log s sector addr ≡ ok (scan_record h)
      → Checked p addr (sector_end log sector) h
  unfolding record_read
  record_read-Checked log s sector addr h e = elim (Result-cases (qoraal_flash_read p s addr 4)) [
    | inl (bytes, read) ↦
        ground
          (arith, read, read_state-Checked s addr (sector_end log sector) (u32_of_bytes bytes) h)
    | inr (code, read) ↦ ground (arith, read)
  ]

  sector_end-lt : (log : Log) (sector : ℕ) → sector_end log sector < u32_mod
  unfolding sector_end
  sector_end-lt log sector = omega arith

  scan_loop-rounds :
      (r r' : ℕ) (log : Log) (s : Store) (sector addr : ℕ) (scan : SectorScan)
      → sector_end log sector - addr < r
      → sector_end log sector - addr < r'
      → scan_loop p r log s sector addr scan ≡ scan_loop p r' log s sector addr scan
  unfolding scan_loop
  scan_loop-rounds zero r' log s sector addr scan h k = absurd (omega arith)
  scan_loop-rounds (suc r) zero log s sector addr scan h k = absurd (omega arith)
  scan_loop-rounds (suc r) (suc r') log s sector addr scan h k =
      elim (Bool-cases (ltb addr (sector_end log sector))) [
        | inr over ↦ ground (arith, over)
        | inl more ↦ elim (Result-cases (record_read p log s sector addr)) [
          | inr (code, read) ↦ ground (arith, more, read)
          | inl (scan_empty, read) ↦ ground (arith, more, read)
          | inl (scan_terminal, read) ↦ ground (arith, more, read)
          | inl (scan_record g, read) ↦
              let c = record_read-Checked log s sector addr g read in
              let next = add32 addr (record_size_from_header p.payload_crc g) in
              let past : addr < next = omega (arith, c, sector_end-lt log sector) in
              let below : next ≤ sector_end log sector =
                omega (arith, c, sector_end-lt log sector) in
              ground (
                arith,
                more,
                read,
                scan_loop-rounds r r' log s sector next
                    (record scan { has_records = true; last_record_addr = addr }) (omega arith)
                    (omega arith),
              )
        ]
      ]

  read_header_ends :
      (s : Store) (addr end : ℕ) → Answers p → record_read_header p s addr end ≢ err out_of_rounds
  unfolding record_read_header record_check
  read_header_ends s addr end answers e =
      elim (Result-cases (qoraal_flash_read p s addr (record_header_size p.payload_crc))) [
        | inl (bytes, read) ↦ ground (arith, read)
        | inr (code, read) ↦
            answers s addr (record_header_size p.payload_crc) (read ∙ ground (arith, read))
      ]

  -- record_read has no loop.
  record_read_ends :
      (log : Log) (s : Store) (sector addr : ℕ)
      → Answers p
      → record_read p log s sector addr ≢ err out_of_rounds
  unfolding record_read record_read_state
  record_read_ends log s sector addr answers e =
      elim (Result-cases (qoraal_flash_read p s addr 4)) [
        | inl (bytes, read) ↦
            read_header_ends s addr (sector_end log sector) answers (ground (arith, read))
        | inr (code, read) ↦ answers s addr 4 (read ∙ ground (arith, read))
      ]

  -- With a round for every byte that is left and one more, the loop does not run out of rounds.
  scan_loop_ends :
      (r : ℕ) (log : Log) (s : Store) (sector addr : ℕ) (scan : SectorScan)
      → Answers p
      → sector_end log sector - addr < r
      → scan_loop p r log s sector addr scan ≢ err out_of_rounds
  unfolding scan_loop
  scan_loop_ends zero log s sector addr scan answers h e = absurd (omega arith)
  scan_loop_ends (suc r) log s sector addr scan answers h e =
      elim (Bool-cases (ltb addr (sector_end log sector))) [
        | inr over ↦ ground (arith, over)
        | inl more ↦ elim (Result-cases (record_read p log s sector addr)) [
          | inr (code, read) ↦
              record_read_ends log s sector addr answers (read ∙ ground (arith, more, read))
          | inl (scan_empty, read) ↦ ground (arith, more, read)
          | inl (scan_terminal, read) ↦ ground (arith, more, read)
          | inl (scan_record g, read) ↦
              let c = record_read-Checked log s sector addr g read in
              let next = add32 addr (record_size_from_header p.payload_crc g) in
              let past : addr < next = omega (arith, c, sector_end-lt log sector) in
              scan_loop_ends r log s sector next
                (record scan { has_records = true; last_record_addr = addr }) answers (omega arith)
                (ground (arith, more, read))
        ]
      ]

  -- nlog3_sector_scan ends for any memory and any driver that answers its reads: in a sector of the log
  -- its loop needs no more rounds than the sector has bytes behind its header, and one; it does not run
  -- out of that many, and with any larger number of rounds the result is the same.
  pub sector_scan-rounds :
      (log : Log) (s : Store) (sector rounds : ℕ)
      → Answers p
      → log_valid log ≡ true
      → sector < log.sectorcount
      → sector_end log sector - sector_data_start log sector < rounds
      → (sector_scan p log s sector
          ≡ scan_loop p rounds log s sector (sector_data_start log sector) (record {
            end_addr = sector_data_start log sector;
            terminal = scan_terminal;
            has_records = false;
            last_record_addr = sector_data_start log sector;
          }))
        × (sector_scan p log s sector ≢ err out_of_rounds)
  unfolding sector_scan
  sector_scan-rounds log s sector rounds answers valid inside h =
      let start = sector_data_start log sector in
      let test : leb log.sectorcount sector ≡ false = ground arith in
      rw (valid, test)
        (
          scan_loop-rounds (suc (sector_end log sector - start)) rounds log s sector start _
              (omega arith) h,
          scan_loop_ends (suc (sector_end log sector - start)) log s sector start _ answers
              (omega arith),
        )
