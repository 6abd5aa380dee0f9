-- ===== src/Nlog3/Iterator.antt =====
-- Walking the records: nlog3_iterator_init, nlog3_iterator_init_oldest, nlog3_iterator_prev,
-- nlog3_iterator_next, nlog3_iterator_desc and nlog3_iterator_read.
pub mod Newest
pub mod Payload
pub mod ReadBack
use qoraal_flash.Common.{
  ℕ, zero, suc, ◌+◌, ◌-◌, ◌/◌, ◌%◌, ◌^◌, Bool, true, false, not, ◌&&◌, ◌||◌, List, [], ◌++◌, ltb,
  leb, ◌==◌, if◌then◌else◌, take, min, bit_and, length,
}
use qoraal_flash.Common.Word.{add32, sub32, ℤ, pos, negsuc, int32_of}
use qoraal_flash.Common.Run.{
  Status, e_parm, e_notfound, e_corrupt, e_bof, e_eof, e_empty, out_of_rounds, Result, ok, err,
  bind, Run, done, stop, Cmd,
}
use qoraal_flash.Flash.{Platform, qoraal_flash_read}
use qoraal_flash.Nlog3.Crc.{crc32_begin, crc32_update, crc32_finish}
use qoraal_flash.Nlog3.Format.{
  SectorHeader, RecordHeader, Desc, record_header_size, record_offset_none, state_valid,
  state_staged,
}
use qoraal_flash.Nlog3.Layout.{
  Log, log_valid, sector_end, sector_data_start, record_size_from_header,
}
use qoraal_flash.Nlog3.Sector.{sector_header_read}
use qoraal_flash.Nlog3.Record.{Scanned, scan_record, scan_empty, scan_terminal, record_read}
use qoraal_flash.Nlog3.Find.{find_oldest_sector, find_sector_after}

-- NLOG3_ITERATOR_T. `attached` says that `plog` is set; it then points to the log that the functions
-- below take beside the iterator.
pub record Iterator : Type 0 where
  pub attached : Bool
  pub sector : ℕ
  pub addr : ℕ
  pub sector_sequence : ℕ
  pub header : RecordHeader

-- `memset(it, 0, sizeof(*it))`
abbrev pub blank_iterator : Iterator
blank_iterator = record {
  attached = false;
  sector = 0;
  addr = 0;
  sector_sequence = 0;
  header = record {
    state = 0;
    magic = 0;
    header_crc = 0;
    payload_crc = 0;
    padding = 0;
    payload_size = 0;
    previous_offset = 0;
    previous_sequence = 0;
    desc = [];
  };
}

-- nlog3_iterator_set
abbrev pub iterator_at : ℕ → ℕ → ℕ → RecordHeader → Iterator
iterator_at sector sequence addr header = record {
  attached = true;
  sector = sector;
  addr = addr;
  sector_sequence = sequence;
  header = header;
}

-- E_NOTFOUND of a header read is the end of the log.
abbrev pub or_bof : {A : Type 0} → Result A → Result A
or_bof (ok a) = ok a
or_bof (err e_notfound) = err e_bof
or_bof (err e) = err e

-- The states of a sector that an iterator enters.
unfoldable pub enters : Bool → SectorHeader → ℕ → Bool
enters allow_staged h sequence =
    ((h.state == state_valid) || (allow_staged && (h.state == state_staged)))
    && (h.sequence == sequence)

-- `!it->plog || it->header.state != VALID`
unfoldable pub unusable : Iterator → Bool
unusable it = not it.attached || not (it.header.state == state_valid)

unfoldable pub iterator_desc : Iterator → Result Desc
iterator_desc it = if not (it.header.state == state_valid) then err e_parm else ok it.header.desc

-- The check of the payload's CRC after the loop.
abbrev pub crc_matches : ℕ → ℕ × List ℕ → Result (ℤ × List ℕ)
crc_matches payload_crc (crc, copied) =
    if crc == payload_crc then ok (int32_of (length copied), copied) else err e_corrupt

module _ {Store : Type 0} (p : Platform Store) where
  unfoldable pub iterator_of_scan : ℕ → ℕ → ℕ → Status → Scanned → Result Iterator
  iterator_of_scan sector sequence addr missing (scan_record h) =
      ok (iterator_at sector sequence addr h)
  iterator_of_scan sector sequence addr missing scan_empty = err missing
  iterator_of_scan sector sequence addr missing scan_terminal = err missing

  -- The record at `addr`, or the status `missing`.
  unfoldable pub iterator_at_record : Log → Store → ℕ → ℕ → ℕ → Status → Result Iterator
  iterator_at_record log s sector sequence addr missing =
      bind (record_read p log s sector addr) (iterator_of_scan sector sequence addr missing)

  unfoldable pub iterator_set_offset : Log → Store → ℕ → ℕ → Bool → Result Iterator
  iterator_set_offset log s offset sequence allow_staged =
      let sector = offset / log.sectorsize in
      let addr = add32 log.startaddr offset in
      if offset == record_offset_none
      then err e_bof
      else if not (bit_and offset 7 == 0)
          || (log.sectorsize == 0)
          || leb log.sectorcount sector
          || ltb addr log.startaddr
      then err e_corrupt
      else bind (or_bof (sector_header_read p log s sector)) (λ h.
        if enters allow_staged h sequence
        then iterator_at_record log s sector sequence addr e_corrupt
        else err e_bof)

  -- The loop of nlog3_sector_find_first returns in its first round.
  unfoldable pub sector_find_first : Log → Store → ℕ → ℕ → ℕ → Result Iterator
  sector_find_first log s sector sequence start_addr =
      let start = sector_data_start log sector in
      let addr = if ltb start start_addr then start_addr else start in
      if ltb addr (sector_end log sector)
      then iterator_at_record log s sector sequence addr e_notfound
      else err e_notfound

  -- nlog3_iterator_init: the iterator is cleared first, and stays so on an error.
  unfoldable pub iterator_init : Log → Store → Cmd Iterator (Unit {0})
  iterator_init log s it =
      if not (log_valid log)
      then stop e_parm it
      else if log.last_record_offset == record_offset_none
      then stop e_empty blank_iterator
      else elim (iterator_set_offset log s log.last_record_offset log.last_record_sequence false) [
        | ok it' ↦ done tt it'
        | err e_bof ↦ stop e_empty blank_iterator
        | err e ↦ stop e blank_iterator
      ]

  -- `for (count = 0; count < sectorcount; count++)` of nlog3_iterator_init_oldest.
  unfoldable pub oldest_loop : ℕ → Log → Store → ℕ → ℕ → Result Iterator
  oldest_loop zero log s sector sequence = err e_empty
  oldest_loop (suc n) log s sector sequence = elim (sector_find_first log s sector sequence 0) [
    | ok it ↦ ok it
    | err e_notfound ↦ elim (find_sector_after p sequence log s) [
      | ok (sector', sequence') ↦ oldest_loop n log s sector' sequence'
      | err e ↦ err e_empty
    ]
    | err e ↦ err e
  ]

  unfoldable pub iterator_init_oldest : Log → Store → Cmd Iterator (Unit {0})
  iterator_init_oldest log s it =
      if not (log_valid log) then stop e_parm it else elim (find_oldest_sector p log s) [
        | ok (sector, sequence) ↦ elim (oldest_loop log.sectorcount log s sector sequence) [
          | ok it' ↦ done tt it'
          | err e ↦ stop e blank_iterator
        ]
        | err e_notfound ↦ stop e_empty blank_iterator
        | err e ↦ stop e blank_iterator
      ]

  unfoldable pub iterator_prev : Log → Store → Cmd Iterator (Unit {0})
  iterator_prev log s it =
      if unusable it then stop e_parm it else elim (or_bof (sector_header_read p log s it.sector)) [
        | err e ↦ stop e it
        | ok h ↦
            elim (iterator_set_offset log s it.header.previous_offset it.header.previous_sequence
              (h.state == state_staged)) [ ok it' ↦ done tt it' | err e ↦ stop e it ]
      ]

  -- The loop of nlog3_iterator_next over the sectors that follow.
  unfoldable pub next_loop : ℕ → Log → Store → ℕ → Result Iterator
  next_loop zero log s sequence = err e_eof
  next_loop (suc n) log s sequence = elim (find_sector_after p sequence log s) [
    | err e ↦ err e_eof
    | ok (sector', sequence') ↦ elim (sector_find_first log s sector' sequence' 0) [
      | ok it ↦ ok it
      | err e_notfound ↦ next_loop n log s sequence'
      | err e ↦ err e
    ]
  ]

  unfoldable pub next_record : Log → Store → Iterator → Result Iterator
  next_record log s it =
      let start_addr = add32 it.addr (record_size_from_header p.payload_crc it.header) in
      elim (sector_find_first log s it.sector it.sector_sequence start_addr) [
        | ok it' ↦ ok it'
        | err e_notfound ↦ next_loop log.sectorcount log s it.sector_sequence
        | err e ↦ err e
      ]

  unfoldable pub iterator_next : Log → Store → Cmd Iterator (Unit {0})
  iterator_next log s it =
      if unusable it
      then stop e_parm it
      else elim (next_record log s it) [ ok it' ↦ done tt it' | err e ↦ stop e it ]

  -- The loop over chunks of 32 bytes: `copied` holds what was copied to the caller's buffer.
  unfoldable pub read_loop : ℕ → Store → ℕ → ℕ → ℕ → ℕ → ℕ → List ℕ → Result (ℕ × List ℕ)
  read_loop zero s payload_addr payload_size copy_len offset crc copied = err out_of_rounds
  read_loop (suc rounds) s payload_addr payload_size copy_len offset crc copied =
      elim (ltb offset payload_size) [
        | false ↦ ok (crc32_finish crc, copied)
        | true ↦
            elim (qoraal_flash_read p s (add32 payload_addr offset)
              (min 32 (payload_size - offset))) [
                | err e ↦ err e
                | ok buf ↦
                    read_loop rounds s payload_addr payload_size copy_len
                      (offset + min 32 (payload_size - offset)) (crc32_update crc buf)
                      (if ltb (length copied) copy_len
                        then copied
                          ++ take (min (min 32 (payload_size - offset)) (copy_len - length copied))
                              buf
                        else copied)
              ]
      ]

  unfoldable pub iterator_read_payload : Store → Iterator → ℕ → Result (ℤ × List ℕ)
  iterator_read_payload s it copy_len =
      let payload_addr = add32 it.addr (record_header_size p.payload_crc) in
      let size = it.header.payload_size in
      if p.payload_crc
      then bind (read_loop (suc size) s payload_addr size copy_len 0 crc32_begin [])
          (crc_matches it.header.payload_crc)
      else bind (qoraal_flash_read p s payload_addr copy_len)
          (λ bytes. ok (int32_of copy_len, bytes))

  -- The returned length and the bytes in the caller's buffer. `has_buffer` says that `payload` is not
  -- null.
  unfoldable pub iterator_read : Store → Iterator → Bool → ℤ → Result (ℤ × List ℕ)
  iterator_read s it has_buffer (negsuc n) = err e_parm
  iterator_read s it has_buffer (pos len) =
      let copy_len = min len it.header.payload_size in
      if unusable it
      then err e_parm
      else if len == 0
      then ok (int32_of it.header.payload_size, [])
      else if not has_buffer
      then err e_parm
      else if copy_len == 0
      then ok (pos 0, [])
      else iterator_read_payload s it copy_len
