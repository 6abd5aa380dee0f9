-- ===== src/Nlog3/Append.antt =====
-- nlog3_append.
pub mod Memory
pub mod Commit
pub mod Header
pub mod Open
pub mod Correct
pub mod Recorded
pub mod Interrupted
pub mod Failure
pub mod Fresh
use qoraal_flash.Common.{
  ℕ, Bool, true, false, not, ◌&&◌, ◌||◌, Option, none, some, List, [], ltb, ◌==◌, if◌then◌else◌,
  take,
}
use qoraal_flash.Common.Word.{add32, sub32}
use qoraal_flash.Common.Run.{Status, e_parm, e_notrdy, Run, done, stop, Cmd, and_then, on_stop}
use qoraal_flash.Flash.{Platform}
use qoraal_flash.Nlog3.Crc.{crc32}
use qoraal_flash.Nlog3.Format.{
  RecordHeader, Desc, record_header_bytes, record_header_crc, record_header_size, record_magic,
  state_pending, state_valid,
}
use qoraal_flash.Nlog3.Layout.{
  Log, World, log_valid, sector_end, sector_data_start, addr_has_room, record_offset,
  record_alloc_size,
}
use qoraal_flash.Nlog3.Sector.{◌>>=◌, ◌>>◌, modify, write_u32, flash_write, write_pending_header}
use qoraal_flash.Nlog3.Stage.{write_end_marker, advance_sector}

-- `plog->current_closed = 1U`
unfoldable pub close : Log → Log
close log = record log { current_closed = true }

-- What the log remembers of a record that was committed at its write address.
unfoldable pub appended : ℕ → Log → Log
appended record_size log = record log {
  last_record_offset = record_offset log log.write_addr;
  last_record_sequence = log.current_sequence;
  write_addr = add32 log.write_addr record_size;
  current_closed = false;
}

-- `plog->current_closed = 1U; return res` where a command fails.
abbrev pub closing : {Store : Type 0} → Run (World Store) (Unit {0}) → Run (World Store) (Unit {0})
closing = on_stop (λ w. record w { log = close w.log })

module _ {Store : Type 0} (p : Platform Store) where
  -- The header of the record, its CRC filled in last.
  unfoldable pub new_record_header : Log → Desc → ℕ → List ℕ → RecordHeader
  new_record_header log desc payload_size payload =
      let h : RecordHeader = record {
        state = state_pending;
        magic = record_magic;
        header_crc = 0;
        payload_crc = if p.payload_crc then crc32 (take payload_size payload) else 0;
        padding = 0;
        payload_size = payload_size;
        previous_offset = log.last_record_offset;
        previous_sequence = log.last_record_sequence;
        desc = desc;
      } in
      record h { header_crc = record_header_crc p.payload_crc h }

  -- `if (payload_size != 0U)`: the payload goes behind the header.
  unfoldable pub write_payload : ℕ → ℕ → List ℕ → Cmd (World Store) (Unit {0})
  write_payload addr payload_size payload =
      if payload_size == 0
      then done tt
      else flash_write p (add32 addr (record_header_size p.payload_crc)) (take payload_size payload)

  -- The writes of a record in their order; the one of the state word commits it.
  unfoldable pub write_record : ℕ → RecordHeader → ℕ → List ℕ → Cmd (World Store) (Unit {0})
  write_record addr header payload_size payload = do
    write_pending_header p addr (record_header_bytes p.payload_crc header) state_pending
    write_payload addr payload_size payload
    write_u32 p addr state_valid

  -- The part of nlog3_append behind the change of sectors.
  unfoldable pub append_record : Desc → ℕ → List ℕ → ℕ → Cmd (World Store) (Unit {0})
  append_record desc payload_size payload record_size w =
      if not (addr_has_room w.log.write_addr (sector_end w.log w.log.current_sector) record_size)
      then stop e_parm w
      else and_then
          (closing (
            write_record w.log.write_addr (new_record_header w.log desc payload_size payload)
              payload_size payload w))
          (λ _. modify (appended record_size))

  -- The current sector is ended, if it is open, and the log goes on in the staged one.
  unfoldable pub change_sector : Cmd (World Store) (Unit {0})
  change_sector w =
      if w.log.current_closed
      then advance_sector p w
      else and_then (closing (write_end_marker p w))
          (λ _ w'. advance_sector p (record w' { log = close w'.log }))

  unfoldable pub make_room : ℕ → Cmd (World Store) (Unit {0})
  make_room record_size w =
      if w.log.current_closed
        || not (addr_has_room w.log.write_addr (sector_end w.log w.log.current_sector) record_size)
      then change_sector w
      else done tt w

  -- nlog3_append once its pointers are checked.
  unfoldable pub append_checked : Desc → ℕ → List ℕ → Cmd (World Store) (Unit {0})
  append_checked desc payload_size payload w =
      let record_size = record_alloc_size p.payload_crc payload_size in
      let room =
        sub32 (sector_end w.log w.log.current_sector)
          (sector_data_start w.log w.log.current_sector) in
      if w.log.write_addr == 0
      then stop e_notrdy w
      else if (record_size == 0) || ltb room record_size
      then stop e_parm w
      else and_then (make_room record_size w)
          (λ _. append_record desc payload_size payload record_size)

  -- `desc` and `payload` may be null. A payload is at least `payload_size` bytes long.
  unfoldable pub append : Option Desc → ℕ → Option (List ℕ) → Cmd (World Store) (Unit {0})
  append none payload_size payload w = stop e_parm w
  append (some desc) payload_size (some payload) w =
      if log_valid w.log then append_checked desc payload_size payload w else stop e_parm w
  append (some desc) payload_size none w =
      if log_valid w.log && (payload_size == 0)
      then append_checked desc payload_size [] w
      else stop e_parm w
