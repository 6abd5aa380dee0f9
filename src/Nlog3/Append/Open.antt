-- ===== src/Nlog3/Append/Open.antt =====
-- The state in which the log takes a record: the invariant of an open sector.
use qoraal_flash.Common.{◌-◌, ◌%◌, ◌≤◌, ◌<◌, ◌≡◌, false}
use qoraal_flash.Common.Word.{IsWord}
use qoraal_flash.Flash.{Platform}
use qoraal_flash.Flash.Nor.{NorFlash}
use qoraal_flash.Flash.Nor.Ranges.{Erased}
use qoraal_flash.Nlog3.Layout.{World, sector_end, sector_data_start}
use qoraal_flash.Nlog3.Record.Read.{Mounted}

-- The write position lies in the current sector, and everything from it to the sector's end is
-- erased.
pub record IsOpen {Store : Type 0} {p : Platform Store} (F : NorFlash p) (w : World Store)
    : Type 0 where
  pub mounted : Mounted F w.log
  pub in_range : w.log.current_sector < w.log.sectorcount
  pub start_le : sector_data_start w.log w.log.current_sector ≤ w.log.write_addr
  pub write_le : w.log.write_addr ≤ sector_end w.log w.log.current_sector
  pub aligned : (w.log.write_addr - w.log.startaddr) % 8 ≡ 0
  pub opened : w.log.current_closed ≡ false
  pub erased :
      Erased
        (F.cell w.store)
        w.log.write_addr
        (sector_end w.log w.log.current_sector - w.log.write_addr)
  pub sequence_word : IsWord w.log.current_sequence
  pub offset_word : IsWord w.log.last_record_offset
  pub last_word : IsWord w.log.last_record_sequence
