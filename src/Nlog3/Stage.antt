-- ===== src/Nlog3/Stage.antt =====
-- The sector that the log goes on in: nlog3_write_end_marker, nlog3_stage_sector,
-- nlog3_ensure_staged_sector and nlog3_advance_sector.
pub mod Keeps
use qoraal_flash.Common.{ℕ, Bool, true, false, ◌||◌, leb, ◌==◌, if◌then◌else◌}
use qoraal_flash.Common.Word.{add32}
use qoraal_flash.Common.Run.{
  Status, e_parm, e_notfound, Result, ok, err, Run, done, stop, Cmd, and_then,
}
use qoraal_flash.Flash.{Platform}
use qoraal_flash.Nlog3.Format.{SectorHeader, state_staged, state_sector_end}
use qoraal_flash.Nlog3.Layout.{Log, World, sector_addr, sector_end, sector_next, addr_has_room}
use qoraal_flash.Nlog3.Sector.{
  ◌>>=◌, ◌>>◌, modify, write_u32, sector_erase, sector_header_read, sector_write_header,
  sector_init,
}
use qoraal_flash.Nlog3.Find.{skips}

-- `plog->staged_sector = sector`
abbrev pub set_staged : ℕ → Log → Log
set_staged sector log = record log { staged_sector = sector }

module _ {Store : Type 0} (p : Platform Store) where
  unfoldable pub write_end_marker : Cmd (World Store) (Unit {0})
  write_end_marker w =
      if w.log.current_closed
      then done tt w
      else if addr_has_room w.log.write_addr (sector_end w.log w.log.current_sector) 4
      then write_u32 p w.log.write_addr state_sector_end w
      else done tt w

  -- A sector whose header can be read is marked by its state word alone.
  unfoldable pub stage_readable : ℕ → SectorHeader → Cmd (World Store) (Unit {0})
  stage_readable sector h w =
      if h.state == state_staged
      then modify (set_staged sector) w
      else and_then (write_u32 p (sector_addr w.log sector) state_staged w)
          (λ _. modify (set_staged sector))

  -- Any other sector is erased and gets a header of the next sequence.
  unfoldable pub stage_fresh : ℕ → Cmd (World Store) (Unit {0})
  stage_fresh sector w = and_then (sector_erase p sector w) (λ _ w'.
      and_then (sector_write_header p sector (add32 w'.log.current_sequence 1) state_staged w')
        (λ _. modify (set_staged sector)))

  -- The three outcomes of reading the sector's header.
  unfoldable pub stage_read : ℕ → Result SectorHeader → Cmd (World Store) (Unit {0})
  stage_read sector (ok h) w = stage_readable sector h w
  stage_read sector (err e) w = if skips e then stage_fresh sector w else stop e w

  unfoldable pub stage_sector : ℕ → Cmd (World Store) (Unit {0})
  stage_sector sector w =
      if leb w.log.sectorcount sector
      then stop e_parm w
      else if sector == w.log.current_sector
      then stop e_notfound w
      else stage_read sector (sector_header_read p w.log w.store sector) w

  unfoldable pub ensure_staged_sector : Cmd (World Store) (Unit {0})
  ensure_staged_sector w = stage_sector (sector_next w.log w.log.current_sector) w

  -- The part of nlog3_advance_sector behind its check of the staged sector.
  unfoldable pub enter_staged_sector : Cmd (World Store) (Unit {0})
  enter_staged_sector w =
      and_then (sector_init p w.log.staged_sector (add32 w.log.current_sequence 1) w)
        (λ _. ensure_staged_sector)

  unfoldable pub advance_sector : Cmd (World Store) (Unit {0})
  advance_sector w =
      if leb w.log.sectorcount w.log.staged_sector || (w.log.staged_sector == w.log.current_sector)
      then and_then (ensure_staged_sector w) (λ _. enter_staged_sector)
      else enter_staged_sector w
