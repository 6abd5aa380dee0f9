-- ===== src/Nlog3/Init.antt =====
-- nlog3_reset and nlog3_init.
use qoraal_flash.Common.{
  ℕ, zero, suc, ◌+◌, ◌-◌, Bool, true, false, ◌&&◌, Option, none, some, ◌==◌, if◌then◌else◌,
}
use qoraal_flash.Common.Run.{e_parm, e_notfound, Result, ok, err, Run, done, stop, Cmd, and_then}
use qoraal_flash.Flash.{Platform}
use qoraal_flash.Nlog3.Format.{SectorHeader, state_valid, sector_none, record_offset_none}
use qoraal_flash.Nlog3.Layout.{Log, World, log_valid, seq_after, record_offset}
use qoraal_flash.Nlog3.Sector.{◌>>◌, modify, sector_erase, sector_init}
use qoraal_flash.Nlog3.Record.{
  Scanned, scan_record, scan_empty, scan_terminal, SectorScan, sector_scan,
}
use qoraal_flash.Nlog3.Find.{over_sectors, find_newest_current_sector}
use qoraal_flash.Nlog3.Stage.{ensure_staged_sector}

-- The loop state of nlog3_init: the log and, once a record is found, `tail_sequence`.
pub record Tail : Type 0 where
  pub log : Log
  pub tail_sequence : Option ℕ

-- `!tail_found || nlog3_seq_after(header.sequence, tail_sequence)`
abbrev pub later : ℕ → Option ℕ → Bool
later sequence none = true
later sequence (some tail) = seq_after sequence tail

-- The log before nlog3_init looks at the flash.
unfoldable pub cleared : Log → Log
cleared log = record log {
  current_sector = 0;
  current_sequence = 0;
  staged_sector = sector_none;
  write_addr = 0;
  last_record_offset = record_offset_none;
  last_record_sequence = 0;
  current_closed = true;
}

-- `plog->last_record_offset` and `plog->last_record_sequence` take the last record of a sector.
unfoldable pub take_tail : SectorHeader → SectorScan → Tail → Tail
take_tail h scan t = record {
  log = record (t.log) {
    last_record_offset = record_offset t.log scan.last_record_addr;
    last_record_sequence = h.sequence;
  };
  tail_sequence = some h.sequence;
}

unfoldable pub tail_scanned : SectorHeader → SectorScan → Tail → Tail
tail_scanned h scan t =
    if (h.state == state_valid) && scan.has_records && later h.sequence t.tail_sequence
    then take_tail h scan t
    else t

-- `(scan.terminal == NLOG3_SCAN_EMPTY) ? 0U : 1U`
abbrev pub closed_by : Scanned → Bool
closed_by scan_empty = false
closed_by (scan_record h) = true
closed_by scan_terminal = true

unfoldable pub resumed : ℕ → ℕ → SectorScan → Log → Log
resumed sector sequence scan log = record log {
  current_sector = sector;
  current_sequence = sequence;
  write_addr = scan.end_addr;
  current_closed = closed_by scan.terminal;
}

module _ {Store : Type 0} (p : Platform Store) where
  -- `for (i; n rounds; i++) nlog3_sector_erase(plog, i)`
  unfoldable pub erase_sectors : ℕ → ℕ → Cmd (World Store) (Unit {0})
  erase_sectors zero i w = done tt w
  erase_sectors (suc n) i w = and_then (sector_erase p i w) (λ _. erase_sectors n (i + 1))

  unfoldable pub reset : Cmd (World Store) (Unit {0})
  reset w =
      if log_valid w.log
      then (do
        erase_sectors (w.log.sectorcount - 2) 2
        modify (λ log. record log {
          last_record_offset = record_offset_none;
          last_record_sequence = 0;
        })
        sector_init p 0 0
        ensure_staged_sector p)
          w
      else stop e_parm w

  -- The body of the loop over all sectors.
  unfoldable pub tail_body : Store → ℕ → SectorHeader → Cmd Tail (Unit {0})
  tail_body s i h t = elim (sector_scan p t.log s i) [
    | ok scan ↦ done tt (tail_scanned h scan t)
    | err e ↦ stop e t
  ]

  unfoldable pub find_tail : Log → Store → Run Tail (Unit {0})
  find_tail log s =
      over_sectors p log s (tail_body s) log.sectorcount 0
        (record { log = log; tail_sequence = none })

  -- The write position comes from a scan of the newest sector.
  unfoldable pub resume : ℕ → ℕ → Cmd (World Store) (Unit {0})
  resume sector sequence w = elim (sector_scan p w.log w.store sector) [
    | ok scan ↦ ensure_staged_sector p (record w { log = resumed sector sequence scan w.log })
    | err e ↦ stop e w
  ]

  unfoldable pub recover : ℕ → ℕ → Cmd (World Store) (Unit {0})
  recover sector sequence w = elim (find_tail w.log w.store) [
    | done _ t ↦ resume sector sequence (record w { log = t.log })
    | stop e t ↦ stop e (record w { log = t.log })
  ]

  -- What follows the search for the newest sector.
  unfoldable pub init_found : Result (ℕ × ℕ) → Cmd (World Store) (Unit {0})
  init_found (ok (sector, sequence)) w = recover sector sequence w
  init_found (err e_notfound) w = reset w
  init_found (err e) w = stop e w

  unfoldable pub init : Cmd (World Store) (Unit {0})
  init w =
      if log_valid w.log
      then init_found (find_newest_current_sector p (cleared w.log) w.store)
          (record w { log = cleared w.log })
      else stop e_parm w
