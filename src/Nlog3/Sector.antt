-- ===== src/Nlog3/Sector.antt =====
-- Writing to flash, and sector headers: nlog3_sector_erase, nlog3_write_u32,
-- nlog3_write_pending_header, nlog3_sector_header_read, nlog3_sector_write_header,
-- nlog3_sector_init. Pointers to a log or a header are never null here.
pub mod Calls
use qoraal_flash.Common.{
  ℕ, ◌+◌, ◌-◌, Bool, true, false, not, ◌&&◌, ◌||◌, List, ltb, leb, ◌==◌, if◌then◌else◌, drop,
  length,
}
use qoraal_flash.Common.Word.{add32, sub32, u32_bytes}
use qoraal_flash.Common.Run.{
  Status, eok, e_parm, e_notfound, e_corrupt, Result, ok, err, bind, Run, done, stop, Cmd, and_then,
}
use qoraal_flash.Flash.{Platform, qoraal_flash_read, qoraal_flash_write, qoraal_flash_erase}
use qoraal_flash.Nlog3.Format.{
  SectorHeader, sector_header_bytes, sector_header_of_bytes, sector_header_crc, sector_header_size,
  sector_magic, sector_version, state_pending, state_valid, state_staged, sector_none,
}
use qoraal_flash.Nlog3.Layout.{Log, World, log_valid, sector_addr, sector_data_start}

module _ {Store : Type 0} where
  infixl 5 ◌>>=◌ ◌>>◌
  abbrev pub ◌>>=◌ :
      {A B : Type 0} → Cmd (World Store) A → (A → Cmd (World Store) B) → Cmd (World Store) B
  m >>= k = λ w. and_then (m w) k

  abbrev pub ◌>>◌ : {A B : Type 0} → Cmd (World Store) A → Cmd (World Store) B → Cmd (World Store) B
  m >> k = m >>= λ _. k

  -- The return code of a flash call, with what the call left in the store.
  abbrev pub settle : World Store → Status × Store → Run (World Store) (Unit {0})
  settle w (eok, s) = done tt (record w { store = s })
  settle w (e, s) = stop e (record w { store = s })

  -- A change of the log alone.
  abbrev pub modify : (Log → Log) → Cmd (World Store) (Unit {0})
  modify f w = done tt (record w { log = f w.log })

-- nlog3_sector_state_is_readable
unfoldable pub sector_state_is_readable : ℕ → Bool
sector_state_is_readable state = (state == state_valid) || (state == state_staged)

-- The log after nlog3_sector_init has written the sector.
unfoldable pub started : ℕ → ℕ → Log → Log
started sector sequence log = record log {
  current_sector = sector;
  current_sequence = sequence;
  staged_sector = sector_none;
  write_addr = sector_data_start log sector;
  current_closed = false;
}

module _ {Store : Type 0} (p : Platform Store) where
  -- FLASH_WRITE and FLASH_ERASE on the log's flash.
  unfoldable pub flash_write : ℕ → List ℕ → Cmd (World Store) (Unit {0})
  flash_write addr bytes w = settle w (qoraal_flash_write p w.store addr bytes)

  unfoldable pub flash_erase : ℕ → ℕ → Cmd (World Store) (Unit {0})
  flash_erase start last w = settle w (qoraal_flash_erase p w.store start last)

  unfoldable pub sector_erase : ℕ → Cmd (World Store) (Unit {0})
  sector_erase sector w =
      if not (log_valid w.log) || leb w.log.sectorcount sector
      then stop e_parm w
      else flash_erase (sector_addr w.log sector)
          (sub32 (add32 (sector_addr w.log sector) w.log.sectorsize) 1) w

  unfoldable pub write_u32 : ℕ → ℕ → Cmd (World Store) (Unit {0})
  write_u32 addr value = flash_write addr (u32_bytes value)

  -- The header comes as its bytes; the first four, its state, are written apart and first.
  unfoldable pub write_pending_header : ℕ → List ℕ → ℕ → Cmd (World Store) (Unit {0})
  write_pending_header addr header pending_state =
      if leb (length header) 4
      then stop e_parm
      else (do write_u32 addr pending_state; flash_write (add32 addr 4) (drop 4 header))

  -- What nlog3_sector_header_read accepts of the header that it has read.
  unfoldable pub sector_header_check : Log → SectorHeader → Result SectorHeader
  sector_header_check log h =
      if not (sector_state_is_readable h.state)
      then err e_notfound
      else if not (h.magic == sector_magic)
          || not (h.version == sector_version p.payload_crc)
          || not (h.sector_size == log.sectorsize)
          || not (h.log_version == log.version)
      then err e_corrupt
      else if not (h.header_crc == sector_header_crc h)
      then err e_corrupt
      else ok h

  unfoldable pub sector_header_read : Log → Store → ℕ → Result SectorHeader
  sector_header_read log s sector =
      if not (log_valid log) || leb log.sectorcount sector
      then err e_parm
      else bind (qoraal_flash_read p s (sector_addr log sector) sector_header_size)
          (λ bytes. sector_header_check log (sector_header_of_bytes bytes))

  -- The header that nlog3_sector_write_header fills in.
  unfoldable pub new_sector_header : Log → ℕ → SectorHeader
  new_sector_header log sequence =
      let h : SectorHeader = record {
        state = state_pending;
        magic = sector_magic;
        version = sector_version p.payload_crc;
        sequence = sequence;
        sector_size = log.sectorsize;
        log_version = log.version;
        header_crc = 0;
      } in
      record h { header_crc = sector_header_crc h }

  unfoldable pub sector_write_header : ℕ → ℕ → ℕ → Cmd (World Store) (Unit {0})
  sector_write_header sector sequence final_state w =
      and_then
        (write_pending_header (sector_addr w.log sector)
          (sector_header_bytes (new_sector_header w.log sequence)) state_pending w)
        (λ _ w'. write_u32 (sector_addr w'.log sector) final_state w')

  unfoldable pub sector_init : ℕ → ℕ → Cmd (World Store) (Unit {0})
  sector_init sector sequence = do
    sector_erase sector
    sector_write_header sector sequence state_valid
    modify (started sector sequence)
