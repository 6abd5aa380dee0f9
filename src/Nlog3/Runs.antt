-- ===== src/Nlog3/Runs.antt =====
-- The searches of nlog3 in a memory with one current sector.
use qoraal_flash.Common.{ℕ, zero, suc, ◌≡◌, refl, sym, true, false, arith, get_or}
use qoraal_flash.Common.Word.{words_bytes, bytes_words}
use qoraal_flash.Common.Run.{err, ok, e_notfound, e_parm}
use qoraal_flash.Flash.{Platform, qoraal_flash_read}
use qoraal_flash.Flash.Nor.{NorFlash, bytes_at}
use qoraal_flash.Flash.Simulator.{Memory, simulator, platform_flash_read}
use qoraal_flash.Flash.Simulator.Laws.{simulator-NorFlash}
use qoraal_flash.Nlog3.Crc.{crc32, crc32_update, crc32_rounds, crc32_round}
use qoraal_flash.Nlog3.Format.{
  SectorHeader, sector_header_bytes, sector_header_of_bytes, sector_header_crc, state_valid,
}
use qoraal_flash.Nlog3.Layout.{Log, log_valid, sector_addr, seq_after, seq_before}
use qoraal_flash.Nlog3.Sector.{
  sector_header_read, sector_header_check, sector_state_is_readable, new_sector_header,
}
use qoraal_flash.Nlog3.Record.Read.{Mounted}
use qoraal_flash.Nlog3.Find.{find_newest_current_sector, find_oldest_sector}
use qoraal_flash.Nlog3.Find.Newest.{
  IsCurrent, Within, Chooses, current_header, not_read, find_newest_current_sector_lem,
  find_oldest_sector_lem,
}

abbrev pub three_sectors : Log
three_sectors = record {
  startaddr = 0;
  sectorcount = 3;
  sectorsize = 256;
  version = 0;
  current_sector = 0;
  current_sequence = 0;
  staged_sector = 0;
  write_addr = 0;
  last_record_offset = 0xffff_ffff;
  last_record_sequence = 0;
  current_closed = false;
}

abbrev pub small_chip : Platform Memory
small_chip = simulator 256 4096 true

abbrev pub small_flash : NorFlash small_chip
small_flash = simulator-NorFlash 256 4096 true (omega arith) (omega arith)

three_sectors-Mounted : Mounted small_flash three_sectors
unfolding log_valid
three_sectors-Mounted = record {
  placed = record { valid = refl; fits = omega arith };
  inside = omega arith;
  start_paged = refl;
  sector_paged = refl;
}

-- The header of sector 0, with the sequence 7.
abbrev seventh : SectorHeader
seventh = record (new_sector_header small_chip three_sectors 7) { state = state_valid }

abbrev pub one_current : Memory
one_current x = get_or (sector_header_bytes seventh) x 255

header_zero : sector_header_read small_chip three_sectors one_current 0 ≡ ok seventh
unfolding sector_header_read sector_header_check sector_state_is_readable new_sector_header
    sector_header_bytes sector_header_of_bytes sector_header_crc log_valid sector_addr words_bytes
    bytes_words crc32 crc32_update crc32_rounds crc32_round qoraal_flash_read platform_flash_read
    bytes_at
header_zero = refl

header_one : sector_header_read small_chip three_sectors one_current 1 ≡ err e_notfound
unfolding sector_header_read sector_header_check sector_state_is_readable new_sector_header
    sector_header_bytes sector_header_of_bytes sector_header_crc log_valid sector_addr words_bytes
    bytes_words crc32 crc32_update crc32_rounds crc32_round qoraal_flash_read platform_flash_read
    bytes_at
header_one = refl

header_two : sector_header_read small_chip three_sectors one_current 2 ≡ err e_notfound
unfolding sector_header_read sector_header_check sector_state_is_readable new_sector_header
    sector_header_bytes sector_header_of_bytes sector_header_crc log_valid sector_addr words_bytes
    bytes_words crc32 crc32_update crc32_rounds crc32_round qoraal_flash_read platform_flash_read
    bytes_at
header_two = refl

header_beyond :
    (i : ℕ)
    → sector_header_read small_chip three_sectors one_current (suc (suc (suc i))) ≡ err e_parm
unfolding sector_header_read log_valid
header_beyond i = ground arith

seventh-Within : (i q : ℕ) → IsCurrent small_chip three_sectors one_current i q → Within 0 q
unfolding new_sector_header
seventh-Within zero q c = (
  7,
  omega arith,
  sym (current_header small_chip three_sectors one_current 0 q seventh header_zero c).1,
)
seventh-Within (suc zero) q c =
    absurd (not_read small_chip three_sectors one_current 1 q e_notfound header_one c)
seventh-Within (suc (suc zero)) q c =
    absurd (not_read small_chip three_sectors one_current 2 q e_notfound header_two c)
seventh-Within (suc (suc (suc i))) q c =
    absurd (
      not_read small_chip three_sectors one_current (suc (suc (suc i))) q e_parm (header_beyond i)
        c)

find_newest_current_sector_lem_example :
    Chooses small_chip three_sectors one_current seq_after
      (find_newest_current_sector small_chip three_sectors one_current)
find_newest_current_sector_lem_example =
    find_newest_current_sector_lem small_flash three_sectors-Mounted one_current 0 seventh-Within

find_oldest_sector_lem_example :
    Chooses small_chip three_sectors one_current seq_before
      (find_oldest_sector small_chip three_sectors one_current)
find_oldest_sector_lem_example =
    find_oldest_sector_lem small_flash three_sectors-Mounted one_current 0 seventh-Within
