-- ===== src/Nlog3/Samples.antt =====
-- The parts of nlog3 and the simulator at concrete inputs.
use qoraal_flash.Common.{
  ℕ, ◌+◌, ◌<◌, ◌≤◌, ◌≡◌, ◌≢◌, refl, ◌⊎◌, true, false, [], ◌∷◌, arith, take, ◌%◌, if◌then◌else◌,
  ◌==◌, not, ◌||◌,
}
use qoraal_flash.Common.Word.{pos, int32_of, u32_mod}
use qoraal_flash.Common.Run.{e_corrupt, ok, err, out_of_rounds}
use qoraal_flash.Flash.{qoraal_flash_read}
use qoraal_flash.Flash.Nor.{bytes_at}
use qoraal_flash.Flash.Simulator.{platform_flash_read}
use qoraal_flash.Nlog3.Crc.{crc32}
use qoraal_flash.Nlog3.Format.{Desc, record_header_size, state_valid}
use qoraal_flash.Nlog3.Layout.{
  log_valid, sector_addr, sector_end, sector_data_start, record_alloc_size, seq_after,
}
use qoraal_flash.Nlog3.Layout.Align.{record_alloc_size_lem}
use qoraal_flash.Nlog3.Layout.Sequence.{seq_after_lem}
use qoraal_flash.Nlog3.Record.{scan_terminal, sector_scan, scan_loop}
use qoraal_flash.Nlog3.Record.Rounds.{Answers, sector_scan-rounds}
use qoraal_flash.Nlog3.Iterator.{Iterator, iterator_at, iterator_read}
use qoraal_flash.Nlog3.Iterator.Payload.{iterator_read_lem}
use qoraal_flash.Nlog3.Runs.{three_sectors, small_chip, small_flash, one_current}

abbrev sample_desc : Desc
sample_desc = 7 ∷ 0 ∷ 0 ∷ 0 ∷ 0 ∷ 0 ∷ 0 ∷ 0 ∷ []

-- An iterator at address 64 of a memory, over three bytes of payload whose CRC is `crc`.
abbrev three_bytes : ℕ → Iterator
three_bytes crc = iterator_at 0 1 64 (record {
  state = state_valid;
  magic = 0;
  header_crc = 0;
  payload_crc = crc;
  padding = 0;
  payload_size = 3;
  previous_offset = 0;
  previous_sequence = 0;
  desc = sample_desc;
})

iterator_read_lem_example : iterator_read small_chip one_current (three_bytes 5) true (pos 10) ≡ (
    if not true
      || (crc32 (bytes_at (small_flash.cell one_current) (64 + record_header_size true) 3) == 5)
    then ok (
      int32_of 3,
      take 3 (bytes_at (small_flash.cell one_current) (64 + record_header_size true) 3),
    )
    else err e_corrupt)
iterator_read_lem_example =
    iterator_read_lem small_flash one_current (three_bytes 5) 10 refl refl (omega arith)
      (omega arith) (omega arith) (omega arith)

small_chip-Answers : Answers small_chip
unfolding qoraal_flash_read platform_flash_read
small_chip-Answers s a n e = ground arith

sector_scan-rounds_example :
    (sector_scan small_chip three_sectors one_current 0
      ≡ scan_loop small_chip 300 three_sectors one_current 0
          (sector_data_start three_sectors 0)
          (record {
            end_addr = sector_data_start three_sectors 0;
            terminal = scan_terminal;
            has_records = false;
            last_record_addr = sector_data_start three_sectors 0;
          }))
    × (sector_scan small_chip three_sectors one_current 0 ≢ err out_of_rounds)
unfolding sector_data_start sector_end sector_addr log_valid
sector_scan-rounds_example =
    sector_scan-rounds small_chip three_sectors one_current 0 300 small_chip-Answers refl
      (omega arith) (omega arith)

-- 2 ^ 32 + 5 comes after 2 ^ 32 - 2, as 5 does after 4294967294.
seq_after_lem_example : seq_after 5 4294967294 ≡ true
seq_after_lem_example = seq_after_lem 4294967301 4294967294 (omega arith) (omega arith)

record_alloc_size_lem_example :
    (record_header_size true + 3 + 7 < u32_mod)
      × (record_header_size true + 3 ≤ record_alloc_size true 3)
      × (record_alloc_size true 3 < record_header_size true + 3 + 8)
      × (record_alloc_size true 3 % 8 ≡ 0)
    ⊎ (u32_mod ≤ record_header_size true + 3 + 7) × (record_alloc_size true 3 ≡ 0)
record_alloc_size_lem_example = record_alloc_size_lem true 3
