-- ===== src/Nlog3/Layout/Placed.antt =====
-- A log whose sectors lie within the 32-bit address space: its addresses do not wrap.
use qoraal_flash.Common.{mul_room, ℕ, ◌+◌, ◌*◌, ◌≤◌, ◌<◌, ◌≡◌, true, arith}
use qoraal_flash.Common.Word.{u32_mod}
use qoraal_flash.Nlog3.Layout.{Log, log_valid, sector_addr, sector_end, sector_data_start}

pub record Placed (log : Log) : Type 0 where
  pub valid : log_valid log ≡ true
  pub fits : log.startaddr + log.sectorsize * log.sectorcount < u32_mod

module _ {log : Log} (pl : Placed log) where
  pub sectorcount-ge : 3 ≤ log.sectorcount
  unfolding log_valid
  sectorcount-ge = ground (arith, pl.valid)

  pub sectorsize-gt : 36 < log.sectorsize
  unfolding log_valid
  sectorsize-gt = ground (arith, pl.valid)

  module _ (i : ℕ) (h : i < log.sectorcount) where
    pub sector_within : log.startaddr + (log.sectorsize * i + log.sectorsize) < u32_mod
    sector_within = omega (arith, pl.fits, mul_room log.sectorsize i log.sectorcount h)

    pub sector_addr_lem : sector_addr log i ≡ log.startaddr + log.sectorsize * i
    unfolding sector_addr
    sector_addr_lem = omega (arith, sector_within)

    pub sector_end_lem : sector_end log i ≡ log.startaddr + log.sectorsize * i + log.sectorsize
    unfolding sector_end
    sector_end_lem = omega (arith, sector_within)

    pub sector_data_start_lem : sector_data_start log i ≡ log.startaddr + log.sectorsize * i + 32
    unfolding sector_data_start
    sector_data_start_lem = omega (arith, sector_within, sectorsize-gt)
