-- ===== src/Nlog3/Layout.antt =====
-- The log's state (NLOG3_T) and the addresses of its sectors and records.
pub mod Align
pub mod Sequence
pub mod Placed
use qoraal_flash.Common.{
  ℕ, ◌+◌, ◌-◌, ◌<◌, Bool, true, false, not, ◌&&◌, ◌||◌, ltb, leb, ◌==◌, if◌then◌else◌, bit_and,
}
use qoraal_flash.Common.Word.{add32, sub32, mul32, uint32_max}
use qoraal_flash.Nlog3.Format.{RecordHeader, sector_header_size, record_header_size}

-- NLOG3_T
pub record Log : Type 0 where
  pub startaddr : ℕ
  pub sectorcount : ℕ
  pub sectorsize : ℕ
  pub version : ℕ
  pub current_sector : ℕ
  pub current_sequence : ℕ
  pub staged_sector : ℕ
  pub write_addr : ℕ
  pub last_record_offset : ℕ
  pub last_record_sequence : ℕ
  pub current_closed : Bool

-- The log and the flash that it lies in.
pub record World (Store : Type 0) : Type 0 where
  pub log : Log
  pub store : Store

-- nlog3_align_up
unfoldable pub align_up : ℕ → ℕ
align_up value = bit_and (add32 value 7) 0xffff_fff8

-- nlog3_seq_after and nlog3_seq_before: the sign of the 32-bit difference.
unfoldable pub seq_after : ℕ → ℕ → Bool
seq_after a b = ltb 0 (sub32 a b) && ltb (sub32 a b) 0x8000_0000

unfoldable pub seq_before : ℕ → ℕ → Bool
unfolding seq_after
seq_before a b = seq_after b a

unfoldable pub sector_addr : Log → ℕ → ℕ
sector_addr log sector = add32 log.startaddr (mul32 log.sectorsize sector)

unfoldable pub record_offset : Log → ℕ → ℕ
record_offset log addr = sub32 addr log.startaddr

unfoldable pub sector_end : Log → ℕ → ℕ
unfolding sector_addr
sector_end log sector = add32 (sector_addr log sector) log.sectorsize

unfoldable pub sector_data_start : Log → ℕ → ℕ
unfolding sector_addr align_up
sector_data_start log sector = add32 (sector_addr log sector) (align_up sector_header_size)

unfoldable pub sector_next : Log → ℕ → ℕ
sector_next log sector = if ltb sector (sub32 log.sectorcount 1) then add32 sector 1 else 0

unfoldable pub addr_has_room : ℕ → ℕ → ℕ → Bool
addr_has_room addr end size = leb addr end && leb size (end - addr)

unfoldable pub log_valid : Log → Bool
unfolding align_up
log_valid log =
    not (ltb log.sectorcount 3 || (log.sectorsize == 0))
    && ltb (add32 (align_up sector_header_size) 4) log.sectorsize

-- nlog3_record_alloc_size: 0 where the size would overflow.
unfoldable pub record_alloc_size : Bool → ℕ → ℕ
unfolding align_up
record_alloc_size crc payload_size =
    if ltb (uint32_max - record_header_size crc - 7) payload_size
    then 0
    else align_up (add32 (record_header_size crc) payload_size)

unfoldable pub record_size_from_header : Bool → RecordHeader → ℕ
unfolding record_alloc_size
record_size_from_header crc header = record_alloc_size crc header.payload_size
