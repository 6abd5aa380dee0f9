-- ===== src/Flash/Simulator.antt =====
-- The flash memory of test/platform.c in RAM: platform_flash_read, platform_flash_write and
-- platform_flash_erase, and the platform that they make. The memory is a function from addresses to
-- numbers that stand for their low eight bits, `none` before it is allocated.
pub mod Laws
use qoraal_flash.Common.{
  ℕ, ◌+◌, ◌-◌, ◌*◌, ◌/◌, ◌%◌, ltb, Bool, Option, none, some, List, [], leb, if◌then◌else◌, length,
}
use qoraal_flash.Common.Word.{add32}
use qoraal_flash.Common.Run.{Status, eok, e_parm, e_unexp}
use qoraal_flash.Flash.{Platform}
use qoraal_flash.Flash.Nor.{bytes_at, programmed, blanked}

abbrev pub Memory : Type 0
Memory = ℕ → ℕ

-- The memory as bytes.
abbrev pub byte : Memory → ℕ → ℕ
byte m x = m x % 256

-- `addr & ~(PLATFORM_FLASH_SECTOR_SIZE - 1)` and `addr | (PLATFORM_FLASH_SECTOR_SIZE - 1)` for a
-- power of two `page`, which qoraal/platform.h defines.
unfoldable pub page_start : ℕ → ℕ → ℕ
page_start page addr = addr / page * page

unfoldable pub page_end : ℕ → ℕ → ℕ
page_end page addr = addr / page * page + (page - 1)

unfoldable pub platform_flash_erase : ℕ → ℕ → Option Memory → ℕ → ℕ → Status × Option Memory
platform_flash_erase page size none start last = (e_unexp, none)
platform_flash_erase page size (some m) start last =
    let from = page_start page start in
    if leb size from then (e_parm, some m) else if ltb last from then (e_parm, some m) else (
      eok,
      some (blanked (byte m) from (page_end page (if leb size last then size - 1 else last))),
    )

unfoldable pub platform_flash_write : ℕ → Option Memory → ℕ → List ℕ → Status × Option Memory
platform_flash_write size none addr bytes = (e_unexp, none)
platform_flash_write size (some m) addr bytes =
    if leb size addr
    then (e_parm, some m)
    else if leb size (add32 addr (length bytes))
    then (e_parm, some m)
    else (eok, some (programmed (byte m) addr bytes))

unfoldable pub platform_flash_read : ℕ → Option Memory → ℕ → ℕ → Status × List ℕ
platform_flash_read size none addr len = (e_unexp, [])
platform_flash_read size (some m) addr len =
    if leb size addr
    then (e_parm, [])
    else if leb size (add32 addr len)
    then (e_parm, [])
    else (eok, bytes_at (byte m) addr len)

-- The memory stays allocated between platform_start and platform_stop.
abbrev allocated : Option Memory → Memory
allocated none = λ _. 255
allocated (some m) = m

abbrev with_memory : Status × Option Memory → Status × Memory
with_memory (e, m) = (e, allocated m)

-- The started simulator as a platform.
abbrev pub simulator : ℕ → ℕ → Bool → Platform Memory
simulator page size crc = record {
  flash_instance = some (record {
    flash_read = some (λ m addr len. platform_flash_read size (some m) addr len);
    flash_write =
        some (λ m addr bytes. with_memory (platform_flash_write size (some m) addr bytes));
    flash_erase =
        some (λ m start last. with_memory (platform_flash_erase page size (some m) start last));
  });
  payload_crc = crc;
}
