-- ===== src/Flash/Simulator/Laws.antt =====
-- The simulator of test/platform.c against what the volumes rely on.
use native.Mathlib.Nat.{div-add-mod', mod-lt, mod-add-mod, mod-eq_of_lt}
use qoraal_flash.Common.{ℕ, ◌+◌, ◌-◌, ◌%◌, ◌≤◌, ◌<◌, ◌≡◌, Bool, List, arith, length, get_or}
use qoraal_flash.Common.Bits.{bit_and-le}
use qoraal_flash.Common.Word.{u32_mod}
use qoraal_flash.Common.Run.{ok, eok}
use qoraal_flash.Flash.{qoraal_flash_read, qoraal_flash_write, qoraal_flash_erase}
use qoraal_flash.Flash.Nor.{bytes_at, programmed, blanked, NorFlash}
use qoraal_flash.Flash.Simulator.{
  Memory, byte, simulator, page_start, page_end, platform_flash_read, platform_flash_write,
  platform_flash_erase,
}

page_start_lem : (page a : ℕ) → a % page ≡ 0 → page_start page a ≡ a
unfolding page_start
page_start_lem page a h = omega (arith, div-add-mod' a page)

page_end_lem : (page a : ℕ) → 0 < page → (a + 1) % page ≡ 0 → page_end page a ≡ a
unfolding page_end
page_end_lem page a some_page h = omega (arith, div-add-mod' a page, mod-lt a some_page, last)
  where
    last : ¬ (a % page + 1 < page)
    last below = omega (arith, mod-add-mod a page 1, mod-eq_of_lt below)

module _ (page size : ℕ) (crc : Bool) (m : Memory) where
  pub read_ok :
      (a n : ℕ)
      → size < u32_mod
      → a + n < size
      → qoraal_flash_read (simulator page size crc) m a n ≡ ok (bytes_at (byte m) a n)
  unfolding qoraal_flash_read platform_flash_read
  read_ok a n h k = ground arith

  pub write_ok :
      (a : ℕ) (bytes : List ℕ)
      → size < u32_mod
      → a + length bytes < size
      → qoraal_flash_write (simulator page size crc) m a bytes ≡ (eok, programmed (byte m) a bytes)
  unfolding qoraal_flash_write platform_flash_write
  write_ok a bytes h k = ground arith

  pub erase_ok :
      (lo hi : ℕ)
      → lo ≤ hi
      → hi < size
      → 0 < page
      → lo % page ≡ 0
      → (hi + 1) % page ≡ 0
      → qoraal_flash_erase (simulator page size crc) m lo hi ≡ (eok, blanked (byte m) lo hi)
  unfolding qoraal_flash_erase platform_flash_erase
  erase_ok lo hi h k some_page from to =
      ground (arith, page_start_lem page lo from, page_end_lem page hi some_page to)

pub byte-programmed :
    (m : Memory) (a : ℕ) (bytes : List ℕ) (x : ℕ)
    → byte (programmed (byte m) a bytes) x ≡ programmed (byte m) a bytes x
unfolding programmed
byte-programmed m a bytes x = ground (arith, bit_and-le (byte m x) (get_or bytes (x - a) 255))

pub byte-blanked :
    (m : Memory) (lo hi x : ℕ) → byte (blanked (byte m) lo hi) x ≡ blanked (byte m) lo hi x
unfolding blanked
byte-blanked m lo hi x = ground arith

pub byte_lt : (m : Memory) (x : ℕ) → byte m x < 256
byte_lt m x = omega arith

-- The simulator is a NOR flash.
abbrev pub simulator-NorFlash :
    (page size : ℕ) (crc : Bool) → 0 < page → size < u32_mod → NorFlash (simulator page size crc)
simulator-NorFlash page size crc some_page h = record {
  size = size;
  page = page;
  cell = byte;
  program = λ m. programmed (byte m);
  blank = λ m. blanked (byte m);
  cell_byte = byte_lt;
  read_ok = λ m a n. read_ok page size crc m a n h;
  write_ok = λ m a bytes. write_ok page size crc m a bytes h;
  erase_ok = λ m lo hi l k. erase_ok page size crc m lo hi l k some_page;
  cell_program = byte-programmed;
  cell_blank = byte-blanked;
}
