-- ===== src/Flash/Nor.antt =====
-- What the volumes rely on of a flash driver (README.md, "Background"): a write only clears bits, an
-- erase sets them, and both leave the rest of the memory alone.
pub mod Ranges
use qoraal_flash.Common.{
  ℕ, zero, suc, ◌+◌, ◌-◌, ◌%◌, ◌≤◌, ◌<◌, ◌≡◌, List, [], ◌∷◌, bit_and, ◌&&◌, leb, ltb, if◌then◌else◌,
  length, get_or,
}
use qoraal_flash.Common.Run.{eok, ok}
use qoraal_flash.Flash.{Platform, qoraal_flash_read, qoraal_flash_write, qoraal_flash_erase}

-- The `n` bytes from an address on.
unfoldable pub bytes_at : (ℕ → ℕ) → ℕ → ℕ → List ℕ
bytes_at cell a zero = []
bytes_at cell a (suc n) = cell a ∷ bytes_at cell (suc a) n

-- The byte at `x` after a write of `bytes` at `a`: bits only change from 1 to 0.
unfoldable pub programmed : (ℕ → ℕ) → ℕ → List ℕ → ℕ → ℕ
programmed cell a bytes x =
    if leb a x && ltb x (a + length bytes)
    then bit_and (cell x) (get_or bytes (x - a) 255)
    else cell x

-- The byte at `x` after an erase from `lo` to `hi`, the last address included.
unfoldable pub blanked : (ℕ → ℕ) → ℕ → ℕ → ℕ → ℕ
blanked cell lo hi x = if leb lo x && leb x hi then 255 else cell x

-- A driver of a NOR flash of `size` bytes that works on every range that ends before the last byte,
-- and erases whole pages.
pub record NorFlash {Store : Type 0} (p : Platform Store) : Type 0 where
  pub size : ℕ
  pub page : ℕ
  pub cell : Store → ℕ → ℕ
  pub program : Store → ℕ → List ℕ → Store
  pub blank : Store → ℕ → ℕ → Store
  pub cell_byte : (s : Store) (x : ℕ) → cell s x < 256
  pub read_ok :
      (s : Store) (a n : ℕ) → a + n < size → qoraal_flash_read p s a n ≡ ok (bytes_at (cell s) a n)
  pub write_ok :
      (s : Store) (a : ℕ) (bytes : List ℕ)
      → a + length bytes < size
      → qoraal_flash_write p s a bytes ≡ (eok, program s a bytes)
  pub erase_ok :
      (s : Store) (lo hi : ℕ)
      → lo ≤ hi
      → hi < size
      → lo % page ≡ 0
      → (hi + 1) % page ≡ 0
      → qoraal_flash_erase p s lo hi ≡ (eok, blank s lo hi)
  pub cell_program :
      (s : Store) (a : ℕ) (bytes : List ℕ) (x : ℕ)
      → cell (program s a bytes) x ≡ programmed (cell s) a bytes x
  pub cell_blank : (s : Store) (lo hi x : ℕ) → cell (blank s lo hi) x ≡ blanked (cell s) lo hi x
