-- ===== src/Flash.antt =====
-- qoraal_flash_read, qoraal_flash_write and qoraal_flash_erase of include/qoraal-flash/qoraal.h, the
-- calls by which every volume reaches the flash memory. `Store` is whatever the driver keeps, and the
-- driver itself is the application's: a parameter.
pub mod Nor
pub mod Simulator
use qoraal_flash.Common.{ℕ, Bool, List, Option, none, some}
use qoraal_flash.Common.Run.{Status, other, Result, err, check}

-- QORAAL_FLASH_CFG_T: a driver function may be missing. A read fills a buffer, a write and an erase
-- change the store also when they fail.
pub record FlashCfg (Store : Type 0) : Type 0 where
  pub flash_read : Option (Store → ℕ → ℕ → Status × List ℕ)
  pub flash_write : Option (Store → ℕ → List ℕ → Status × Store)
  pub flash_erase : Option (Store → ℕ → ℕ → Status × Store)

-- The build: the configured instance (`_qoraal_flash_instance`, which may be null) and whether
-- CFG_NLOG3_PAYLOAD_CRC is defined.
pub record Platform (Store : Type 0) : Type 0 where
  pub flash_instance : Option (FlashCfg Store)
  pub payload_crc : Bool

-- The return value -1 where no implementation exists.
abbrev no_implementation : Status
no_implementation = other 0

module _ {Store : Type 0} where
  read_with : Option (Store → ℕ → ℕ → Status × List ℕ) → Store → ℕ → ℕ → Result (List ℕ)
  read_with none s addr len = err no_implementation
  read_with (some f) s addr len = let (e, bytes) = f s addr len in check e bytes

  write_with : Option (Store → ℕ → List ℕ → Status × Store) → Store → ℕ → List ℕ → Status × Store
  write_with none s addr bytes = (no_implementation, s)
  write_with (some f) s addr bytes = f s addr bytes

  erase_with : Option (Store → ℕ → ℕ → Status × Store) → Store → ℕ → ℕ → Status × Store
  erase_with none s start last = (no_implementation, s)
  erase_with (some f) s start last = f s start last

  unfoldable pub qoraal_flash_read : Platform Store → Store → ℕ → ℕ → Result (List ℕ)
  unfolding read_with
  qoraal_flash_read p s addr len = elim p.flash_instance [
    | none ↦ err no_implementation
    | some cfg ↦ read_with cfg.flash_read s addr len
  ]

  unfoldable pub qoraal_flash_write : Platform Store → Store → ℕ → List ℕ → Status × Store
  unfolding write_with
  qoraal_flash_write p s addr bytes = elim p.flash_instance [
    | none ↦ (no_implementation, s)
    | some cfg ↦ write_with cfg.flash_write s addr bytes
  ]

  unfoldable pub qoraal_flash_erase : Platform Store → Store → ℕ → ℕ → Status × Store
  unfolding erase_with
  qoraal_flash_erase p s start last = elim p.flash_instance [
    | none ↦ (no_implementation, s)
    | some cfg ↦ erase_with cfg.flash_erase s start last
  ]
