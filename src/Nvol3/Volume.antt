-- ===== src/Nvol3/Volume.antt =====
-- The constants, the configuration and the state of a volume: include/qoraal-flash/nvram/nvol3.h.
use qoraal_flash.Common.{ℕ, ◌/◌, ◌%◌, Bool, true, false, Option, List, [], ◌∷◌, ◌++◌}
use qoraal_flash.Common.Word.{add32, sub32, mul32}
use qoraal_flash.Common.Run.{Status, Run, done, stop, Cmd, eok, e_nomem}

abbrev pub page_size : ℕ
page_size = 0x20

abbrev pub headroom : ℕ
headroom = 4

-- NVOL3_RECORD_FLAGS_EMPTY, _NEW, _VALID and _INVALID
abbrev pub record_empty : ℕ
record_empty = 0xFFFF

abbrev pub record_new : ℕ
record_new = 0xAFFF

abbrev pub record_valid : ℕ
record_valid = 0xAAAF

abbrev pub record_invalid : ℕ
record_invalid = 0x0000

-- NVOL3_SECTOR_EMPTY, _INITIALIZING, _VALID and _INVALID
abbrev pub sector_empty : ℕ
sector_empty = 0xFFFF_FFFF

abbrev pub sector_initializing : ℕ
sector_initializing = 0xAAFF_FFFF

abbrev pub sector_valid : ℕ
sector_valid = 0xAAAA_FFFF

abbrev pub sector_invalid : ℕ
sector_invalid = 0xAAAA_AAAA

-- NVOL3_INVALID_VAR_IDX
abbrev pub invalid_var_idx : ℕ
invalid_var_idx = 0xFFFF

-- NVOL3_RECORD_HEAD_T
pub record Head : Type 0 where
  pub flags : ℕ
  pub length : ℕ
  pub checksum : ℕ
  pub reserved : ℕ

-- NVOL3_RECORD_T; `key_and_data` is what the buffer holds.
pub record Record : Type 0 where
  pub head : Head
  pub key_and_data : List ℕ

-- NVOL3_CONFIG_T. The application's callback is known by what it returns for a record.
pub record Config : Type 0 where
  pub sector1_addr : ℕ
  pub sector2_addr : ℕ
  pub sector_size : ℕ
  pub record_size : ℕ
  pub local_size : ℕ
  pub key_size : ℕ
  pub version : ℕ
  pub write_cb : Option (Record → Status)

-- NVOL3_INSTANCE_T without its configuration; `dict` is null before the volume is loaded.
pub record Volume (Dict : Type 0) : Type 0 where
  pub version : ℕ
  pub next_idx : ℕ
  pub sector : ℕ
  pub dict : Option Dict
  pub inuse : ℕ
  pub invalid : ℕ
  pub error : ℕ

-- The instance, the driver's store, and which of the coming allocations succeed; past the end of the
-- list they do.
pub record World (Dict Store : Type 0) : Type 0 where
  pub vol : Volume Dict
  pub store : Store
  pub allocations : List Bool

-- The callback that the macros of the declarations put in.
abbrev pub nvol3_callback_tallie : Record → Status
nvol3_callback_tallie rec = eok

-- `uint16_t` arithmetic
abbrev pub u16 : ℕ → ℕ
u16 n = n % 65536

unfoldable pub max_records : Config → ℕ
max_records cfg = sub32 cfg.sector_size page_size / cfg.record_size

-- The address of a slot: `sector_addr + NVOL3_PAGE_SIZE + record_size * idx`
unfoldable pub slot_addr : Config → ℕ → ℕ → ℕ
slot_addr cfg sector_addr idx = add32 sector_addr (add32 page_size (mul32 cfg.record_size idx))

-- The bytes of a head in memory.
unfoldable pub u16_bytes : ℕ → List ℕ
u16_bytes w = w % 256 ∷ (w / 256) % 256 ∷ []

unfoldable pub head_bytes : Head → List ℕ
head_bytes h =
    u16_bytes h.flags ++ u16_bytes h.length ++ u16_bytes h.checksum ++ u16_bytes h.reserved

module _ {Dict Store : Type 0} where
  abbrev pub with_vol : (Volume Dict → Volume Dict) → World Dict Store → World Dict Store
  with_vol f w = record w { vol = f w.vol }

  -- A call of the driver: its status, and what it leaves of the store.
  abbrev pub settle : World Dict Store → Status × Store → Run (World Dict Store) (Unit {0})
  settle w (eok, s) = done tt (record w { store = s })
  settle w (e, s) = stop e (record w { store = s })

  -- `NVOL3_MALLOC`, and E_NOMEM where it returns null.
  unfoldable pub malloc : Cmd (World Dict Store) (Unit {0})
  malloc w = elim w.allocations [
    | [] ↦ done tt w
    | ◌∷◌ true rest ↦ done tt (record w { allocations = rest })
    | ◌∷◌ false rest ↦ stop e_nomem (record w { allocations = rest })
  ]
