-- ===== src/Nvol3/Sector.antt =====
-- The head of a sector, erasing, and the scan of a sector into the lookup table.
pub mod Scan
pub mod Build
pub mod Construct
use qoraal_flash.Common.{
  ℕ, zero, suc, ◌+◌, ◌-◌, ◌%◌, Bool, true, false, not, ◌&&◌, ◌||◌, Option, none, some, List, [],
  ◌∷◌, ◌++◌, length, get_or, ltb, leb, ◌==◌, if◌then◌else◌,
}
use qoraal_flash.Common.Word.{add32, sub32, uint32_max, u32_bytes, u32_of}
use qoraal_flash.Common.Run.{
  Status, eok, e_empty, e_invalid, e_timeout, e_version, undefined, Result, ok, err, Run, done,
  stop, Cmd, state_of,
}
use qoraal_flash.Flash.{Platform, qoraal_flash_read, qoraal_flash_write, qoraal_flash_erase}
use qoraal_flash.Nvol3.Dictionary.{Dictionary}
use qoraal_flash.Nvol3.Volume.{
  Config, Record, Volume, World, u16, max_records, settle, with_vol, record_invalid,
}
use qoraal_flash.Nvol3.Slot.{read_variable_record, variable_record_valid, set_variable_record_flags}
use qoraal_flash.Nvol3.Table.{insert_lookup_table, with_dict}

abbrev u32_at : List ℕ → ℕ → ℕ
u32_at bytes i =
    u32_of (get_or bytes i 0) (get_or bytes (i + 1) 0) (get_or bytes (i + 2) 0)
      (get_or bytes (i + 3) 0)

-- NVOL3_SECTOR_RECORD_T as set_sector_flags fills it in.
unfoldable pub sector_record : Config → ℕ → List ℕ
sector_record cfg flags =
    u32_bytes flags
    ++ u32_bytes 0x5555_5555
    ++ u32_bytes 0x5555_5555
    ++ u32_bytes (uint32_max - cfg.version)

module _ {Store : Type 0} (p : Platform Store) (cfg : Config) where
  -- The version and the flags of a sector, 0 and 0 where it cannot be read.
  unfoldable pub get_sector_version : Store → ℕ → ℕ × ℕ
  get_sector_version s sector = elim (qoraal_flash_read p s sector 16) [
    | err e ↦ (0, 0)
    | ok bytes ↦ (u16 (uint32_max - u32_at bytes 12), u32_at bytes 0)
  ]

  module _ {Dict : Type 0} where
    -- The check behind the write only prints.
    unfoldable pub set_sector_flags : ℕ → ℕ → Cmd (World Dict Store) (Unit {0})
    set_sector_flags sector flags w =
        settle w (qoraal_flash_write p w.store sector (sector_record cfg flags))

    unfoldable pub erase_sector : ℕ → Cmd (World Dict Store) (Unit {0})
    erase_sector sector w =
        settle w (qoraal_flash_erase p w.store sector (sub32 (add32 sector cfg.sector_size) 1))

-- `status == E_EMPTY`
unfoldable pub is_empty : Status → Bool
is_empty e_empty = true
is_empty e = false

module _ {Store : Type 0} (p : Platform Store) (D : Dictionary) (cfg : Config) where
  -- Counters of the instance.
  abbrev pub count_inuse : World D.Dict Store → World D.Dict Store
  count_inuse = with_vol (λ v. record v { inuse = add32 v.inuse 1 })

  abbrev pub count_invalid : World D.Dict Store → World D.Dict Store
  count_invalid = with_vol (λ v. record v { invalid = add32 v.invalid 1 })

  abbrev pub count_error : World D.Dict Store → World D.Dict Store
  count_error = with_vol (λ v. record v { error = add32 v.error 1 })

  -- What the scan's loop leaves: its status, the slot after the last one used, and the world.
  abbrev pub Scan : Type 0
  Scan = Status × ℕ × World D.Dict Store

  -- How a slot without a record counts.
  unfoldable pub counted : Status → World D.Dict Store → World D.Dict Store
  counted e_empty w = w
  counted e_timeout w = count_invalid w
  counted e_invalid w = count_invalid w
  counted e w = count_error w

  -- The loop of construct_lookup_table, from slot `idx` on.
  unfoldable pub build_loop : ℕ → ℕ → ℕ → World D.Dict Store → Scan
  build_loop zero idx next w = (eok, next, w)
  build_loop (suc n) idx next w = elim (read_variable_record p cfg w.store w.vol.sector idx) [
    | err e ↦
        build_loop n (u16 (idx + 1)) (if is_empty e then next else u16 (idx + 1)) (counted e w)
    | ok rec ↦ elim (variable_record_valid p cfg rec) [
      | true ↦ elim (insert_lookup_table D cfg rec idx w) [
        | done _ w' ↦ build_loop n (u16 (idx + 1)) (u16 (idx + 1)) (count_inuse w')
        | stop e w' ↦ (e, u16 (idx + 1), w')
      ]
      | false ↦ build_loop n (u16 (idx + 1)) (u16 (idx + 1)) (
          count_invalid (
            count_error
              (state_of (set_variable_record_flags p cfg w.vol.sector record_invalid idx w))))
    ]
  ]

  -- What follows the loop.
  unfoldable pub built : Scan → Run (World D.Dict Store) (Unit {0})
  built (e, next, w) =
      let version = (get_sector_version p cfg w.store w.vol.sector).0 in
      let w' : World D.Dict Store =
        with_vol (λ v. record v { next_idx = next; version = version }) w in
      if not (version == cfg.version)
      then stop e_version w'
      else elim e [ eok ↦ done tt w' | e' ↦ stop e' w' ]

  -- The state in which the loop starts.
  unfoldable pub emptied : D.Dict → World D.Dict Store → World D.Dict Store
  emptied d =
      with_vol (λ v. record v { dict = some (D.remove_all d); inuse = 0; invalid = 0; error = 0 })

  -- The loop runs while `idx < max_records`, which ends within the range of `idx`.
  unfoldable pub construct_lookup_table : Cmd (World D.Dict Store) (Unit {0})
  construct_lookup_table =
      with_dict D cfg (λ d w. built (build_loop (max_records cfg) 0 0 (emptied d w)))
