-- ===== src/Nvol3/Load.antt =====
-- Loading a volume: init_sectors, nvol3_load, nvol3_validate, nvol3_reset, nvol3_delete and
-- nvol3_unload.
use qoraal_flash.Common.{ℕ, Bool, ◌||◌, none, some, ◌==◌, if◌then◌else◌}
use qoraal_flash.Common.Run.{Status, eok, fail, e_version, done, stop, Cmd, state_of, and_then}
use qoraal_flash.Flash.{Platform}
use qoraal_flash.Nvol3.Dictionary.{Dictionary}
use qoraal_flash.Nvol3.Volume.{
  Config, World, with_vol, malloc, sector_empty, sector_initializing, sector_valid, sector_invalid,
}
use qoraal_flash.Nvol3.Sector.{
  get_sector_version, set_sector_flags, erase_sector, construct_lookup_table,
}
use qoraal_flash.Nvol3.Swap.{nvol3_repair, set_sector}

-- The flags of a sector; `unknown` for any other value.
pub data SectorState : Type 0 where
  empty initializing valid invalid unknown : SectorState

unfoldable pub sector_state : ℕ → SectorState
sector_state flags =
    if flags == sector_empty
    then empty
    else if flags == sector_initializing
    then initializing
    else if flags == sector_valid
    then valid
    else if flags == sector_invalid
    then invalid
    else unknown

-- What the switch of init_sectors does for the two sectors.
pub data Choice : Type 0 where
  start_first repair_first repair_second use_second first_erase_second second_erase_first no_case :
      Choice

unfoldable pub init_choice : SectorState → SectorState → Choice
init_choice empty empty = start_first
init_choice empty initializing = repair_second
init_choice empty valid = use_second
init_choice empty invalid = repair_second
init_choice initializing empty = repair_first
init_choice initializing initializing = repair_first
init_choice initializing valid = second_erase_first
init_choice initializing invalid = repair_second
init_choice valid empty = first_erase_second
init_choice valid initializing = first_erase_second
init_choice valid invalid = first_erase_second
init_choice valid valid = first_erase_second
init_choice invalid empty = repair_first
init_choice invalid initializing = repair_first
init_choice invalid valid = second_erase_first
init_choice invalid invalid = repair_first
init_choice unknown s = no_case
init_choice empty unknown = no_case
init_choice initializing unknown = no_case
init_choice valid unknown = no_case
init_choice invalid unknown = no_case

module _ {Store : Type 0} (p : Platform Store) (D : Dictionary) (cfg : Config) where
  abbrev W : Type 0
  W = World D.Dict Store

  -- A sector with unknown flags is erased, and counts as empty whether or not that succeeds.
  unfoldable pub clean : ℕ → SectorState → W → SectorState × W
  clean sector unknown w = (empty, state_of (erase_sector p cfg sector w))
  clean sector s w = (s, w)

  unfoldable pub act : Choice → W → W
  act start_first w = state_of (
      set_sector_flags p cfg cfg.sector1_addr sector_valid
        (state_of (erase_sector p cfg cfg.sector1_addr (set_sector p D cfg cfg.sector1_addr w))))
  act repair_first w = state_of (nvol3_repair p D cfg (set_sector p D cfg cfg.sector1_addr w))
  act repair_second w = state_of (nvol3_repair p D cfg (set_sector p D cfg cfg.sector2_addr w))
  act use_second w = set_sector p D cfg cfg.sector2_addr w
  act first_erase_second w =
      set_sector p D cfg cfg.sector1_addr (state_of (erase_sector p cfg cfg.sector2_addr w))
  act second_erase_first w =
      state_of (erase_sector p cfg cfg.sector1_addr (set_sector p D cfg cfg.sector2_addr w))
  act no_case w = w

  unfoldable pub init_sectors : Cmd W (Unit {0})
  init_sectors w =
      let (s1, w1) =
        clean cfg.sector1_addr (sector_state (get_sector_version p cfg w.store cfg.sector1_addr).1)
          w in
      let (s2, w2) =
        clean cfg.sector2_addr (sector_state (get_sector_version p cfg w.store cfg.sector2_addr).1)
          w1 in
      construct_lookup_table p D cfg
        (act (init_choice s1 s2) (with_vol (λ v. record v { next_idx = 0 }) w2))

  -- dictionary_init, which needs memory as well
  unfoldable pub new_dictionary : Cmd W (Unit {0})
  new_dictionary w =
      and_then (malloc (with_vol (λ v. record v { dict = none }) w))
        (λ _ w'. done tt (with_vol (λ v. record v { dict = some D.init }) w'))

  -- The scratch record is allocated before the instance is cleared.
  unfoldable pub nvol3_load : Cmd W (Unit {0})
  nvol3_load w =
      let cleared : W → W =
        with_vol (λ v. record v { sector = 0; next_idx = 0; inuse = 0; invalid = 0 }) in
      elim (malloc w) [
        | stop e w' ↦ stop e (cleared w')
        | done _ w' ↦ and_then (new_dictionary (cleared w')) (λ _. init_sectors)
      ]

  -- The flags of a sector that belongs to a volume.
  unfoldable pub known : ℕ → Bool
  known flags =
      (flags == sector_initializing) || (flags == sector_valid) || (flags == sector_invalid)

  unfoldable pub nvol3_validate : Store → Status
  nvol3_validate s =
      let first = get_sector_version p cfg s cfg.sector1_addr in
      let second = get_sector_version p cfg s cfg.sector2_addr in
      if known first.1
      then (if first.0 == cfg.version then eok else e_version)
      else if known second.1
      then (if second.0 == cfg.version then eok else e_version)
      else fail

  -- The check between the erases and the load only prints.
  unfoldable pub nvol3_reset : Cmd W (Unit {0})
  nvol3_reset w = nvol3_load (
      state_of (
        erase_sector p cfg cfg.sector2_addr (
          state_of
            (erase_sector p cfg cfg.sector1_addr (with_vol (λ v. record v { dict = none }) w)))))

  unfoldable pub nvol3_delete : Cmd W (Unit {0})
  nvol3_delete w = done tt (
      with_vol (λ v. record v { dict = none })
        (state_of
          (erase_sector p cfg cfg.sector2_addr (state_of (erase_sector p cfg cfg.sector1_addr w)))))

  unfoldable pub nvol3_unload : W → W
  nvol3_unload = with_vol (λ v. record v { dict = none })
