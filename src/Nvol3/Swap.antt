-- ===== src/Nvol3/Swap.antt =====
-- Moving the records to the other sector: move_sector, swap_sectors, nvol3_repair, and with it
-- nvol3_record_set.
use qoraal_flash.Common.{
  ℕ, zero, suc, ◌+◌, ◌-◌, Bool, true, false, not, ◌&&◌, Option, none, some, List, [], ◌∷◌, leb,
  ◌==◌, if◌then◌else◌,
}
use qoraal_flash.Common.Run.{
  Status, eok, fail, e_empty, undefined, Result, ok, err, Run, done, stop, Cmd, state_of, and_then,
}
use qoraal_flash.Flash.{Platform}
use qoraal_flash.Nvol3.Dictionary.{Dictionary, Entry, Key}
use qoraal_flash.Nvol3.Volume.{
  Config, Record, World, u16, max_records, with_vol, malloc, record_invalid, sector_empty,
  sector_initializing, sector_valid,
}
use qoraal_flash.Nvol3.Slot.{
  read_variable_record, variable_record_valid, write_variable_record, set_variable_record_flags,
}
use qoraal_flash.Nvol3.Table.{record_from_entry, with_dict}
use qoraal_flash.Nvol3.Sector.{
  get_sector_version, set_sector_flags, erase_sector, construct_lookup_table,
}
use qoraal_flash.Nvol3.Set.{record_set}

-- fully_cached
unfoldable pub fully_cached : Config → Bool
fully_cached cfg =
    not (cfg.local_size == 0)
    && not (leb cfg.record_size (8 + cfg.key_size))
    && leb (cfg.record_size - 8 - cfg.key_size) cfg.local_size

module _ {Store : Type 0} (p : Platform Store) (D : Dictionary) (cfg : Config) where
  abbrev W : Type 0
  W = World D.Dict Store

  abbrev pub set_sector : ℕ → W → W
  set_sector sector = with_vol (λ v. record v { sector = sector })

  -- The sector that is not in use.
  unfoldable pub other_sector : W → ℕ
  other_sector w = if w.vol.sector == cfg.sector1_addr then cfg.sector2_addr else cfg.sector1_addr

  -- `src_addr`: the sector in use, as one of the two of the configuration
  unfoldable pub source_sector : W → ℕ
  source_sector w = if w.vol.sector == cfg.sector1_addr then cfg.sector1_addr else cfg.sector2_addr

  -- The destination is erased where it is not empty, and marked as being initialised.
  unfoldable pub prepare : ℕ → Cmd W (Unit {0})
  prepare dst w =
      and_then
        (if (get_sector_version p cfg w.store dst).1 == sector_empty
          then done tt w
          else erase_sector p cfg dst w)
        (λ _. set_sector_flags p cfg dst sector_initializing)

  -- The loop of move_sector over the slots of the sector in use; it ends at the first empty one.
  unfoldable pub move_loop : ℕ → ℕ → ℕ → ℕ → W → W
  move_loop zero dst idx dst_idx w = w
  move_loop (suc n) dst idx dst_idx w = elim (read_variable_record p cfg w.store w.vol.sector idx) [
    | err e_empty ↦ w
    | err e ↦ move_loop n dst (u16 (idx + 1)) dst_idx w
    | ok rec ↦ elim (variable_record_valid p cfg rec) [
      | false ↦ move_loop n dst (u16 (idx + 1)) dst_idx w
      | true ↦
          move_loop n dst (u16 (idx + 1)) (u16 (dst_idx + 1))
            (elim (write_variable_record p cfg dst rec dst_idx w) [
              | done _ w' ↦ w'
              | stop e w' ↦ state_of (set_variable_record_flags p cfg dst record_invalid dst_idx w')
            ])
    ]
  ]

  unfoldable pub move_sector : ℕ → Cmd W (Unit {0})
  move_sector dst w =
      and_then (prepare dst w)
        (λ _ w'. set_sector_flags p cfg dst sector_valid (move_loop (max_records cfg) dst 0 0 w'))

  -- nvol3_repair
  unfoldable pub nvol3_repair : Cmd W (Unit {0})
  nvol3_repair w =
      let src = source_sector w in
      let dst = other_sector w in
      and_then (malloc w) (λ _ w0. and_then (move_sector dst w0) (λ _ w1.
        erase_sector p cfg src (state_of (construct_lookup_table p D cfg (set_sector dst w1)))))

  -- `entry->idx = dst_idx`
  unfoldable pub moved_to : Key → Entry → ℕ → W → W
  moved_to key e dst_idx = with_vol (λ v. record v {
    dict = elim v.dict [
      | none ↦ none
      | some d ↦ some (D.assign d key (record e { idx = dst_idx }))
    ];
  })

  -- The record of a node, from the cache or from the flash memory.
  unfoldable pub node_record : Bool → Key → Option Entry → W → Result Record
  node_record from_ram key none w =
      if from_ram then record_from_entry D cfg key none else err undefined
  node_record from_ram key (some e) w =
      if from_ram
      then record_from_entry D cfg key (some e)
      else read_variable_record p cfg w.store w.vol.sector e.idx

  -- What the table holds for a node.
  unfoldable pub lookup : Key → W → Option Entry
  lookup key w = elim w.vol.dict [ none ↦ none | some d ↦ D.get d key ]

  -- The loop of swap_sectors over the nodes; it ends at the first failure.
  unfoldable pub swap_loop : Bool → List Key → ℕ → ℕ → W → Status × ℕ × W
  swap_loop from_ram [] dst dst_idx w = (eok, dst_idx, w)
  swap_loop from_ram (k ∷ ks) dst dst_idx w = elim (node_record from_ram k (lookup k w) w) [
    | err e ↦ (e, dst_idx, w)
    | ok rec ↦ elim (write_variable_record p cfg dst rec dst_idx w) [
      | stop e w' ↦ (e, dst_idx, w')
      | done _ w' ↦ elim (lookup k w') [
        | none ↦ (undefined, dst_idx, w')
        | some e ↦ swap_loop from_ram ks dst (u16 (dst_idx + 1)) (moved_to k e dst_idx w')
      ]
    ]
  ]

  -- The instance after a swap out of the cache, whose table is right already.
  unfoldable pub rebuilt : ℕ → ℕ → W → W
  rebuilt dst dst_idx w =
      with_vol
        (λ v. record v {
          sector = dst;
          next_idx = dst_idx;
          inuse = elim v.dict [ none ↦ 0 | some d ↦ D.count d ];
          invalid = 0;
          error = 0;
          version = (get_sector_version p cfg w.store dst).0;
        })
        w

  -- The end of swap_sectors, after its loop.
  unfoldable pub finish_swap : Bool → ℕ → ℕ → Status × ℕ × W → Run W (Unit {0})
  finish_swap from_ram src dst (eok, dst_idx, w) =
      and_then (set_sector_flags p cfg dst sector_valid w) (λ _ w'. erase_sector p cfg src (
        if from_ram
        then rebuilt dst dst_idx w'
        else state_of (construct_lookup_table p D cfg (set_sector dst w'))))
  finish_swap from_ram src dst (e, dst_idx, w) = elim (move_sector dst w) [
    | stop e' w' ↦ stop fail w'
    | done _ w' ↦
        erase_sector p cfg src (state_of (construct_lookup_table p D cfg (set_sector dst w')))
  ]

  unfoldable pub swap_sectors : Cmd W (Unit {0})
  swap_sectors = with_dict D cfg (λ d w.
      let from_ram = fully_cached cfg in
      and_then (prepare (other_sector w) w) (λ _ w'.
        finish_swap from_ram (source_sector w) (other_sector w)
          (swap_loop from_ram (D.nodes d) (other_sector w) 0 w')))

  -- `if (instance->next_idx >= max_records(instance))`
  unfoldable pub make_space : Cmd W (Unit {0})
  make_space w =
      if leb (max_records cfg) w.vol.next_idx
      then and_then (malloc w)
          (λ _ w'. elim (swap_sectors w') [ done _ w'' ↦ done tt w'' | stop e w'' ↦ stop fail w'' ])
      else done tt w

  unfoldable pub nvol3_record_set : List ℕ → ℕ → Cmd W (Unit {0})
  nvol3_record_set bytes n w =
      and_then (make_space w) (λ _ w'. record_set p D cfg (lookup (D.key_at bytes) w') bytes n w')
