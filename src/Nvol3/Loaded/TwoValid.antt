-- ===== src/Nvol3/Loaded/TwoValid.antt =====
-- A loss of power after a new record is committed and before the one that it replaces is marked.
use qoraal_flash.Common.{
  ℕ, ◌<◌, ◌≡◌, ◌⊎◌, refl, ap, ◌∙◌, none, some, List, [], arith, if◌then◌else◌, true, ◌==◌, ◌-◌,
}
use qoraal_flash.Common.Word.{add32}
use qoraal_flash.Common.Run.{done, stop, e_version, and_then}
use qoraal_flash.Flash.{Platform}
use qoraal_flash.Flash.Nor.{NorFlash}
use qoraal_flash.Nvol3.Dictionary.{Dictionary, IsMap, Key}
use qoraal_flash.Nvol3.Volume.{
  Config, Volume, World, with_vol, max_records, u16_bytes, record_invalid,
}
use qoraal_flash.Nvol3.Slot.{set_variable_record_flags}
use qoraal_flash.Nvol3.Slot.Read.{Placed, slot_at, record_at}
use qoraal_flash.Nvol3.Slot.Frame.{record_at-other}
use qoraal_flash.Nvol3.Slot.Write.{set_variable_record_flags_lem, record_at-invalid}
use qoraal_flash.Nvol3.Slot.Commit.{committed, IsPayload}
use qoraal_flash.Nvol3.Table.{with_dict_lem, entry_of}
use qoraal_flash.Nvol3.Sector.{construct_lookup_table, get_sector_version}
use qoraal_flash.Nvol3.Sector.Scan.{flags-IsWrite}
use qoraal_flash.Nvol3.Sector.Construct.{IsBuilt, construct_lookup_table-IsBuilt, version_kept}
use qoraal_flash.Nvol3.Set.{nvol3_record_delete, delete_in}
use qoraal_flash.Nvol3.View.{newest, newest-eq, live, listed, same_key_refl}
use qoraal_flash.Nvol3.View.Update.{live_at, none-IsOther, newest-other}
use qoraal_flash.Nvol3.Loaded.{IsLoaded, contents, bytes_of}
use qoraal_flash.Nvol3.Loaded.Put.{committed_store, newest-committed, live-committed_other}
use qoraal_flash.Nvol3.Loaded.Store.{nothing_behind, blank, outside_committed}

-- The state after the loss of power: the flash of `w` with the new record committed, and an instance.
abbrev pub crashed :
    {Store Dict : Type 0} {p : Platform Store} (F : NorFlash p) (cfg : Config) (sector : ℕ)
    (bytes : List ℕ)
    → World Dict Store
    → Volume Dict
    → World Dict Store
crashed F cfg sector bytes w vol = record {
  vol = vol;
  store = committed_store F cfg sector bytes w.vol.next_idx w.store;
  allocations = [];
}

module _ {Store : Type 0} {p : Platform Store} {F : NorFlash p} {D : Dictionary} (M : IsMap D)
    {cfg : Config} {sector : ℕ} (pl : Placed F cfg sector) (bytes : List ℕ)
    (pay : IsPayload cfg bytes) (w : World D.Dict Store) (L : IsLoaded F D cfg sector w)
    (room : w.vol.next_idx < max_records cfg) where
  abbrev m : ℕ
  m = w.vol.next_idx

  module _ (v : World D.Dict Store)
      (b : IsBuilt F D cfg sector (F.cell (committed_store F cfg sector bytes m w.store)) v) where
    s' : Store
    s' = F.program v.store (slot_at cfg sector m) (u16_bytes record_invalid)

    -- The table has the new record.
    found_new :
        newest p D cfg (F.cell v.store) sector (max_records cfg) (D.key_at bytes)
        ≡ some (m, committed bytes)
    found_new =
        newest-eq p D cfg (F.cell v.store) (F.cell (committed_store F cfg sector bytes m w.store))
          sector (max_records cfg) (D.key_at bytes) (λ i h. b.same.same_live i h)
        ∙ newest-committed D pl bytes pay w.store m room (blank pl bytes pay w L room)
            (D.key_at bytes) (λ i lo hi. nothing_behind pl bytes pay w L room i (omega arith) hi)
        ∙ ap
            (λ t.
              if t
              then some (m, committed bytes)
              else newest p D cfg (F.cell w.store) sector (max_records cfg) (D.key_at bytes))
            (same_key_refl (D.key_at bytes))

    live_gone : live_at p D cfg sector (F.cell s') m ≡ none
    unfolding live s'
    live_gone =
        ap (λ c. live p D cfg (record_at cfg c (slot_at cfg sector m)))
          (flags-IsWrite F D cfg sector pl v.store m record_invalid).writes
        ∙ ap (live p D cfg) (record_at-invalid cfg (F.cell v.store) (slot_at cfg sector m))

    kept :
        (i : ℕ)
        → i < max_records cfg
        → (m < i) ⊎ (i < m)
        → live_at p D cfg sector (F.cell s') i ≡ live_at p D cfg sector (F.cell w.store) i
    unfolding s'
    kept i h apart =
        ap (live p D cfg)
          (record_at-other pl (flags-IsWrite F D cfg sector pl v.store m record_invalid) i apart)
        ∙ b.same.same_live i h
        ∙ live-committed_other D pl bytes pay w.store m room (blank pl bytes pay w L room) i apart

    deleted : World D.Dict Store
    deleted =
        with_vol
          (λ v. record v {
            inuse = if v.inuse == 0 then 0 else v.inuse - 1;
            invalid = add32 v.invalid 1;
            dict = some (D.remove b.table.dict (D.key_at bytes));
          })
          (record v { store = s' })

    runs :
        D.get b.table.dict (D.key_at bytes) ≡ some (entry_of cfg (committed bytes) m [])
        → set_variable_record_flags p cfg v.vol.sector record_invalid m v
          ≡ done tt (record v { store = s' })
        → delete_in p D cfg b.table.dict bytes v ≡ done tt deleted
    unfolding delete_in deleted entry_of
    runs something mark = rw (delete_in, something, and_then, mark) refl

    -- Without the new record the sector holds what it held before the set.
    found_old :
        (k : Key)
        → newest p D cfg (F.cell s') sector (max_records cfg) k
          ≡ newest p D cfg (F.cell w.store) sector (max_records cfg) k
    found_old k =
        newest-other p D cfg sector (F.cell w.store) (F.cell s') m (max_records cfg) k
          (λ i h apart. kept i h apart)
          (none-IsOther p D cfg sector k (live_at p D cfg sector (F.cell s') m) live_gone)
          (none-IsOther p D cfg sector k (live_at p D cfg sector (F.cell w.store) m)
            (nothing_behind pl bytes pay w L room m (omega arith) room))

    deletes : nvol3_record_delete p D cfg bytes v ≡ done tt deleted
    unfolding nvol3_record_delete listed s'
    deletes =
        let something : D.get b.table.dict (D.key_at bytes)
            ≡ some (entry_of cfg (committed bytes) m []) =
          b.table.lists (D.key_at bytes) ∙ ap (listed p D cfg) found_new in
        let mark : set_variable_record_flags p cfg v.vol.sector record_invalid m v
            ≡ done tt (record v { store = s' }) =
          ap (λ x. set_variable_record_flags p cfg x record_invalid m v) b.table.at_sector
          ∙ set_variable_record_flags_lem pl m room v record_invalid in
        with_dict_lem D cfg (λ d. delete_in p D cfg d bytes) v b.table.is_dict ∙ runs something mark

  -- After a loss of power between the commit of a new record and the marking of the one that it
  -- replaces, the volume is loaded, and nvol3_record_delete of the key succeeds; but what the flash
  -- holds then is what it held before the set, the old value under the key included.
  pub nvol3_record_delete-two_valid :
      (vol : Volume D.Dict) (d : D.Dict)
      → vol.dict ≡ some d
      → vol.sector ≡ sector
      → (get_sector_version p cfg w.store sector).0 ≡ cfg.version
      → (v : World D.Dict Store) × (v' : World D.Dict Store) × (construct_lookup_table p D cfg
            (crashed F cfg sector bytes w vol)
          ≡ done tt v)
        × (nvol3_record_delete p D cfg bytes v ≡ done tt v')
        × ((k : Key) → contents F D cfg sector v' k ≡ contents F D cfg sector w k)
  unfolding contents deleted s'
  nvol3_record_delete-two_valid vol d is_dict at version =
      let (v, b, built) =
        construct_lookup_table-IsBuilt M pl (crashed F cfg sector bytes w vol) d is_dict at refl in
      let known : ((get_sector_version p cfg (crashed F cfg sector bytes w vol).store sector).0
            == cfg.version)
          ≡ true =
        ground (
          arith,
          ap (λ x. x.0)
                (version_kept F cfg sector pl w.store (crashed F cfg sector bytes w vol).store
                  (outside_committed pl bytes pay w L room))
              ∙ version,
        ) in
      (
        v,
        deleted v b,
        built ∙ ap (λ t. if t then done tt v else stop e_version v) known,
        deletes v b,
        λ k. ap bytes_of (found_old v b k),
      )
