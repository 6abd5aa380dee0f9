-- ===== src/Nvol3/Loaded/Reload.antt =====
-- construct_lookup_table on the flash of a volume that was loaded before.
use qoraal_flash.Common.{
  ℕ, ◌<◌, ◌≡◌, refl, sym, ap, ◌∙◌, some, [], arith, if◌then◌else◌, true, ◌==◌,
}
use qoraal_flash.Common.Run.{done, err, e_empty, stop, e_version}
use qoraal_flash.Flash.{Platform}
use qoraal_flash.Flash.Nor.{NorFlash}
use qoraal_flash.Flash.Nor.Ranges.{Erased}
use qoraal_flash.Nvol3.Dictionary.{Dictionary, IsMap, Key}
use qoraal_flash.Nvol3.Volume.{Config, Volume, World, max_records}
use qoraal_flash.Nvol3.Slot.Read.{Placed, slot_at, record_at}
use qoraal_flash.Nvol3.Slot.Frame.{record_at-eq}
use qoraal_flash.Nvol3.Table.{key_of}
use qoraal_flash.Nvol3.Sector.{construct_lookup_table, get_sector_version}
use qoraal_flash.Nvol3.Sector.Scan.{IsSame}
use qoraal_flash.Nvol3.Sector.Construct.{construct_lookup_table-IsBuilt}
use qoraal_flash.Nvol3.View.{newest, newest-eq}
use qoraal_flash.Nvol3.Loaded.{IsLoaded, contents, bytes_of}

-- An instance and the flash of `v`, with memory to allocate.
abbrev pub restarted : {Store Dict : Type 0} → World Dict Store → Volume Dict → World Dict Store
restarted v vol = record { vol = vol; store = v.store; allocations = [] }

module _ {Store : Type 0} {p : Platform Store} {F : NorFlash p} {D : Dictionary} (M : IsMap D)
    {cfg : Config} {sector : ℕ} (pl : Placed F cfg sector) (v : World D.Dict Store)
    (L : IsLoaded F D cfg sector v) where
  tidy_after :
      (s : Store)
      → IsSame F D cfg sector (F.cell v.store) (F.cell s)
      → (i : ℕ) → i < max_records cfg
      → record_at cfg (F.cell s) (slot_at cfg sector i) ≡ err e_empty
      → Erased (F.cell s) (slot_at cfg sector i) cfg.record_size
  tidy_after s same i below e x lo hi =
      let before : record_at cfg (F.cell v.store) (slot_at cfg sector i) ≡ err e_empty =
        record_at-eq cfg (F.cell v.store) (F.cell s) (slot_at cfg sector i) pl.head_fits
          pl.record_size_fits (λ y l u. sym (same.same_empty i y below e l u))
        ∙ e in
      same.same_empty i x below e lo hi ∙ L.tidy i below before x lo hi

  found_after :
      (s : Store)
      → IsSame F D cfg sector (F.cell v.store) (F.cell s)
      → (k : Key)
      → newest p D cfg (F.cell s) sector (max_records cfg) k
        ≡ newest p D cfg (F.cell v.store) sector (max_records cfg) k
  found_after s same k =
      newest-eq p D cfg (F.cell s) (F.cell v.store) sector (max_records cfg) k
        (λ i h. same.same_live i h)

  -- A volume that was loaded, and whose sector has the version of the configuration, is loaded again
  -- from its flash into any instance that has a dictionary, whatever is in it, and stands at the same
  -- sector, with memory to allocate: construct_lookup_table succeeds, and the volume holds what it held.
  pub construct_lookup_table-IsLoaded :
      (vol : Volume D.Dict) (d : D.Dict)
      → vol.dict ≡ some d
      → vol.sector ≡ sector
      → (get_sector_version p cfg v.store sector).0 ≡ cfg.version
      → (w' : World D.Dict Store) × (construct_lookup_table p D cfg (restarted v vol) ≡ done tt w')
        × IsLoaded F D cfg sector w'
        × ((k : Key) → contents F D cfg sector w' k ≡ contents F D cfg sector v k)
  unfolding contents
  construct_lookup_table-IsLoaded vol d is_dict at version =
      let (w', built, runs) =
        construct_lookup_table-IsBuilt M pl (restarted v vol) d is_dict at refl in
      let known : ((get_sector_version p cfg v.store sector).0 == cfg.version) ≡ true =
        ground (arith, version) in
      (
        w',
        runs ∙ ap (λ b. if b then done tt w' else stop e_version w') known,
        record {
          table = built.table;
          next_in = built.next_in;
          erased_behind =
              λ i lo hi. tidy_after w'.store built.same i hi (built.empty_behind i lo hi);
          tidy = tidy_after w'.store built.same;
          sole = λ i rec below h.
              found_after w'.store built.same (key_of D cfg rec)
              ∙ L.sole i rec below (sym (built.same.same_live i below) ∙ h);
        },
        λ k. ap bytes_of (found_after w'.store built.same k),
      )
