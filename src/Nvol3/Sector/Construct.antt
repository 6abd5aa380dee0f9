-- ===== src/Nvol3/Sector/Construct.antt =====
-- construct_lookup_table on a working flash.
use native.Mathlib.Nat.{zero-add}
use qoraal_flash.Common.{
  ℕ, ◌+◌, ◌≤◌, ◌<◌, ◌≡◌, refl, sym, ap, subst, ◌∙◌, ◌⊎◌, inl, inr, some, [], arith, ◌==◌,
  if◌then◌else◌, Bool-cases,
}
use qoraal_flash.Common.Run.{eok, e_empty, e_version, err, done, stop}
use qoraal_flash.Flash.{Platform}
use qoraal_flash.Flash.Nor.{NorFlash}
use qoraal_flash.Flash.Nor.Ranges.{bytes_at-eq}
use qoraal_flash.Nvol3.Dictionary.{Dictionary, IsMap}
use qoraal_flash.Nvol3.Volume.{Config, World, with_vol, max_records, page_size}
use qoraal_flash.Nvol3.Slot.Read.{Placed, record_at, slot_at}
use qoraal_flash.Nvol3.Table.{with_dict_lem}
use qoraal_flash.Nvol3.Sector.{
  build_loop, Scan, built, emptied, construct_lookup_table, get_sector_version,
}
use qoraal_flash.Nvol3.Sector.Scan.{IsListed, IsSame, IsScanned}
use qoraal_flash.Nvol3.Sector.Build.{build_loop-IsScanned}
use qoraal_flash.Nvol3.View.{newest, listed}

module _ {Store : Type 0} {p : Platform Store} (F : NorFlash p) (D : Dictionary) (cfg : Config)
    (sector : ℕ) where
  -- What construct_lookup_table leaves, from a store with the bytes `c`: the table lists the sector, the
  -- store has the same records, and there is no used slot from `next_idx` on.
  pub record IsBuilt (c : ℕ → ℕ) (w : World D.Dict Store) : Type 0 where
    pub table : IsListed F D cfg sector (max_records cfg) w
    pub same : IsSame F D cfg sector c (F.cell w.store)
    pub next_in : w.vol.next_idx ≤ max_records cfg
    pub empty_behind :
        (i : ℕ)
        → w.vol.next_idx ≤ i
        → i < max_records cfg
        → record_at cfg (F.cell w.store) (slot_at cfg sector i) ≡ err e_empty

-- The head of a sector is read from its bytes.
pub version_kept :
    {Store : Type 0} {p : Platform Store} (F : NorFlash p) (cfg : Config) (sector : ℕ)
    → Placed F cfg sector
    → (s s' : Store)
    → ((x : ℕ)
        → (x < sector + page_size) ⊎ (sector + cfg.sector_size ≤ x)
        → F.cell s' x ≡ F.cell s x)
    → get_sector_version p cfg s' sector ≡ get_sector_version p cfg s sector
unfolding get_sector_version
version_kept F cfg sector pl s s' same =
    let inside : sector + 16 < F.size = omega (arith, pl.in_flash, pl.page_fits) in
    rw
      (
        get_sector_version,
        F.read_ok s' sector 16 inside,
        F.read_ok s sector 16 inside,
        bytes_at-eq (F.cell s') (F.cell s) sector 16 (λ x lo hi. same x (inl (omega (arith, hi)))),
      )
      refl

module _ {Store : Type 0} {p : Platform Store} {F : NorFlash p} {D : Dictionary} (M : IsMap D)
    {cfg : Config} {sector : ℕ} (pl : Placed F cfg sector) where
  -- The instance behind the loop.
  settled : Scan p D cfg → World D.Dict Store
  settled scan =
      with_vol
        (λ v. record v {
          next_idx = scan.1;
          version = (get_sector_version p cfg scan.2.store scan.2.vol.sector).0;
        })
        scan.2

  built_lem :
      (scan : Scan p D cfg)
      → scan.0 ≡ eok
      → built p D cfg scan ≡ (
          if (get_sector_version p cfg scan.2.store scan.2.vol.sector).0 == cfg.version
          then done tt (settled scan)
          else stop e_version (settled scan))
  unfolding built settled
  built_lem (e, next, w) h =
      let v = (get_sector_version p cfg w.store w.vol.sector).0 in
      subst
        (λ e. built p D cfg (e, next, w) ≡ (
          if v == cfg.version
          then done tt (settled (e, next, w))
          else stop e_version (settled (e, next, w))))
        (sym h)
        (elim (Bool-cases (v == cfg.version)) [
          | inl same ↦ rw same refl
          | inr differ ↦ rw differ refl
        ])

  -- On a working flash and with memory to allocate, construct_lookup_table lists in the table for each
  -- key the last record with the flags VALID and the right checksum, and keeps all these records; the
  -- slots from `next_idx` on are empty. It succeeds where the sector has the version of the
  -- configuration, and returns E_VERSION elsewhere.
  pub construct_lookup_table-IsBuilt :
      (w : World D.Dict Store) (d : D.Dict)
      → w.vol.dict ≡ some d
      → w.vol.sector ≡ sector
      → w.allocations ≡ []
      → (w' : World D.Dict Store) × IsBuilt F D cfg sector (F.cell w.store) w'
        × (construct_lookup_table p D cfg w ≡ (
            if (get_sector_version p cfg w.store sector).0 == cfg.version
            then done tt w'
            else stop e_version w'))
  unfolding construct_lookup_table emptied newest listed settled
  construct_lookup_table-IsBuilt w d is_dict at memory =
      let w0 = emptied p D cfg d w in
      let start : IsListed F D cfg sector 0 w0 = record {
        dict = D.remove_all d;
        is_dict = refl;
        lists = λ k. M.get-remove_all d k;
        memory = memory;
        at_sector = at;
      } in
      let scan = build_loop p D cfg (max_records cfg) 0 0 w0 in
      let scanned : IsScanned F D cfg sector (F.cell w.store) (max_records cfg) scan =
        subst (λ m. IsScanned F D cfg sector (F.cell w.store) m scan) (zero-add (max_records cfg))
          (build_loop-IsScanned M pl (max_records cfg) 0 0 w0 (omega arith) (omega arith) start
            (λ i lo hi. absurd (omega (arith, hi)))) in
      let versions : (get_sector_version p cfg scan.2.store scan.2.vol.sector).0
          ≡ (get_sector_version p cfg w.store sector).0 =
        ap (λ x. (get_sector_version p cfg scan.2.store x).0) scanned.table.at_sector
        ∙ ap (λ x. x.0)
            (version_kept F cfg sector pl w.store scan.2.store scanned.same.same_outside) in
      (
        settled scan,
        record {
          table = record {
            dict = scanned.table.dict;
            is_dict = scanned.table.is_dict;
            lists = scanned.table.lists;
            memory = scanned.table.memory;
            at_sector = scanned.table.at_sector;
          };
          same = scanned.same;
          next_in = scanned.next_in;
          empty_behind = scanned.empty_behind;
        },
        with_dict_lem D cfg
              (λ d w.
                built p D cfg (build_loop p D cfg (max_records cfg) 0 0 (emptied p D cfg d w)))
              w is_dict
            ∙ built_lem scan scanned.succeeds
            ∙ ap
                (λ v.
                  if v == cfg.version
                  then done tt (settled scan)
                  else stop e_version (settled scan))
                versions,
      )
