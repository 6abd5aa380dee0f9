-- ===== src/Nvol3/Loaded/Reopen.antt =====
-- nvol3_load on the flash of a volume that was in use, whatever a swap of sectors has made of the other
-- sector.
use mathlib.Core.Path.{subst}
use qoraal_flash.Nvol3.Swap.{set_sector}
use qoraal_flash.Common.{
  ℕ, ◌+◌, ◌≤◌, ◌<◌, ◌≡◌, ◌≢◌, refl, sym, ap, ◌∙◌, ◌⊎◌, inl, inr, some, [], arith,
}
use qoraal_flash.Common.Run.{done, state_of}
use qoraal_flash.Flash.{Platform}
use qoraal_flash.Flash.Nor.{NorFlash}
use qoraal_flash.Nvol3.Dictionary.{Dictionary, IsMap, Key}
use qoraal_flash.Nvol3.Volume.{Config, Volume, World, malloc}
use qoraal_flash.Nvol3.Slot.Read.{Placed}
use qoraal_flash.Nvol3.Sector.{construct_lookup_table, get_sector_version, erase_sector}
use qoraal_flash.Nvol3.Load.{
  SectorState, empty, initializing, valid, invalid, unknown, sector_state, init_choice, clean, act,
  init_sectors, new_dictionary, nvol3_load,
}
use qoraal_flash.Nvol3.Loaded.{IsLoaded, contents, bytes_of}
use qoraal_flash.Nvol3.Loaded.Reload.{restarted, construct_lookup_table-IsLoaded}
use qoraal_flash.Nvol3.Loaded.Same.{
  IsOther, erase_other, erased_same, IsLoaded-same, same_newest, version_same,
}

module _ {Store : Type 0} {p : Platform Store} (F : NorFlash p) (D : Dictionary) (cfg : Config)
    (sector : ℕ) where
  -- An instance that is being loaded, with an empty dictionary, over a memory in which the sector is as
  -- it is in `v`.
  record IsOpening (v w : World D.Dict Store) : Type 0 where
    same : (x : ℕ) → sector ≤ x → x < sector + cfg.sector_size → F.cell w.store x ≡ F.cell v.store x
    memory : w.allocations ≡ []
    is_dict : w.vol.dict ≡ some D.init

  erase-IsOpening :
      {other : ℕ} (o : IsOther F cfg sector other) (v w : World D.Dict Store)
      → IsOpening v w
      → IsOpening v (state_of (erase_sector p cfg other w))
        × ((state_of (erase_sector p cfg other w)).vol.sector ≡ w.vol.sector)
  erase-IsOpening o v w h = rw (erase_other o w) (
    record {
      same = λ x lo hi. erased_same o w.store x lo hi ∙ h.same x lo hi;
      memory = h.memory;
      is_dict = h.is_dict;
    },
    refl,
  )

  -- `instance->next_idx = 0` of init_sectors.
  abbrev rewound : World D.Dict Store → World D.Dict Store
  rewound w = record w { vol = record w.vol { next_idx = 0 } }

  -- The instance that init_sectors has chosen stands at the sector of the volume.
  abbrev IsChosen : World D.Dict Store → World D.Dict Store → Type 0
  IsChosen v w = IsOpening v w × (w.vol.sector ≡ sector)

  reset-IsOpening : (v w : World D.Dict Store) → IsOpening v w → IsOpening v (rewound w)
  reset-IsOpening v w h = record { same = h.same; memory = h.memory; is_dict = h.is_dict }

  set-IsOpening :
      (x : ℕ) (v w : World D.Dict Store) → IsOpening v w → IsOpening v (set_sector p D cfg x w)
  set-IsOpening x v w h = record { same = h.same; memory = h.memory; is_dict = h.is_dict }

  set-IsChosen :
      {x : ℕ} (v w : World D.Dict Store)
      → sector ≡ x
      → IsOpening v w
      → IsChosen v (set_sector p D cfg x w)
  set-IsChosen {x} v w at h = (set-IsOpening x v w h, sym at)

  -- Where sector 1 is VALID it is chosen, whatever the flags of sector 2.
  first-IsChosen :
      (o : IsOther F cfg sector cfg.sector2_addr)
      → sector ≡ cfg.sector1_addr
      → (s2 : SectorState) (v w : World D.Dict Store) → IsOpening v w
      → let c = clean p D cfg cfg.sector2_addr s2 w in
        IsChosen v (act p D cfg (init_choice valid c.0) (rewound c.1))
  unfolding clean init_choice act
  first-IsChosen o at s2 v w h =
      elim s2
        as (λ s.
          let c = clean p D cfg cfg.sector2_addr s w in
          IsChosen v (act p D cfg (init_choice valid c.0) (rewound c.1))) [
            | empty ↦ erased w h
            | initializing ↦ erased w h
            | valid ↦ erased w h
            | invalid ↦ erased w h
            | unknown ↦
                erased (state_of (erase_sector p cfg cfg.sector2_addr w))
                  (erase-IsOpening o v w h).0
          ]
    where
      erased :
          (u : World D.Dict Store)
          → IsOpening v u
          → IsChosen v (
              set_sector p D cfg cfg.sector1_addr
                (state_of (erase_sector p cfg cfg.sector2_addr (rewound u))))
      erased u k = set-IsChosen v _ at (erase-IsOpening o v (rewound u) (reset-IsOpening v u k)).0

  -- Where sector 2 is VALID and sector 1 is not, it is chosen.
  second-IsChosen :
      (o : IsOther F cfg sector cfg.sector1_addr)
      → sector ≡ cfg.sector2_addr
      → (s1 : SectorState) (v w : World D.Dict Store) → s1 ≢ valid
      → IsOpening v w
      → let c = clean p D cfg cfg.sector1_addr s1 w in
        IsChosen v (act p D cfg (init_choice c.0 valid) (rewound c.1))
  unfolding clean init_choice act
  second-IsChosen o at s1 v w n h = go s1 n
    where
      erased : IsChosen v (
          state_of
            (erase_sector p cfg cfg.sector1_addr (set_sector p D cfg cfg.sector2_addr (rewound w))))
      erased =
          let e =
            erase-IsOpening o v (set_sector p D cfg cfg.sector2_addr (rewound w))
              (set-IsOpening cfg.sector2_addr v (rewound w) (reset-IsOpening v w h)) in
          (e.0, e.1 ∙ sym at)

      go :
          (s : SectorState)
          → s ≢ valid
          → let c = clean p D cfg cfg.sector1_addr s w in
            IsChosen v (act p D cfg (init_choice c.0 valid) (rewound c.1))
      go empty m = set-IsChosen v (rewound w) at (reset-IsOpening v w h)
      go initializing m = erased
      go valid m = absurd (m refl)
      go invalid m = erased
      go unknown m =
          let u = state_of (erase_sector p cfg cfg.sector1_addr w) in
          set-IsChosen v (rewound u) at (reset-IsOpening v u (erase-IsOpening o v w h).0)

  -- The flags of the two sectors make the sector the one in use: it is sector 1, which is VALID, or it
  -- is sector 2, which is VALID where sector 1 is not.
  abbrev pub InUse : SectorState → SectorState → ℕ → Type 0
  InUse s1 s2 other =
      ((sector ≡ cfg.sector1_addr) × (other ≡ cfg.sector2_addr) × (s1 ≡ valid))
      ⊎ ((sector ≡ cfg.sector2_addr) × (other ≡ cfg.sector1_addr) × (s2 ≡ valid) × (s1 ≢ valid))

  choice-IsChosen :
      {other : ℕ} (o : IsOther F cfg sector other) (s1 s2 : SectorState) (v w : World D.Dict Store)
      → InUse s1 s2 other
      → IsOpening v w
      → let c1 = clean p D cfg cfg.sector1_addr s1 w in
        let c2 = clean p D cfg cfg.sector2_addr s2 c1.1 in
        IsChosen v (act p D cfg (init_choice c1.0 c2.0) (rewound c2.1))
  unfolding clean
  choice-IsChosen o s1 s2 v w (inl (at, beside, is_valid)) h =
      subst
        (λ s.
          let c1 = clean p D cfg cfg.sector1_addr s w in
          let c2 = clean p D cfg cfg.sector2_addr s2 c1.1 in
          IsChosen v (act p D cfg (init_choice c1.0 c2.0) (rewound c2.1)))
        (sym is_valid) (first-IsChosen (subst (IsOther F cfg sector) beside o) at s2 v w h)
  choice-IsChosen o s1 s2 v w (inr (at, beside, is_valid, n)) h =
      subst
        (λ s.
          let c1 = clean p D cfg cfg.sector1_addr s1 w in
          let c2 = clean p D cfg cfg.sector2_addr s c1.1 in
          IsChosen v (act p D cfg (init_choice c1.0 c2.0) (rewound c2.1)))
        (sym is_valid) (second-IsChosen (subst (IsOther F cfg sector) beside o) at s1 v w n h)

-- The flags of a sector.
abbrev pub flags_of : {Store : Type 0} → Platform Store → Config → Store → ℕ → SectorState
flags_of p cfg s a = sector_state (get_sector_version p cfg s a).1

pub nvol3_load-IsLoaded :
    {Store : Type 0} {p : Platform Store} {F : NorFlash p} {D : Dictionary} (M : IsMap D)
    {cfg : Config} {sector other : ℕ} (pl : Placed F cfg sector) (o : IsOther F cfg sector other)
    (v : World D.Dict Store) (vol : Volume D.Dict)
    → IsLoaded F D cfg sector v
    → (get_sector_version p cfg v.store sector).0 ≡ cfg.version
    → InUse F D cfg sector
        (flags_of p cfg v.store cfg.sector1_addr)
        (flags_of p cfg v.store cfg.sector2_addr)
        other
    → (w' : World D.Dict Store) × (nvol3_load p D cfg (restarted v vol) ≡ done tt w')
      × IsLoaded F D cfg sector w'
      × ((k : Key) → contents F D cfg sector w' k ≡ contents F D cfg sector v k)
unfolding nvol3_load new_dictionary malloc init_sectors contents
nvol3_load-IsLoaded {p} {F} {D} M {cfg} {sector} pl o v vol L version in_use =
    let start : World D.Dict _ = record {
      vol = record vol { sector = 0; next_idx = 0; inuse = 0; invalid = 0; dict = some D.init };
      store = v.store;
      allocations = [];
    } in
    let s1 = flags_of p cfg v.store cfg.sector1_addr in
    let s2 = flags_of p cfg v.store cfg.sector2_addr in
    let c1 = clean p D cfg cfg.sector1_addr s1 start in
    let c2 = clean p D cfg cfg.sector2_addr s2 c1.1 in
    let a =
      act p D cfg (init_choice c1.0 c2.0)
        (record c2.1 { vol = record c2.1.vol { next_idx = 0 } }) in
    let (opening, at) =
      choice-IsChosen F D cfg sector o s1 s2 v start in_use
        (record { same = λ x lo hi. refl; memory = refl; is_dict = refl }) in
    let (w', runs, loaded, holds) =
      construct_lookup_table-IsLoaded M pl (record v { store = a.store })
        (IsLoaded-same pl v L a.store (λ x lo hi. opening.same x (omega arith) hi)) a.vol D.init
        opening.is_dict at
        (ap (λ x. x.0) (version_same pl a.store v.store opening.same) ∙ version) in
    (
      w',
      ap (λ l. construct_lookup_table p D cfg (record a { allocations = l })) opening.memory ∙ runs,
      loaded,
      λ k.
          holds k
          ∙ ap bytes_of (same_newest pl v L a.store (λ x lo hi. opening.same x (omega arith) hi) k),
    )
