-- ===== src/Nvol3/Loaded/Same.antt =====
-- A volume on another memory that has the same bytes in its sector, as after an erase of the other
-- sector.
use qoraal_flash.Common.{ℕ, ◌+◌, ◌-◌, ◌%◌, ◌≤◌, ◌<◌, ◌≡◌, refl, sym, ap, ◌∙◌, ◌⊎◌, arith}
use qoraal_flash.Common.Word.{add32, sub32}
use qoraal_flash.Common.Run.{done}
use qoraal_flash.Flash.{Platform}
use qoraal_flash.Flash.Nor.{NorFlash, blanked}
use qoraal_flash.Flash.Nor.Ranges.{bytes_at-eq}
use qoraal_flash.Nvol3.Dictionary.{Dictionary, Key}
use qoraal_flash.Nvol3.Volume.{Config, World, max_records, page_size}
use qoraal_flash.Nvol3.Slot.Read.{slot_room, Placed, record_at, slot_at}
use qoraal_flash.Nvol3.Slot.Frame.{record_at-eq}
use qoraal_flash.Nvol3.Sector.{get_sector_version, erase_sector}
use qoraal_flash.Nvol3.View.{listed, newest, newest-eq, live}
use qoraal_flash.Nvol3.Loaded.{IsLoaded}

-- Another sector of the same size, of whole pages of the flash, apart from the first.
pub record IsOther {Store : Type 0} {p : Platform Store} (F : NorFlash p) (cfg : Config)
    (sector other : ℕ) : Type 0 where
  pub from : other % F.page ≡ 0
  pub to : (other + cfg.sector_size) % F.page ≡ 0
  pub some_bytes : 0 < cfg.sector_size
  pub in_flash : other + cfg.sector_size < F.size
  pub in_space : other + cfg.sector_size < 4294967296
  pub apart : (sector + cfg.sector_size ≤ other) ⊎ (other + cfg.sector_size ≤ sector)

module _ {Store : Type 0} {p : Platform Store} {F : NorFlash p} {cfg : Config} {sector other : ℕ}
    (o : IsOther F cfg sector other) where
  abbrev pub erased_other : Store → Store
  erased_other s = F.blank s other (other + cfg.sector_size - 1)

  pub erase_other :
      {Dict : Type 0} (w : World Dict Store)
      → erase_sector p cfg other w ≡ done tt (record w { store = erased_other w.store })
  unfolding erase_sector
  erase_other w =
      let last : sub32 (add32 other cfg.sector_size) 1 ≡ other + cfg.sector_size - 1 =
        omega (arith, o.some_bytes, o.in_space) in
      let behind : other + cfg.sector_size - 1 + 1 ≡ other + cfg.sector_size =
        omega (arith, o.some_bytes) in
      rw
        (
          last,
          F.erase_ok w.store other (other + cfg.sector_size - 1) (omega (arith, o.some_bytes))
              (omega (arith, o.in_flash, o.some_bytes)) o.from (ap (λ x. x % F.page) behind ∙ o.to),
        )
        refl

  -- The bytes of the sector stay.
  pub erased_same :
      (s : Store) (x : ℕ)
      → sector ≤ x
      → x < sector + cfg.sector_size
      → F.cell (erased_other s) x ≡ F.cell s x
  unfolding blanked
  erased_same s x lo hi =
      F.cell_blank s other (other + cfg.sector_size - 1) x ∙ ground (arith, o.apart, o.some_bytes)

module _ {Store : Type 0} {p : Platform Store} {F : NorFlash p} {D : Dictionary} {cfg : Config}
    {sector : ℕ} (pl : Placed F cfg sector) where
  -- A volume is loaded where another memory has the same bytes in its sector.
  module _ (v : World D.Dict Store) (L : IsLoaded F D cfg sector v) (s : Store)
      (same : (x : ℕ)
        → sector + page_size ≤ x
        → x < sector + cfg.sector_size
        → F.cell s x ≡ F.cell v.store x) where
    pub same_slot :
        (i x : ℕ)
        → i < max_records cfg
        → slot_at cfg sector i ≤ x
        → x < slot_at cfg sector i + cfg.record_size
        → F.cell s x ≡ F.cell v.store x
    same_slot i x h lo hi = same x (omega arith) (omega (arith, slot_room pl i h))

    pub same_record :
        (i : ℕ)
        → i < max_records cfg
        → record_at cfg (F.cell s) (slot_at cfg sector i)
          ≡ record_at cfg (F.cell v.store) (slot_at cfg sector i)
    same_record i h =
        record_at-eq cfg (F.cell s) (F.cell v.store) (slot_at cfg sector i) pl.head_fits
          pl.record_size_fits (λ x lo hi. same_slot i x h lo hi)

    pub same_newest :
        (k : Key)
        → newest p D cfg (F.cell s) sector (max_records cfg) k
          ≡ newest p D cfg (F.cell v.store) sector (max_records cfg) k
    same_newest k =
        newest-eq p D cfg (F.cell s) (F.cell v.store) sector (max_records cfg) k
          (λ i h. ap (live p D cfg) (same_record i h))

    unfoldable pub IsLoaded-same : IsLoaded F D cfg sector (record v { store = s })
    IsLoaded-same = record {
      table = record {
        dict = L.table.dict;
        is_dict = L.table.is_dict;
        lists = λ k. L.table.lists k ∙ ap (listed p D cfg) (sym (same_newest k));
        memory = L.table.memory;
        at_sector = L.table.at_sector;
      };
      next_in = L.next_in;
      erased_behind =
          λ i lo hi x from to. same_slot i x hi from to ∙ L.erased_behind i lo hi x from to;
      tidy = λ i below e x from to.
          same_slot i x below from to ∙ L.tidy i below (sym (same_record i below) ∙ e) x from to;
      sole = λ i rec below h.
          same_newest _ ∙ L.sole i rec below (sym (ap (live p D cfg) (same_record i below)) ∙ h);
    }

-- The version and the flags stay as well.
pub version_same :
    {Store : Type 0} {p : Platform Store} {F : NorFlash p} {cfg : Config} {sector : ℕ}
    (pl : Placed F cfg sector) (s s' : Store)
    → ((x : ℕ) → sector ≤ x → x < sector + cfg.sector_size → F.cell s x ≡ F.cell s' x)
    → get_sector_version p cfg s sector ≡ get_sector_version p cfg s' sector
unfolding get_sector_version
version_same {F} {cfg} {sector} pl s s' same =
    let inside : sector + 16 < F.size = omega (arith, pl.in_flash, pl.page_fits) in
    rw
      (
        get_sector_version,
        F.read_ok s sector 16 inside,
        F.read_ok s' sector 16 inside,
        bytes_at-eq (F.cell s) (F.cell s') sector 16
            (λ x lo hi. same x lo (omega (arith, hi, pl.page_fits))),
      )
      refl
