-- ===== src/Nvol3/Loaded.antt =====
-- A loaded volume and what it holds.
pub mod Put
pub mod Store
pub mod Set
pub mod RecordSet
pub mod Delete
pub mod Get
pub mod Crash
pub mod Reload
pub mod Same
pub mod Reopen
pub mod Tests
pub mod TwoValid
use qoraal_flash.Common.{ℕ, ◌+◌, ◌≤◌, ◌<◌, ◌≡◌, Option, none, some, List, arith, ◌*◌}
use qoraal_flash.Common.Run.{err, e_empty}
use qoraal_flash.Flash.{Platform}
use qoraal_flash.Flash.Nor.{NorFlash}
use qoraal_flash.Flash.Nor.Ranges.{Erased}
use qoraal_flash.Nvol3.Dictionary.{Dictionary, Key}
use qoraal_flash.Nvol3.Volume.{Config, Record, World, max_records}
use qoraal_flash.Nvol3.Slot.Read.{slot_at, record_at}
use qoraal_flash.Nvol3.Table.{key_of}
use qoraal_flash.Nvol3.Sector.Scan.{IsListed}
use qoraal_flash.Nvol3.View.{newest}
use qoraal_flash.Nvol3.View.Update.{live_at}

-- The bytes of what is found.
abbrev pub bytes_of : Option (ℕ × Record) → Option (List ℕ)
bytes_of none = none
bytes_of (some (i, rec)) = some rec.key_and_data

module _ {Store : Type 0} {p : Platform Store} (F : NorFlash p) (D : Dictionary) (cfg : Config)
    (sector : ℕ) where
  -- What the volume holds under a key: the key and the data of the last record that counts.
  unfoldable pub contents : World D.Dict Store → Key → Option (List ℕ)
  contents w k = bytes_of (newest p D cfg (F.cell w.store) sector (max_records cfg) k)

  -- A loaded volume: the table lists the sector, every record that counts is the only one of its key,
  -- the slots from `next_idx` on are erased, and so is every slot with the flags EMPTY.
  pub record IsLoaded (w : World D.Dict Store) : Type 0 where
    pub table : IsListed F D cfg sector (max_records cfg) w
    pub next_in : w.vol.next_idx ≤ max_records cfg
    pub erased_behind :
        (i : ℕ)
        → w.vol.next_idx ≤ i
        → i < max_records cfg
        → Erased (F.cell w.store) (slot_at cfg sector i) cfg.record_size
    pub tidy :
        (i : ℕ)
        → i < max_records cfg
        → record_at cfg (F.cell w.store) (slot_at cfg sector i) ≡ err e_empty
        → Erased (F.cell w.store) (slot_at cfg sector i) cfg.record_size
    pub sole :
        (i : ℕ) (rec : Record)
        → i < max_records cfg
        → live_at p D cfg sector (F.cell w.store) i ≡ some rec
        → newest p D cfg (F.cell w.store) sector (max_records cfg) (key_of D cfg rec)
          ≡ some (i, rec)
