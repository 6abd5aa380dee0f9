-- ===== src/Nvol3/Sector/Scan.antt =====
-- construct_lookup_table on a working flash: what its loop leaves.
use qoraal_flash.Common.{
  ℕ, suc, ◌+◌, ◌≤◌, ◌<◌, ◌≡◌, refl, sym, ap, ◌∙◌, ◌⊎◌, inl, inr, true, none, some, [], arith, ◌==◌,
  Bool-cases,
}
use mathlib.Core.Path.{fun_ext}
use qoraal_flash.Common.Run.{Status, eok, e_empty, e_invalid, err}
use qoraal_flash.Flash.{Platform}
use qoraal_flash.Flash.Nor.{NorFlash}
use qoraal_flash.Nvol3.Dictionary.{Dictionary, Key}
use qoraal_flash.Nvol3.Volume.{Config, World, u16_bytes, max_records, page_size, record_invalid}
use qoraal_flash.Nvol3.Slot.Read.{Placed, record_at, slot_at}
use qoraal_flash.Nvol3.Slot.Frame.{
  IsWrite, record_at-eq, record_at-other, IsWrite-other, IsWrite-outside,
}
use qoraal_flash.Nvol3.Slot.Write.{record_at-invalid}
use qoraal_flash.Nvol3.Sector.{Scan, is_empty}
use qoraal_flash.Nvol3.View.{live, newest, prefer, listed}

pub is_empty-eq : (e : Status) → is_empty e ≡ true → e ≡ e_empty
unfolding is_empty
is_empty-eq e_empty h = refl
is_empty-eq e h = cc

module _ {Store : Type 0} {p : Platform Store} (F : NorFlash p) (D : Dictionary) (cfg : Config)
    (sector : ℕ) where
  -- The table lists what the first `n` slots of the sector hold.
  pub record IsListed (n : ℕ) (w : World D.Dict Store) : Type 0 where
    pub dict : D.Dict
    pub is_dict : w.vol.dict ≡ some dict
    pub lists :
        (k : Key) → D.get dict k ≡ listed p D cfg (newest p D cfg (F.cell w.store) sector n k)
    pub memory : w.allocations ≡ []
    pub at_sector : w.vol.sector ≡ sector

  -- The second memory has the same records as the first one that count, and the same bytes outside the
  -- slots and in its empty slots.
  pub record IsSame (c d : ℕ → ℕ) : Type 0 where
    pub same_live :
        (i : ℕ)
        → i < max_records cfg
        → live p D cfg (record_at cfg d (slot_at cfg sector i))
          ≡ live p D cfg (record_at cfg c (slot_at cfg sector i))
    pub same_outside :
        (x : ℕ) → (x < sector + page_size) ⊎ (sector + cfg.sector_size ≤ x) → d x ≡ c x
    pub same_empty :
        (i x : ℕ)
        → i < max_records cfg
        → record_at cfg d (slot_at cfg sector i) ≡ err e_empty
        → slot_at cfg sector i ≤ x
        → x < slot_at cfg sector i + cfg.record_size
        → d x ≡ c x

  -- What the loop leaves after the slots below `m`, from the store with the bytes `c`.
  pub record IsScanned (c : ℕ → ℕ) (m : ℕ) (scan : Scan p D cfg) : Type 0 where
    pub succeeds : scan.0 ≡ eok
    pub table : IsListed m scan.2
    pub same : IsSame c (F.cell scan.2.store)
    pub next_in : scan.1 ≤ m
    pub empty_behind :
        (i : ℕ)
        → scan.1 ≤ i
        → i < m
        → record_at cfg (F.cell scan.2.store) (slot_at cfg sector i) ≡ err e_empty

  pub IsSame-refl : (c : ℕ → ℕ) → IsSame c c
  IsSame-refl c = record {
    same_live = λ i h. refl;
    same_outside = λ x h. refl;
    same_empty = λ i x h e lo hi. refl;
  }

  pub IsScanned-from :
      Placed F cfg sector
      → {c d : ℕ → ℕ} {m : ℕ} {scan : Scan p D cfg} → IsSame c d
      → IsScanned d m scan
      → IsScanned c m scan
  IsScanned-from pl {c} {d} {m} {scan} s z = record {
    succeeds = z.succeeds;
    table = z.table;
    same = record {
      same_live = λ i h. z.same.same_live i h ∙ s.same_live i h;
      same_outside = λ x h. z.same.same_outside x h ∙ s.same_outside x h;
      same_empty = λ i x h e lo hi.
          z.same.same_empty i x h e lo hi
          ∙ s.same_empty i x h
              (record_at-eq cfg d (F.cell scan.2.store) (slot_at cfg sector i) pl.head_fits
                  pl.record_size_fits (λ y l u. sym (z.same.same_empty i y h e l u))
                ∙ e)
              lo hi;
    };
    next_in = z.next_in;
    empty_behind = z.empty_behind;
  }

  -- A slot without a record that counts adds nothing to the table.
  pub IsListed-skip :
      (n : ℕ) (w : World D.Dict Store)
      → live p D cfg (record_at cfg (F.cell w.store) (slot_at cfg sector n)) ≡ none
      → IsListed n w
      → IsListed (suc n) w
  unfolding newest prefer
  IsListed-skip n w nothing t = record {
    dict = t.dict;
    is_dict = t.is_dict;
    lists = λ k. t.lists k ∙ ap (listed p D cfg) (cc nothing);
    memory = t.memory;
    at_sector = t.at_sector;
  }

  -- Marking a record that does not count as invalid.
  pub mark_invalid-IsSame :
      Placed F cfg sector
      → {c d : ℕ → ℕ} (i : ℕ) → i < max_records cfg
      → live p D cfg (record_at cfg c (slot_at cfg sector i)) ≡ none
      → IsWrite cfg sector i (u16_bytes record_invalid) c d
      → IsSame c d
  unfolding live
  mark_invalid-IsSame pl {c} {d} i h nothing wr = record {
    same_live = λ j hj. elim (Bool-cases (i == j)) [
      | inl e ↦ let at : j ≡ i = ground arith in rw at (ap (live p D cfg) gone ∙ sym nothing)
      | inr e ↦ ap (live p D cfg) (record_at-other pl wr j (ground arith))
    ];
    same_outside = IsWrite-outside pl wr h;
    same_empty = λ j x hj e lo hi. elim (Bool-cases (i == j)) [
      | inl same ↦ let at : j ≡ i = ground arith in absurd (cc (e, gone, at))
      | inr apart ↦ IsWrite-other pl wr j x (ground arith) lo hi
    ];
  }
    where
      gone : record_at cfg d (slot_at cfg sector i) ≡ err e_invalid
      gone =
          ap (λ m. record_at cfg m (slot_at cfg sector i)) wr.writes
          ∙ record_at-invalid cfg c (slot_at cfg sector i)

  -- Marking a slot on the flash is such a write.
  pub flags-IsWrite :
      Placed F cfg sector
      → (s : Store) (i flags : ℕ)
      → IsWrite cfg sector i
          (u16_bytes flags)
          (F.cell s)
          (F.cell (F.program s (slot_at cfg sector i) (u16_bytes flags)))
  unfolding u16_bytes
  flags-IsWrite pl s i flags = record {
    within = omega (arith, pl.head_fits);
    writes = fun_ext (F.cell_program s (slot_at cfg sector i) (u16_bytes flags));
  }
