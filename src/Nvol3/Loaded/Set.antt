-- ===== src/Nvol3/Loaded/Set.antt =====
-- record_set on a loaded volume.
use qoraal_flash.Common.{
  ◌⊎◌, ◌≤◌, ℕ, suc, ◌+◌, ◌<◌, ◌≡◌, refl, sym, ap, ◌∙◌, inl, inr, false, none, some, List, [], arith,
  ◌==◌, if◌then◌else◌, length, Bool-cases,
}
use qoraal_flash.Common.Word.{sub32}
use qoraal_flash.Common.Run.{done}
use qoraal_flash.Flash.{Platform}
use qoraal_flash.Flash.Nor.{NorFlash}
use qoraal_flash.Nvol3.Dictionary.{same_key, Dictionary, IsMap, Key}
use qoraal_flash.Nvol3.Volume.{
  Config, Record, World, with_vol, u16, max_records, page_size, record_valid, record_invalid,
  invalid_var_idx,
}
use qoraal_flash.Nvol3.Slot.{set_variable_record_flags}
use qoraal_flash.Nvol3.Slot.Read.{Placed}
use qoraal_flash.Nvol3.Slot.Write.{set_variable_record_flags_lem}
use qoraal_flash.Nvol3.Slot.Commit.{committed, IsPayload}
use qoraal_flash.Nvol3.Table.{key_of, entry_of, insert_in, insert_lookup_table, with_dict_lem}
use qoraal_flash.Nvol3.Sector.{count_inuse, count_invalid}
use qoraal_flash.Nvol3.Sector.Build.{listed-IsTight}
use qoraal_flash.Nvol3.Set.{stamped, commit, retire, next_slot}
use qoraal_flash.Nvol3.View.{newest, newest-some, listed}
use qoraal_flash.Nvol3.View.Insert.{insert_in_lem}
use qoraal_flash.Nvol3.Loaded.{IsLoaded, contents, bytes_of}
use qoraal_flash.Nvol3.Loaded.Put.{written_store, committed_store}
use qoraal_flash.Nvol3.Loaded.Store.{
  IsPutStore, committed-IsPutStore, retired_store, retired-IsPutStore,
}

-- A volume after a record with the bytes `bytes` was put into `w`.
pub record IsPut {Store : Type 0} {p : Platform Store} (F : NorFlash p) (D : Dictionary)
    (cfg : Config) (sector : ℕ) (bytes : List ℕ) (w w' : World D.Dict Store) : Type 0 where
  pub loaded : IsLoaded F D cfg sector w'
  pub outside :
      (x : ℕ)
      → (x < sector + page_size) ⊎ (sector + cfg.sector_size ≤ x)
      → F.cell w'.store x ≡ F.cell w.store x
  pub next_near : w'.vol.next_idx ≤ suc w.vol.next_idx
  pub holds :
      (k : Key)
      → contents F D cfg sector w' k
        ≡ (if same_key (D.key_at bytes) k then some bytes else contents F D cfg sector w k)

module _ {Store : Type 0} {p : Platform Store} {F : NorFlash p} {D : Dictionary} (M : IsMap D)
    {cfg : Config} {sector : ℕ} (pl : Placed F cfg sector) (bytes : List ℕ)
    (pay : IsPayload cfg bytes) (w : World D.Dict Store) (L : IsLoaded F D cfg sector w)
    (room : w.vol.next_idx < max_records cfg) where
  abbrev W : Type 0
  W = World D.Dict Store

  abbrev rec : Record
  rec = stamped (length bytes) bytes

  abbrev m : ℕ
  m = w.vol.next_idx

  -- The instance before the lookup table follows.
  record IsStored (wr : W) : Type 0 where
    is_dict : wr.vol.dict ≡ some L.table.dict
    memory : wr.allocations ≡ []
    at_sector : wr.vol.sector ≡ sector
    next : wr.vol.next_idx ≡ suc m
    store_put : IsPutStore pl bytes pay w L room wr.store

  same_entry :
      entry_of cfg (stamped (length bytes) bytes) m [] ≡ entry_of cfg (committed bytes) m []
  unfolding stamped entry_of qoraal_flash.Nvol3.Table.data_of
  same_entry =
      let small : u16 (length bytes) ≡ length bytes = omega (arith, pay.fits, pay.slot_fits) in
      rw small refl

  listed_entry :
      (k : Key)
      → (if same_key (D.key_at bytes) k
          then some (entry_of cfg (stamped (length bytes) bytes) m [])
          else D.get L.table.dict k)
        ≡ listed p D cfg (
            if same_key (D.key_at bytes) k
            then some (m, committed bytes)
            else newest p D cfg (F.cell w.store) sector (max_records cfg) k)
  unfolding listed
  listed_entry k = elim (Bool-cases (same_key (D.key_at bytes) k)) [
    | inl e ↦ rw e (ap some same_entry)
    | inr e ↦ rw e (L.table.lists k)
  ]

  pub held_bytes :
      (k : Key)
      → bytes_of (
          if same_key (D.key_at bytes) k
          then some (m, committed bytes)
          else newest p D cfg (F.cell w.store) sector (max_records cfg) k)
        ≡ (if same_key (D.key_at bytes) k then some bytes else contents F D cfg sector w k)
  unfolding contents
  held_bytes k = elim (Bool-cases (same_key (D.key_at bytes) k)) [
    | inl e ↦ rw e refl
    | inr e ↦ rw e refl
  ]

  insert-IsPut :
      (wr : W)
      → IsStored wr
      → (w' : W) × (insert_lookup_table D cfg (stamped (length bytes) bytes) m wr ≡ done tt w')
        × IsPut F D cfg sector bytes w w'
  unfolding insert_lookup_table stamped contents
  insert-IsPut wr z =
      let (d', runs, gets) =
        insert_in_lem D M cfg L.table.dict (stamped (length bytes) bytes) m wr z.memory
          (listed-IsTight M pl (max_records cfg) w L.table (D.key_at bytes)) in
      let w' : W = with_vol (λ v. record v { dict = some d' }) wr in
      (
        w',
        with_dict_lem D cfg (λ d. insert_in D cfg d (stamped (length bytes) bytes) m) wr z.is_dict
            ∙ runs,
        record {
          loaded = record {
            table = record {
              dict = d';
              is_dict = refl;
              lists =
                  λ k. gets k ∙ listed_entry k ∙ sym (ap (listed p D cfg) (z.store_put.holds k));
              memory = z.memory;
              at_sector = z.at_sector;
            };
            next_in = omega (arith, z.next, room);
            erased_behind = λ i lo. z.store_put.blank_behind i (omega (arith, z.next, lo));
            sole = z.store_put.alone;
            tidy = z.store_put.tidy_store;
          };
          outside = z.store_put.outside_kept;
          next_near = omega (arith, z.next);
          holds = λ k. ap bytes_of (z.store_put.holds k) ∙ held_bytes k;
        },
      )

  -- The flags VALID over the record that is written.
  abbrev pub w1 : W
  w1 = record w { store = written_store F cfg sector bytes m w.store }

  w2 : W
  w2 =
      count_inuse p D cfg
        (next_slot p D cfg (record w1 { store = committed_store F cfg sector bytes m w.store }))

  w3 : ℕ → W
  w3 old = count_invalid p D cfg (
      with_vol (λ v. record v { inuse = sub32 v.inuse 1 })
        (record w2 { store = retired_store pl bytes pay w L room old }))

  pub mark_valid :
      set_variable_record_flags p cfg w1.vol.sector record_valid w1.vol.next_idx w1
      ≡ done tt (record w1 { store = committed_store F cfg sector bytes m w.store })
  mark_valid =
      ap (λ x. set_variable_record_flags p cfg x record_valid m w1) L.table.at_sector
      ∙ set_variable_record_flags_lem pl m room w1 record_valid

  next_of : u16 (m + 1) ≡ suc m
  next_of = omega (arith, room, pl.few)

  slot_of : u16 (u16 (m + 1) + 65535) ≡ m
  slot_of = omega (arith, room, pl.few)

  -- commit behind the write of the record, where no record has the key;
  pub commit-new :
      newest p D cfg (F.cell w.store) sector (max_records cfg) (D.key_at bytes) ≡ none
      → (w' : W) × (commit p D cfg (stamped (length bytes) bytes) invalid_var_idx w1 ≡ done tt w')
        × IsPut F D cfg sector bytes w w'
  unfolding commit retire w2
  commit-new nothing =
      let (w', runs, put) = insert-IsPut w2 (record {
        is_dict = L.table.is_dict;
        memory = L.table.memory;
        at_sector = L.table.at_sector;
        next = next_of;
        store_put = committed-IsPutStore pl bytes pay w L room nothing;
      }) in
      (w', rw (commit, mark_valid, slot_of) runs, put)

  -- and where one has, which is marked.
  pub commit-old :
      (old : ℕ) (r : Record)
      → newest p D cfg (F.cell w.store) sector (max_records cfg) (D.key_at bytes) ≡ some (old, r)
      → (w' : W) × (commit p D cfg (stamped (length bytes) bytes) old w1 ≡ done tt w')
        × IsPut F D cfg sector bytes w w'
  unfolding commit retire w2 w3
  commit-old old r e =
      let (below, counts, keyed) =
        newest-some p D cfg (F.cell w.store) sector (max_records cfg) (D.key_at bytes) e in
      let known : (old == invalid_var_idx) ≡ false = ground (arith, pl.few) in
      let mark : set_variable_record_flags p cfg w2.vol.sector record_invalid old w2
          ≡ done tt (record w2 { store = retired_store pl bytes pay w L room old }) =
        ap (λ x. set_variable_record_flags p cfg x record_invalid old w2) L.table.at_sector
        ∙ set_variable_record_flags_lem pl old below w2 record_invalid in
      let (w', runs, put) = insert-IsPut (w3 old) (record {
        is_dict = L.table.is_dict;
        memory = L.table.memory;
        at_sector = L.table.at_sector;
        next = next_of;
        store_put = retired-IsPutStore pl bytes pay w L room old r e;
      }) in
      (w', rw (commit, mark_valid, retire, known, mark, slot_of) runs, put)
