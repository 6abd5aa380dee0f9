-- ===== src/Nvol3/Entry/Records.antt =====
-- The entry functions against the record functions.
use mathlib.Core.Path.{fun_ext}
use qoraal_flash.Common.{
  ℕ, ◌≡◌, refl, sym, ap, ◌∙◌, inl, inr, true, false, ◌-◌, ◌==◌, Option, none, some, List, [], arith,
  if◌then◌else◌, ltb, leb, length, drop, length-drop, Bool-cases, Option-cases,
}
use qoraal_flash.Common.Run.{Result, ok, err, stop, done, and_then, e_parm, e_notfound, e_invalid}
use qoraal_flash.Flash.{Platform}
use qoraal_flash.Flash.Nor.{NorFlash}
use qoraal_flash.Nvol3.Dictionary.{Dictionary, IsMap, Entry, Key}
use qoraal_flash.Nvol3.Volume.{Config, Record, World, with_vol, max_records, record_invalid}
use qoraal_flash.Common.Word.{add32}
use qoraal_flash.Nvol3.Slot.{set_variable_record_flags}
use qoraal_flash.Nvol3.Loaded.Delete.{IsRemoved, nvol3_record_delete-IsRemoved, outcome}
use qoraal_flash.Nvol3.Slot.Read.{Placed, record_at, slot_at}
use qoraal_flash.Nvol3.Table.{entry_of, with_dict_lem}
use qoraal_flash.Nvol3.Set.{nvol3_record_delete, delete_in}
use qoraal_flash.Nvol3.Entry.{
  nvol3_entry_delete, remove_node, delete_node, nvol3_entry_data, at_iterator,
}
use qoraal_flash.Nvol3.View.{
  newest, newest-some, listed, live-ok, record_at-length, record_at-IsFitting,
}
use qoraal_flash.Nvol3.Loaded.{IsLoaded, contents, bytes_of}
use qoraal_flash.Nvol3.Loaded.Get.{local_bytes, entry_length}

module _ {Store : Type 0} (p : Platform Store) {D : Dictionary} (M : IsMap D) (cfg : Config) where
  -- A node that the dictionary has is removed.
  remove_node-done :
      (d : D.Dict) (k : Key) (e : Entry) (w : World D.Dict Store)
      → D.get d k ≡ some e
      → remove_node p D cfg d k w
        ≡ done tt (
            with_vol
              (λ v. record v {
                inuse = if v.inuse == 0 then 0 else v.inuse - 1;
                invalid = add32 v.invalid 1;
                dict = some (D.remove d k);
              })
              w)
  unfolding remove_node
  remove_node-done d k e w h =
      let test : (D.removed d k == 0) ≡ false = ground (arith, M.get-removed d k e h) in
      rw test refl

  delete-at :
      (d : D.Dict) (bytes : List ℕ) (w : World D.Dict Store) (o : Option Entry)
      → D.get d (D.key_at bytes) ≡ o
      → delete_node p D cfg d (D.key_at bytes) w ≡ delete_in p D cfg d bytes w
  unfolding delete_node delete_in
  delete-at d bytes w none h = rw (delete_node, delete_in, h) refl
  delete-at d bytes w (some e) h =
      rw (delete_node, delete_in, h)
        (ap (and_then (set_variable_record_flags p cfg w.vol.sector record_invalid e.idx w))
          (fun_ext (λ _. fun_ext (λ w'. remove_node-done d (D.key_at bytes) e w' h))))

  -- With a dictionary nvol3_entry_delete at an iterator does what nvol3_record_delete does with the key at
  -- which the iterator stands, since the dictionary removes a node that it has.
  nvol3_entry_delete-nvol3_record_delete :
      (bytes : List ℕ) (w : World D.Dict Store) {d : D.Dict}
      → w.vol.dict ≡ some d
      → nvol3_entry_delete p D cfg (some (D.key_at bytes)) w ≡ nvol3_record_delete p D cfg bytes w
  unfolding nvol3_entry_delete nvol3_record_delete
  nvol3_entry_delete-nvol3_record_delete bytes w {d} is_dict =
      ap (λ o. elim o [ none ↦ stop e_parm w | some d ↦ delete_node p D cfg d (D.key_at bytes) w ])
        is_dict
      ∙ delete-at d bytes w (D.get d (D.key_at bytes)) refl
      ∙ sym (with_dict_lem D cfg (λ d. delete_in p D cfg d bytes) w is_dict)

-- On a loaded volume nvol3_entry_delete at an iterator leaves a loaded volume that holds nothing under
-- the key of the iterator, and the rest as before, and uses no slot; E_NOTFOUND is returned exactly
-- where nothing was held under it.
pub nvol3_entry_delete-IsRemoved :
    {Store : Type 0} {p : Platform Store} {F : NorFlash p} {D : Dictionary} (M : IsMap D)
    {cfg : Config} {sector : ℕ} (pl : Placed F cfg sector) (bytes : List ℕ) (w : World D.Dict Store)
    → IsLoaded F D cfg sector w
    → (w' : World D.Dict Store) × (nvol3_entry_delete p D cfg (some (D.key_at bytes)) w
        ≡ outcome (contents F D cfg sector w (D.key_at bytes)) w')
      × IsRemoved F D cfg sector (D.key_at bytes) w w'
nvol3_entry_delete-IsRemoved {p} M {cfg} pl bytes w L =
    let (w', runs, removed) = nvol3_record_delete-IsRemoved M pl bytes w L in
    (w', nvol3_entry_delete-nvol3_record_delete p M cfg bytes w L.table.is_dict ∙ runs, removed)

-- The answer for what is held under the key: its data without the key, if it fits into the cache.
abbrev pub data_answer : Config → Option (List ℕ) → Result (ℕ × List ℕ)
data_answer cfg none = err e_notfound
data_answer cfg (some held) =
    if ltb cfg.local_size (length (drop cfg.key_size held))
    then err e_invalid
    else ok (length (drop cfg.key_size held), drop cfg.key_size held)

module _ {Store : Type 0} {p : Platform Store} {F : NorFlash p} {D : Dictionary} {cfg : Config}
    {sector : ℕ} (pl : Placed F cfg sector) (w : World D.Dict Store) (L : IsLoaded F D cfg sector w)
    (key : Key) where
  data_entry :
      (i : ℕ) (r : Record)
      → newest p D cfg (F.cell w.store) sector (max_records cfg) key ≡ some (i, r)
      → (if ltb cfg.local_size (entry_of cfg r i []).length
          then err e_invalid
          else ok ((entry_of cfg r i []).length, (entry_of cfg r i []).local))
        ≡ data_answer cfg (some r.key_and_data)
  data_entry i r e =
      let (below, counts, keyed) =
        newest-some p D cfg (F.cell w.store) sector (max_records cfg) key e in
      let here =
        (live-ok p D cfg (record_at cfg (F.cell w.store) (slot_at cfg sector i)) counts).0 in
      let len = record_at-length cfg (F.cell w.store) (slot_at cfg sector i) here in
      let fit =
        record_at-IsFitting cfg (F.cell w.store) (slot_at cfg sector i) pl.head_fits
          pl.record_size_fits here in
      let size : (entry_of cfg r i []).length ≡ length (drop cfg.key_size r.key_and_data) =
        omega (arith, entry_length cfg r i fit, length-drop cfg.key_size r.key_and_data, len) in
      elim (Bool-cases (ltb cfg.local_size (length (drop cfg.key_size r.key_and_data)))) [
        | inl large ↦ rw (size, large) refl
        | inr small ↦
            let cached : leb (entry_of cfg r i []).length cfg.local_size ≡ true =
              rw size (ground (arith, small)) in
            rw (size, (local_bytes cfg r i fit len cached).0, small) refl
      ]

  found_data :
      {o : Option Entry}
      → D.get L.table.dict key ≡ o
      → nvol3_entry_data p D cfg (some key) w ≡ elim o [
        | none ↦ err e_notfound
        | some e ↦ if ltb cfg.local_size e.length then err e_invalid else ok (e.length, e.local)
      ]
  unfolding nvol3_entry_data at_iterator
  found_data e =
      ap
        (λ o. elim o [
          | none ↦ err e_parm
          | some d ↦ elim (D.get d key) [
            | none ↦ err e_notfound
            | some e ↦ if ltb cfg.local_size e.length then err e_invalid else ok (e.length, e.local)
          ]
        ])
        L.table.is_dict
      ∙ ap
          (λ o. elim o [
            | none ↦ err e_notfound
            | some e ↦ if ltb cfg.local_size e.length then err e_invalid else ok (e.length, e.local)
          ])
          e

  -- On a loaded volume nvol3_entry_data at an iterator gives the data that the volume holds under the
  -- key of the iterator and its length; E_INVALID where the data is larger than the cache, and
  -- E_NOTFOUND where the volume holds nothing.
  pub nvol3_entry_data_lem :
      nvol3_entry_data p D cfg (some key) w ≡ data_answer cfg (contents F D cfg sector w key)
  unfolding contents listed
  nvol3_entry_data_lem =
      elim (Option-cases (newest p D cfg (F.cell w.store) sector (max_records cfg) key)) [
        | inl nothing ↦
            found_data (L.table.lists key ∙ ap (listed p D cfg) nothing)
            ∙ ap (λ o. data_answer cfg (bytes_of o)) (sym nothing)
        | inr ((i, r), e) ↦
            found_data (L.table.lists key ∙ ap (listed p D cfg) e)
            ∙ data_entry i r e
            ∙ ap (λ o. data_answer cfg (bytes_of o)) (sym e)
      ]
