-- ===== src/Nvol3/Loaded/Delete.antt =====
-- nvol3_record_delete on a loaded volume.
use qoraal_flash.Common.{
  ℕ, ◌-◌, ◌≤◌, ◌<◌, ◌≡◌, refl, sym, ap, ◌∙◌, ◌⊎◌, inl, inr, false, Option, none, some, List, [],
  arith, ◌==◌, if◌then◌else◌, Bool-cases, Option-cases,
}
use qoraal_flash.Common.Word.{add32}
use qoraal_flash.Common.Run.{Run, err, done, stop, and_then, e_notfound, e_empty}
use qoraal_flash.Flash.{Platform}
use qoraal_flash.Flash.Nor.{NorFlash}
use qoraal_flash.Flash.Nor.Ranges.{Erased}
use qoraal_flash.Nvol3.Dictionary.{same_key, Dictionary, IsMap, Key}
use qoraal_flash.Nvol3.Volume.{
  Config, Record, World, with_vol, u16_bytes, max_records, record_invalid,
}
use qoraal_flash.Nvol3.Slot.{set_variable_record_flags}
use qoraal_flash.Nvol3.Slot.Read.{Placed, slot_at, record_at}
use qoraal_flash.Nvol3.Slot.Frame.{record_at-other, IsWrite-other, IsWrite-tidy}
use qoraal_flash.Nvol3.Slot.Write.{set_variable_record_flags_lem, record_at-invalid}
use qoraal_flash.Nvol3.Table.{key_of, with_dict_lem, entry_of}
use qoraal_flash.Nvol3.Sector.Scan.{flags-IsWrite}
use qoraal_flash.Nvol3.Set.{nvol3_record_delete, delete_in}
use qoraal_flash.Nvol3.View.{same_key-eq, same_key-ne, live, newest, newest-some, listed}
use qoraal_flash.Nvol3.View.Update.{live_at, none-IsOther, newest-other}
use qoraal_flash.Nvol3.Loaded.{IsLoaded, contents, bytes_of}
use qoraal_flash.Nvol3.Loaded.Put.{record_at-Erased}

-- A volume after the record under a key was removed from `w`.
pub record IsRemoved {Store : Type 0} {p : Platform Store} (F : NorFlash p) (D : Dictionary)
    (cfg : Config) (sector : ℕ) (key : Key) (w w' : World D.Dict Store) : Type 0 where
  pub loaded : IsLoaded F D cfg sector w'
  pub next_same : w'.vol.next_idx ≡ w.vol.next_idx
  pub holds :
      (k : Key)
      → contents F D cfg sector w' k
        ≡ (if same_key key k then none else contents F D cfg sector w k)

-- What a delete is to return, by what is held under its key, and the volume it is to leave.
abbrev pub outcome : {W : Type 0} → Option (List ℕ) → W → Run W (Unit {0})
outcome none w' = stop e_notfound w'
outcome (some held) w' = done tt w'

module _ {Store : Type 0} {p : Platform Store} {F : NorFlash p} {D : Dictionary} (M : IsMap D)
    {cfg : Config} {sector : ℕ} (pl : Placed F cfg sector) (bytes : List ℕ) (w : World D.Dict Store)
    (L : IsLoaded F D cfg sector w) where
  abbrev W : Type 0
  W = World D.Dict Store

  abbrev key : Key
  key = D.key_at bytes

  abbrev found_in : Store → Key → Option (ℕ × Record)
  found_in s = newest p D cfg (F.cell s) sector (max_records cfg)

  abbrev live_in : Store → ℕ → Option Record
  live_in s = live_at p D cfg sector (F.cell s)

  module _ (i : ℕ) (r : Record) (e : found_in w.store key ≡ some (i, r)) where
    abbrev s' : Store
    s' = F.program w.store (slot_at cfg sector i) (u16_bytes record_invalid)

    gone : live_in s' i ≡ none
    unfolding live
    gone =
        ap (λ c. live p D cfg (record_at cfg c (slot_at cfg sector i)))
          (flags-IsWrite F D cfg sector pl w.store i record_invalid).writes
        ∙ ap (live p D cfg) (record_at-invalid cfg (F.cell w.store) (slot_at cfg sector i))

    kept : (j : ℕ) → (i < j) ⊎ (j < i) → live_in s' j ≡ live_in w.store j
    kept j apart =
        ap (live p D cfg)
          (record_at-other pl (flags-IsWrite F D cfg sector pl w.store i record_invalid) j apart)

    -- What still counts counted before, under another key.
    survivor :
        (j : ℕ) (r' : Record)
        → j < max_records cfg
        → live_in s' j ≡ some r'
        → (found_in w.store (key_of D cfg r') ≡ some (j, r'))
          × (same_key key (key_of D cfg r') ≡ false)
    survivor j r' below counts = elim (Bool-cases (j == i)) [
      | inl at ↦ let here : j ≡ i = ground arith in absurd (cc (counts, here, gone))
      | inr other ↦
          let before : found_in w.store (key_of D cfg r') ≡ some (j, r') =
            L.sole j r' below (sym (kept j (ground arith)) ∙ counts) in
          elim (Bool-cases (same_key key (key_of D cfg r'))) [
            | inr differ ↦ (before, differ)
            | inl same ↦
                let here : i ≡ j =
                  cc (e, ap (found_in w.store) (same_key-eq key (key_of D cfg r') same), before) in
                absurd (ground arith)
          ]
    ]

    found_after : (k : Key) → found_in s' k ≡ (if same_key key k then none else found_in w.store k)
    found_after k =
        let (below, counts, keyed) =
          newest-some p D cfg (F.cell w.store) sector (max_records cfg) key e in
        elim (Bool-cases (same_key key k)) [
          | inr other ↦ rw other (
              newest-other p D cfg sector (F.cell w.store) (F.cell s') i (max_records cfg) k
                (λ i h. kept i) (none-IsOther p D cfg sector k (live_in s' i) gone)
                (λ rec h. cc (h, counts, keyed, other)))
          | inl same ↦ rw same (elim (Option-cases (found_in s' k)) [
            | inl nothing ↦ nothing
            | inr ((j, r'), h) ↦
                let there = newest-some p D cfg (F.cell s') sector (max_records cfg) k h in
                let left = survivor j r' there.0 there.1 in absurd (cc (left.1, there.2, same))
          ])
        ]

    alone_after :
        (j : ℕ) (r' : Record)
        → j < max_records cfg
        → live_in s' j ≡ some r'
        → found_in s' (key_of D cfg r') ≡ some (j, r')
    alone_after j r' below counts =
        let left = survivor j r' below counts in found_after (key_of D cfg r') ∙ rw left.1 left.0

    blank_after :
        (j : ℕ)
        → w.vol.next_idx ≤ j
        → j < max_records cfg
        → Erased (F.cell s') (slot_at cfg sector j) cfg.record_size
    unfolding live
    blank_after j lo hi x from to = elim (Bool-cases (j == i)) [
      | inl at ↦
          let here : j ≡ i = ground arith in
          let counts = (newest-some p D cfg (F.cell w.store) sector (max_records cfg) key e).1 in
          let nothing : live_in w.store j ≡ none = ap (live p D cfg) (
            record_at-Erased cfg (F.cell w.store) (slot_at cfg sector j) pl.head_fits
              (L.erased_behind j lo hi)) in
          absurd (cc (counts, nothing, here))
      | inr other ↦
          IsWrite-other pl (flags-IsWrite F D cfg sector pl w.store i record_invalid) j x
            (ground arith) from to
          ∙ L.erased_behind j lo hi x from to
    ]

    tidy_after :
        (j : ℕ)
        → j < max_records cfg
        → record_at cfg (F.cell s') (slot_at cfg sector j) ≡ err e_empty
        → Erased (F.cell s') (slot_at cfg sector j) cfg.record_size
    tidy_after =
        let mark = flags-IsWrite F D cfg sector pl w.store i record_invalid in
        IsWrite-tidy pl mark
          (λ e. cc (
            e,
            ap (λ c. record_at cfg c (slot_at cfg sector i)) mark.writes,
            record_at-invalid cfg (F.cell w.store) (slot_at cfg sector i),
          ))
          L.tidy

    -- The volume behind the delete.
    deleted : W
    deleted =
        with_vol
          (λ v. record v {
            inuse = if v.inuse == 0 then 0 else v.inuse - 1;
            invalid = add32 v.invalid 1;
            dict = some (D.remove L.table.dict key);
          })
          (record w { store = s' })

    lists_after : (k : Key) → D.get (D.remove L.table.dict key) k ≡ listed p D cfg (found_in s' k)
    unfolding listed
    lists_after k = elim (Bool-cases (same_key key k)) [
      | inl same ↦
          ap (D.get (D.remove L.table.dict key)) (sym (same_key-eq key k same))
          ∙ M.get-remove L.table.dict key
          ∙ ap (listed p D cfg)
              (sym (found_after k ∙ ap (λ b. if b then none else found_in w.store k) same))
      | inr other ↦
          M.get-remove_ne L.table.dict key k (same_key-ne key k other)
          ∙ L.table.lists k
          ∙ ap (listed p D cfg)
              (sym (found_after k ∙ ap (λ b. if b then none else found_in w.store k) other))
    ]

    held :
        (k : Key)
        → bytes_of (if same_key key k then none else found_in w.store k)
          ≡ (if same_key key k then none else contents F D cfg sector w k)
    unfolding contents
    held k = elim (Bool-cases (same_key key k)) [ inl e ↦ rw e refl | inr e ↦ rw e refl ]

    deleted-IsRemoved : IsRemoved F D cfg sector key w deleted
    unfolding deleted contents
    deleted-IsRemoved = record {
      loaded = record {
        table = record {
          dict = D.remove L.table.dict key;
          is_dict = refl;
          lists = λ k. lists_after k;
          memory = L.table.memory;
          at_sector = L.table.at_sector;
        };
        next_in = L.next_in;
        erased_behind = blank_after;
        sole = alone_after;
        tidy = tidy_after;
      };
      next_same = refl;
      holds = λ k. ap bytes_of (found_after k) ∙ held k;
    }

  not_found :
      D.get L.table.dict key ≡ none → delete_in p D cfg L.table.dict bytes w ≡ stop e_notfound w
  unfolding delete_in
  not_found nothing = rw (delete_in, nothing) refl

  deletes :
      (i : ℕ) (r : Record) (e : found_in w.store key ≡ some (i, r))
      → D.get L.table.dict key ≡ some (entry_of cfg r i [])
      → delete_in p D cfg L.table.dict bytes w ≡ done tt (deleted i r e)
  unfolding delete_in deleted entry_of
  deletes i r e something =
      let below = (newest-some p D cfg (F.cell w.store) sector (max_records cfg) key e).0 in
      let mark : set_variable_record_flags p cfg w.vol.sector record_invalid i w
          ≡ done tt (record w {
            store = F.program w.store (slot_at cfg sector i) (u16_bytes record_invalid);
          }) =
        ap (λ x. set_variable_record_flags p cfg x record_invalid i w) L.table.at_sector
        ∙ set_variable_record_flags_lem pl i below w record_invalid in
      rw (delete_in, something, and_then, mark) refl

  -- On a loaded volume nvol3_record_delete leaves a loaded volume that holds nothing under the key of
  -- the buffer, and what it held under every other key; it returns E_NOTFOUND if and only if the volume
  -- held nothing under the key. No slot is used.
  pub nvol3_record_delete-IsRemoved :
      (w' : W) × (nvol3_record_delete p D cfg bytes w ≡ outcome (contents F D cfg sector w key) w')
      × IsRemoved F D cfg sector key w w'
  unfolding nvol3_record_delete contents listed
  nvol3_record_delete-IsRemoved = elim (Option-cases (found_in w.store key)) [
    | inl nothing ↦
        let unlisted : D.get L.table.dict key ≡ none =
          L.table.lists key ∙ ap (listed p D cfg) nothing in
        (
          w,
          with_dict_lem D cfg (λ d. delete_in p D cfg d bytes) w L.table.is_dict
              ∙ not_found unlisted
              ∙ ap (λ o. outcome (bytes_of o) w) (sym nothing),
          record {
            loaded = L;
            next_same = refl;
            holds = λ k. elim (Bool-cases (same_key key k)) [
              | inr other ↦ rw other refl
              | inl same ↦
                  rw same
                    (ap bytes_of (ap (found_in w.store) (sym (same_key-eq key k same)) ∙ nothing))
            ];
          },
        )
    | inr ((i, r), e) ↦
        let entry_listed : D.get L.table.dict key ≡ some (entry_of cfg r i []) =
          L.table.lists key ∙ ap (listed p D cfg) e in
        (
          deleted i r e,
          with_dict_lem D cfg (λ d. delete_in p D cfg d bytes) w L.table.is_dict
              ∙ deletes i r e entry_listed
              ∙ ap (λ o. outcome (bytes_of o) (deleted i r e)) (sym e),
          deleted-IsRemoved i r e,
        )
  ]
