-- ===== src/Nvol3/Loaded/RecordSet.antt =====
-- nvol3_record_set with a free slot.
use qoraal_flash.Common.{
  ℕ, ◌+◌, ◌<◌, ◌≡◌, ◌≢◌, refl, sym, ap, ◌∙◌, inl, inr, false, Option, none, some, List, [], ◌∷◌,
  arith, ◌==◌, leb, ltb, length, Bool-cases, Option-cases,
}
use qoraal_flash.Common.Word.{sub32}
use qoraal_flash.Common.Run.{done, ok, and_then}
use qoraal_flash.Flash.{Platform}
use qoraal_flash.Flash.Nor.{NorFlash}
use qoraal_flash.Nvol3.Dictionary.{same_key, Dictionary, IsMap, Entry, Key}
use qoraal_flash.Nvol3.Volume.{
  Config, Record, World, u16, max_records, malloc, headroom, invalid_var_idx,
}
use qoraal_flash.Nvol3.Slot.{read_variable_record, write_variable_record}
use qoraal_flash.Nvol3.Slot.Read.{Placed, slot_at, record_at, read_variable_record_lem}
use qoraal_flash.Nvol3.Slot.Write.{write_variable_record_lem}
use qoraal_flash.Nvol3.Slot.Commit.{IsPayload}
use qoraal_flash.Nvol3.Table.{with_dict_lem, entry_of}
use qoraal_flash.Nvol3.Set.{
  stamped, commit, write_new, write_changed, callback, record_set, set_in, same_bytes,
  num_same_bytes,
}
use qoraal_flash.Nvol3.Swap.{make_space, nvol3_record_set, lookup}
use qoraal_flash.Nvol3.View.{same_key-eq, newest, newest-some, listed, live-ok, record_at-length}
use qoraal_flash.Nvol3.Loaded.{IsLoaded, contents, bytes_of}
use qoraal_flash.Nvol3.Loaded.Set.{IsPut, w1, commit-new, commit-old}

same_bytes-eq :
    (xs ys : List ℕ) → length xs ≡ length ys → same_bytes (length xs) xs ys ≡ length xs → xs ≡ ys
unfolding same_bytes
same_bytes-eq [] [] l h = refl
same_bytes-eq [] (y ∷ ys) l h = absurd (omega arith)
same_bytes-eq (x ∷ xs) [] l h = absurd (omega arith)
same_bytes-eq (x ∷ xs) (y ∷ ys) l h = elim (Bool-cases (x == y)) [
  | inl e ↦
      let first : x ≡ y = ground arith in
      let rest : same_bytes (length xs) xs ys ≡ length xs = ground (arith, e, h) in
      cc (first, same_bytes-eq xs ys (omega arith) rest)
  | inr e ↦ absurd (ground (arith, e, h))
]

-- The slot of the record that a write replaces.
abbrev pub replaced : Option (ℕ × Record) → ℕ
replaced none = invalid_var_idx
replaced (some (i, r)) = i

-- A record of which all bytes are the same holds the bytes.
num_same_bytes-eq :
    (bytes : List ℕ) (r : Record)
    → 0 < length bytes
    → length r.key_and_data ≡ r.head.length
    → num_same_bytes (length bytes) bytes (ok r) ≡ length bytes
    → r.key_and_data ≡ bytes
unfolding num_same_bytes
num_same_bytes-eq bytes r some_bytes l h = elim (Bool-cases (length bytes == r.head.length)) [
  | inl e ↦ sym (same_bytes-eq bytes r.key_and_data (ground arith) (ground (arith, e, h)))
  | inr e ↦ absurd (ground (arith, e, h))
]

module _ {Store : Type 0} {p : Platform Store} {F : NorFlash p} {D : Dictionary} (M : IsMap D)
    {cfg : Config} {sector : ℕ} (pl : Placed F cfg sector) (bytes : List ℕ)
    (pay : IsPayload cfg bytes) (w : World D.Dict Store) (L : IsLoaded F D cfg sector w)
    (room : w.vol.next_idx < max_records cfg) where
  abbrev W : Type 0
  W = World D.Dict Store

  abbrev rec : Record
  rec = stamped (length bytes) bytes

  abbrev key : Key
  key = D.key_at bytes

  abbrev found : Option (ℕ × Record)
  found = newest p D cfg (F.cell w.store) sector (max_records cfg) key

  -- A record with the same bytes is there already.
  IsPut-same :
      (i : ℕ) (r : Record)
      → found ≡ some (i, r)
      → r.key_and_data ≡ bytes
      → IsPut F D cfg sector bytes w w
  unfolding contents
  IsPut-same i r e same = record {
    loaded = L;
    outside = λ x out. refl;
    next_near = omega arith;
    holds = λ k. elim (Bool-cases (same_key key k)) [
      | inr other ↦ rw other refl
      | inl this ↦ rw this (
          ap (λ j. bytes_of (newest p D cfg (F.cell w.store) sector (max_records cfg) j))
            (sym (same_key-eq key k this))
          ∙ ap bytes_of e
          ∙ ap some same)
    ];
  }

  pub wrote :
      write_variable_record p cfg w.vol.sector rec w.vol.next_idx w
      ≡ done tt (w1 M pl bytes pay w L room)
  unfolding stamped
  wrote =
      let small : u16 (length bytes) ≡ length bytes = omega (arith, pay.fits, pay.slot_fits) in
      ap (λ x. write_variable_record p cfg x rec w.vol.next_idx w) L.table.at_sector
      ∙ write_variable_record_lem pl w.vol.next_idx room w rec refl (sym small)
          (omega (arith, small, pay.fits))

  pub write_new_lem :
      (idx : ℕ)
      → callback p D cfg rec w ≡ done tt w
      → write_new p D cfg rec idx w ≡ commit p D cfg rec idx (w1 M pl bytes pay w L room)
  unfolding write_new
  write_new_lem idx agrees = rw (agrees, and_then, wrote) refl

  -- The slot to look at, as record_set reads it.
  read_found :
      (i : ℕ) (r : Record)
      → found ≡ some (i, r)
      → (read_variable_record p cfg w.store w.vol.sector i ≡ ok r)
        × (length r.key_and_data ≡ r.head.length)
  read_found i r e =
      let (below, counts, keyed) =
        newest-some p D cfg (F.cell w.store) sector (max_records cfg) key e in
      let here = live-ok p D cfg (record_at cfg (F.cell w.store) (slot_at cfg sector i)) counts in
      (
        ap (λ x. read_variable_record p cfg w.store x i) L.table.at_sector
            ∙ read_variable_record_lem pl i below w.store
            ∙ here.0,
        record_at-length cfg (F.cell w.store) (slot_at cfg sector i) here.0,
      )

  module _ (some_bytes : 0 < length bytes) (agrees : callback p D cfg rec w ≡ done tt w)
      (space : D.count L.table.dict + headroom < max_records cfg) where
    write_changed-IsPut :
        (r : Record) (i : ℕ)
        → found ≡ some (i, r)
        → (w' : W) × (write_changed p D cfg
              (num_same_bytes (length bytes) bytes (ok r))
              bytes
              (length bytes)
              i
              w
            ≡ done tt w')
          × IsPut F D cfg sector bytes w w'
    unfolding write_changed
    write_changed-IsPut r i e =
        elim (Bool-cases (num_same_bytes (length bytes) bytes (ok r) == length bytes)) [
          | inl same ↦ (
            w,
            rw same refl,
            IsPut-same i r e
                (num_same_bytes-eq bytes r some_bytes (read_found i r e).1 (ground (arith, same))),
          )
          | inr differ ↦
              let (w', runs, put) = commit-old M pl bytes pay w L room i r e in
              (w', rw differ (write_new_lem i agrees ∙ runs), put)
        ]

    open_tests :
        ltb (sub32 cfg.record_size 8) (length bytes) ≡ false
        → leb (sub32 (max_records cfg) headroom) (D.count L.table.dict) ≡ false
        → (entry : Option Entry)
        → set_in p D cfg L.table.dict entry bytes (length bytes) w ≡ elim entry [
          | none ↦ write_changed p D cfg 0 bytes (length bytes) invalid_var_idx w
          | some e ↦
              write_changed p D cfg
                (num_same_bytes
                  (length bytes)
                  bytes
                  (read_variable_record p cfg w.store w.vol.sector e.idx))
                bytes
                (length bytes)
                e.idx
                w
        ]
    unfolding set_in malloc
    open_tests fits free none = rw (fits, free) refl
    open_tests fits free (some e) = rw (fits, free, L.table.memory) refl

    -- record_set with a free slot and a record that fits.
    opened :
        (entry : Option Entry)
        → record_set p D cfg entry bytes (length bytes) w ≡ elim entry [
          | none ↦ write_changed p D cfg 0 bytes (length bytes) invalid_var_idx w
          | some e ↦
              write_changed p D cfg
                (num_same_bytes
                  (length bytes)
                  bytes
                  (read_variable_record p cfg w.store w.vol.sector e.idx))
                bytes
                (length bytes)
                e.idx
                w
        ]
    unfolding record_set
    opened entry =
        let fits : ltb (sub32 cfg.record_size 8) (length bytes) ≡ false =
          ground (arith, pay.fits, pay.slot_fits) in
        let free : leb (sub32 (max_records cfg) headroom) (D.count L.table.dict) ≡ false =
          ground (arith, space, pl.few) in
        with_dict_lem D cfg (λ d. set_in p D cfg d entry bytes (length bytes)) w L.table.is_dict
        ∙ open_tests fits free entry

    record_set-IsPut :
        (w' : W) × (record_set p D cfg (D.get L.table.dict key) bytes (length bytes) w ≡ done tt w')
        × IsPut F D cfg sector bytes w w'
    unfolding listed entry_of write_changed
    record_set-IsPut = elim (Option-cases found) [
      | inl nothing ↦
          let fresh : (0 == length bytes) ≡ false = ground arith in
          let none_listed : D.get L.table.dict key ≡ none =
            L.table.lists key ∙ ap (listed p D cfg) nothing in
          let (w', runs, put) = commit-new M pl bytes pay w L room nothing in
          let skipped : write_changed p D cfg 0 bytes (length bytes) invalid_var_idx w
              ≡ write_new p D cfg rec invalid_var_idx w =
            rw fresh refl in
          (
            w',
            ap (λ o. record_set p D cfg o bytes (length bytes) w) none_listed
                ∙ opened none
                ∙ skipped
                ∙ write_new_lem invalid_var_idx agrees
                ∙ runs,
            put,
          )
      | inr ((i, r), e) ↦
          let entry_listed : D.get L.table.dict key ≡ some (entry_of cfg r i []) =
            L.table.lists key ∙ ap (listed p D cfg) e in
          let (w', runs, put) = write_changed-IsPut r i e in
          (
            w',
            ap (λ o. record_set p D cfg o bytes (length bytes) w) entry_listed
                ∙ opened (some (entry_of cfg r i []))
                ∙ ap
                    (λ x.
                      write_changed p D cfg (num_same_bytes (length bytes) bytes x) bytes
                        (length bytes) i w)
                    (read_found i r e).0
                ∙ runs,
            put,
          )
    ]

    -- With a free slot there is no swap of sectors before record_set.
    at_once :
        nvol3_record_set p D cfg bytes (length bytes) w
        ≡ record_set p D cfg (D.get L.table.dict key) bytes (length bytes) w
    unfolding nvol3_record_set make_space lookup
    at_once =
        let free : leb (max_records cfg) w.vol.next_idx ≡ false = ground arith in
        let looked : lookup p D cfg key w ≡ D.get L.table.dict key =
          ap (λ o. elim o [ none ↦ none | some d ↦ D.get d key ]) L.table.is_dict in
        rw free (ap (λ o. record_set p D cfg o bytes (length bytes) w) looked)

    -- Bytes that are not held under their key already are written, and the slot of the record that they
    -- replace, if there is one, is the one to mark.
    pub record_set-write_new :
        contents F D cfg sector w key ≢ some bytes
        → nvol3_record_set p D cfg bytes (length bytes) w ≡ write_new p D cfg rec (replaced found) w
    unfolding listed entry_of write_changed contents
    record_set-write_new changed = elim (Option-cases found) [
      | inl nothing ↦
          let fresh : (0 == length bytes) ≡ false = ground arith in
          let none_listed : D.get L.table.dict key ≡ none =
            L.table.lists key ∙ ap (listed p D cfg) nothing in
          let skipped : write_changed p D cfg 0 bytes (length bytes) invalid_var_idx w
              ≡ write_new p D cfg rec invalid_var_idx w =
            rw fresh refl in
          at_once
          ∙ ap (λ o. record_set p D cfg o bytes (length bytes) w) none_listed
          ∙ opened none
          ∙ skipped
          ∙ ap (λ o. write_new p D cfg rec (replaced o) w) (sym nothing)
      | inr ((i, r), e) ↦
          let entry_listed : D.get L.table.dict key ≡ some (entry_of cfg r i []) =
            L.table.lists key ∙ ap (listed p D cfg) e in
          let here = read_found i r e in
          let differ : (num_same_bytes (length bytes) bytes (ok r) == length bytes) ≡ false =
            elim (Bool-cases (num_same_bytes (length bytes) bytes (ok r) == length bytes)) [
              | inr other ↦ other
              | inl same ↦ absurd (
                  changed (
                    ap bytes_of e
                    ∙ ap some (num_same_bytes-eq bytes r some_bytes here.1 (ground (arith, same)))))
            ] in
          let written : write_changed p D cfg (num_same_bytes (length bytes) bytes (ok r)) bytes
                (length bytes) i w
              ≡ write_new p D cfg rec i w =
            rw differ refl in
          at_once
          ∙ ap (λ o. record_set p D cfg o bytes (length bytes) w) entry_listed
          ∙ opened (some (entry_of cfg r i []))
          ∙ ap
              (λ x.
                write_changed p D cfg (num_same_bytes (length bytes) bytes x) bytes (length bytes) i
                  w)
              here.0
          ∙ written
          ∙ ap (λ o. write_new p D cfg rec (replaced o) w) (sym e)
    ]

    -- On a loaded volume with a free slot, memory to allocate, fewer records than the volume takes and a
    -- callback that agrees, nvol3_record_set with a buffer that is not empty and fits into a slot
    -- succeeds: the volume is loaded again, holds the buffer under its key, and what it held under
    -- every other key; at most one slot is used, and no byte outside of the slots of the sector
    -- changes. A record with the same bytes, which is not written again, is such a case.
    pub nvol3_record_set-IsPut :
        (w' : W) × (nvol3_record_set p D cfg bytes (length bytes) w ≡ done tt w')
        × IsPut F D cfg sector bytes w w'
    nvol3_record_set-IsPut = let (w', runs, put) = record_set-IsPut in (w', at_once ∙ runs, put)
