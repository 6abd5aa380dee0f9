-- ===== src/Nvol3/Sector/Build.antt =====
-- The loop of construct_lookup_table lists the records that count.
use qoraal_flash.Common.{
  ℕ, zero, suc, ◌+◌, ◌≤◌, ◌<◌, ◌≡◌, refl, sym, ap, subst, ◌∙◌, inl, inr, none, some, [], arith,
  ◌==◌, if◌then◌else◌, Bool-cases, Option-cases,
}
use qoraal_flash.Common.Run.{Status, e_empty, err, done, Result-cases}
use qoraal_flash.Flash.{Platform}
use qoraal_flash.Flash.Nor.{NorFlash}
use qoraal_flash.Nvol3.Dictionary.{same_key, Dictionary, IsMap, Key}
use qoraal_flash.Nvol3.Volume.{
  Config, Record, World, with_vol, u16, u16_bytes, max_records, record_invalid,
}
use qoraal_flash.Nvol3.Slot.{read_variable_record, variable_record_valid, set_variable_record_flags}
use qoraal_flash.Nvol3.Slot.Read.{Placed, record_at, slot_at, read_variable_record_lem}
use qoraal_flash.Nvol3.Slot.Write.{set_variable_record_flags_lem}
use qoraal_flash.Nvol3.Table.{entry_of, key_of, insert_in, insert_lookup_table, with_dict_lem}
use qoraal_flash.Nvol3.Sector.{
  build_loop, counted, is_empty, count_inuse, count_invalid, count_error,
}
use qoraal_flash.Nvol3.Sector.Scan.{
  IsListed, IsScanned, IsSame-refl, IsScanned-from, IsListed-skip, mark_invalid-IsSame,
  flags-IsWrite, is_empty-eq,
}
use qoraal_flash.Nvol3.View.{
  live, newest, prefer, listed, newest-eq, newest-some, live-ok, record_at-IsFitting,
}
use qoraal_flash.Nvol3.View.Insert.{IsTight, entry_of-IsTight, insert_in_lem}

module _ {Store : Type 0} {p : Platform Store} {F : NorFlash p} {D : Dictionary} (M : IsMap D)
    {cfg : Config} {sector : ℕ} (pl : Placed F cfg sector) where
  abbrev W : Type 0
  W = World D.Dict Store

  -- A world that differs in the counters only.
  IsListed-counted :
      (n : ℕ) (e : Status) (w : W)
      → IsListed F D cfg sector n w
      → IsListed F D cfg sector n (counted p D cfg e w)
  unfolding counted
  IsListed-counted n e_empty w t = t
  IsListed-counted n e w t = record {
    dict = t.dict;
    is_dict = t.is_dict;
    lists = t.lists;
    memory = t.memory;
    at_sector = t.at_sector;
  }

  store-counted : (e : Status) (w : W) → (counted p D cfg e w).store ≡ w.store
  unfolding counted
  store-counted e_empty w = refl
  store-counted e w = refl

  -- What the table lists is tight.
  pub listed-IsTight :
      (n : ℕ) (w : W) (t : IsListed F D cfg sector n w) (k : Key) → IsTight cfg (D.get t.dict k)
  unfolding listed
  listed-IsTight n w t k = elim (Option-cases (newest p D cfg (F.cell w.store) sector n k)) [
    | inl nothing ↦ subst (IsTight cfg) (sym (t.lists k ∙ ap (listed p D cfg) nothing)) tt
    | inr ((i, rec), found) ↦
        let here = newest-some p D cfg (F.cell w.store) sector n k found in
        let read = live-ok p D cfg (record_at cfg (F.cell w.store) (slot_at cfg sector i)) here.1 in
        subst (IsTight cfg) (sym (t.lists k ∙ ap (listed p D cfg) found)) (
          entry_of-IsTight cfg rec i (
            record_at-IsFitting cfg (F.cell w.store) (slot_at cfg sector i) pl.head_fits
              pl.record_size_fits read.0))
  ]

  -- A record that counts is added to the table.
  pub insert-IsListed :
      (n : ℕ) (w : W) (rec : Record) (t : IsListed F D cfg sector n w)
      → live p D cfg (record_at cfg (F.cell w.store) (slot_at cfg sector n)) ≡ some rec
      → (d' : D.Dict) × (insert_lookup_table D cfg rec n w
          ≡ done tt (with_vol (λ v. record v { dict = some d' }) w))
        × IsListed F D cfg sector (suc n) (with_vol (λ v. record v { dict = some d' }) w)
  unfolding insert_lookup_table newest prefer listed
  insert-IsListed n w rec t counts =
      let (d', runs, gets) =
        insert_in_lem D M cfg t.dict rec n w t.memory (listed-IsTight n w t (key_of D cfg rec)) in
      let added : (k : Key)
          → (if same_key (key_of D cfg rec) k then some (entry_of cfg rec n []) else D.get t.dict k)
            ≡ listed p D cfg
                (prefer p D cfg n k (some rec) (newest p D cfg (F.cell w.store) sector n k)) =
        λ k. elim (Bool-cases (same_key (key_of D cfg rec) k)) [
          | inl e ↦ rw e refl
          | inr e ↦ rw e (t.lists k)
        ] in
      (
        d',
        with_dict_lem D cfg (λ d. insert_in D cfg d rec n) w t.is_dict ∙ runs,
        record {
          dict = d';
          is_dict = refl;
          lists = λ k.
              gets k
              ∙ added k
              ∙ sym (
                  ap
                    (λ o.
                      listed p D cfg
                        (prefer p D cfg n k o (newest p D cfg (F.cell w.store) sector n k)))
                    counts);
          memory = t.memory;
          at_sector = t.at_sector;
        },
      )

  -- The slots in [next, m) are empty.
  abbrev IsEmptyFrom : Store → ℕ → ℕ → Type 0
  IsEmptyFrom s next m =
      (i : ℕ) → next ≤ i → i < m → record_at cfg (F.cell s) (slot_at cfg sector i) ≡ err e_empty

  -- An empty slot leaves `next` where it is, any other one moves it.
  empty_next :
      (s : Store) (idx next : ℕ) (e : Status)
      → record_at cfg (F.cell s) (slot_at cfg sector idx) ≡ err e
      → IsEmptyFrom s next idx
      → IsEmptyFrom s (if is_empty e then next else suc idx) (suc idx)
  empty_next s idx next e gone empty i lo hi = elim (Bool-cases (is_empty e)) [
    | inr used ↦ absurd (ground (arith, used))
    | inl free ↦ elim (Bool-cases (i == idx)) [
      | inl at ↦ let here : i ≡ idx = ground arith in rw here (gone ∙ ap err (is_empty-eq e free))
      | inr before ↦ empty i (ground (arith, free)) (ground arith)
    ]
  ]

  nothing_from : (s : Store) (m : ℕ) → IsEmptyFrom s m m
  nothing_from s m i lo hi = absurd (omega arith)

  -- A record with a bad checksum is marked invalid: the state that the loop goes on with.
  marked_invalid : ℕ → W → W
  marked_invalid idx w = record w {
    store = F.program w.store (slot_at cfg sector idx) (u16_bytes record_invalid);
  }

  marked_invalid-IsListed :
      (idx : ℕ) (w : W)
      → idx < max_records cfg
      → IsListed F D cfg sector idx w
      → live p D cfg (record_at cfg (F.cell w.store) (slot_at cfg sector idx)) ≡ none
      → IsListed F D cfg sector
          (suc idx)
          (count_invalid p D cfg (count_error p D cfg (marked_invalid idx w)))
  unfolding marked_invalid
  marked_invalid-IsListed idx w below t nothing =
      let s' = F.program w.store (slot_at cfg sector idx) (u16_bytes record_invalid) in
      let same =
        mark_invalid-IsSame F D cfg sector pl idx below nothing
          (flags-IsWrite F D cfg sector pl w.store idx record_invalid) in
      IsListed-skip F D cfg sector idx
        (count_invalid p D cfg (count_error p D cfg (marked_invalid idx w)))
        (same.same_live idx below ∙ nothing)
        (record {
          dict = t.dict;
          is_dict = t.is_dict;
          lists = λ k.
              t.lists k
              ∙ ap (listed p D cfg) (
                  newest-eq p D cfg (F.cell w.store) (F.cell s') sector idx k
                    (λ i h. sym (same.same_live i (omega (arith, below)))));
          memory = t.memory;
          at_sector = t.at_sector;
        })

  pub build_loop-IsScanned :
      (n idx next : ℕ) (w : W)
      → idx + n ≤ max_records cfg
      → next ≤ idx
      → IsListed F D cfg sector idx w
      → IsEmptyFrom w.store next idx
      → IsScanned F D cfg sector (F.cell w.store) (idx + n) (build_loop p D cfg n idx next w)
  unfolding build_loop live marked_invalid
  build_loop-IsScanned zero idx next w room low t empty =
      let all : idx + 0 ≡ idx = omega arith in
      rw all (record {
        succeeds = refl;
        table = t;
        same = IsSame-refl F D cfg sector (F.cell w.store);
        next_in = low;
        empty_behind = empty;
      })
  build_loop-IsScanned (suc n) idx next w room low t empty =
      let below : idx < max_records cfg = omega (arith, room) in
      let count : u16 (idx + 1) ≡ suc idx = omega (arith, below, pl.few) in
      let more : idx + suc n ≡ suc idx + n = omega arith in
      let left : suc idx + n ≤ max_records cfg = omega (arith, room) in
      let read : read_variable_record p cfg w.store w.vol.sector idx
          ≡ record_at cfg (F.cell w.store) (slot_at cfg sector idx) =
        ap (λ x. read_variable_record p cfg w.store x idx) t.at_sector
        ∙ read_variable_record_lem pl idx below w.store in
      rw (build_loop, read)
        (elim (Result-cases (record_at cfg (F.cell w.store) (slot_at cfg sector idx))) [
          | inr (e, gone) ↦
              let store_kept = store-counted e w in
              rw (gone, count, more)
                (subst
                  (λ s. IsScanned F D cfg sector (F.cell s) (suc idx + n) (
                    build_loop p D cfg n (suc idx) (if is_empty e then next else suc idx)
                      (counted p D cfg e w)))
                  store_kept
                  (build_loop-IsScanned n (suc idx) (if is_empty e then next else suc idx)
                    (counted p D cfg e w) left (ground arith)
                    (IsListed-counted (suc idx) e w
                      (IsListed-skip F D cfg sector idx w (ap (live p D cfg) gone) t))
                    (subst (λ s. IsEmptyFrom s (if is_empty e then next else suc idx) (suc idx))
                      (sym store_kept) (empty_next w.store idx next e gone empty))))
          | inl (rec, found) ↦ rw found (elim (Bool-cases (variable_record_valid p cfg rec)) [
            | inl good ↦
                let counts : live p D cfg (record_at cfg (F.cell w.store) (slot_at cfg sector idx))
                    ≡ some rec =
                  ap (live p D cfg) found ∙ rw good refl in
                let (d', runs, t') = insert-IsListed idx w rec t counts in
                let w' : W = count_inuse p D cfg (with_vol (λ v. record v { dict = some d' }) w) in
                rw (good, runs, count, more)
                  (build_loop-IsScanned n (suc idx) (suc idx) w' left (omega arith)
                    (record {
                      dict = t'.dict;
                      is_dict = t'.is_dict;
                      lists = t'.lists;
                      memory = t'.memory;
                      at_sector = t'.at_sector;
                    })
                    (nothing_from w.store (suc idx)))
            | inr bad ↦
                let nothing : live p D cfg (record_at cfg (F.cell w.store) (slot_at cfg sector idx))
                    ≡ none =
                  ap (live p D cfg) found ∙ rw bad refl in
                let w' : W = count_invalid p D cfg (count_error p D cfg (marked_invalid idx w)) in
                let mark : set_variable_record_flags p cfg {Dict = D.Dict} w.vol.sector
                      record_invalid idx w
                    ≡ done tt (marked_invalid idx w) =
                  ap (λ x. set_variable_record_flags p cfg x record_invalid idx w) t.at_sector
                  ∙ set_variable_record_flags_lem pl idx below w record_invalid in
                rw (bad, mark, count, more)
                  (IsScanned-from F D cfg sector pl
                    (mark_invalid-IsSame F D cfg sector pl idx below nothing
                      (flags-IsWrite F D cfg sector pl w.store idx record_invalid))
                    (build_loop-IsScanned n (suc idx) (suc idx) w' left (omega arith)
                      (marked_invalid-IsListed idx w below t nothing)
                      (nothing_from w'.store (suc idx))))
          ])
        ])
