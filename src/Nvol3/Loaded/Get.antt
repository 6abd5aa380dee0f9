-- ===== src/Nvol3/Loaded/Get.antt =====
-- nvol3_record_get on a loaded volume.
use qoraal_flash.Common.{
  ℕ, zero, suc, ◌+◌, ◌≤◌, ◌≡◌, refl, sym, ap, subst, ◌∙◌, inl, inr, true, false, Option, none, some,
  List, [], ◌∷◌, arith, ◌==◌, leb, ltb, length, take, drop, length-drop, take-append-drop,
  Bool-cases, Option-cases,
}
use qoraal_flash.Common.Word.{ℤ, pos, sub32}
use qoraal_flash.Common.Run.{Result, ok, err, e_notfound, undefined}
use qoraal_flash.Flash.{Platform}
use qoraal_flash.Flash.Nor.{NorFlash}
use qoraal_flash.Nvol3.Dictionary.{Dictionary, Entry, Key}
use qoraal_flash.Nvol3.Volume.{Config, Record, World, u16, max_records, invalid_var_idx}
use qoraal_flash.Nvol3.Slot.{read_variable_record}
use qoraal_flash.Nvol3.Slot.Read.{Placed, slot_at, record_at, read_variable_record_lem}
use qoraal_flash.Nvol3.Table.{entry_of, cached_size, data_of}
use qoraal_flash.Nvol3.Set.{get_cached, record_get, nvol3_record_get}
use qoraal_flash.Nvol3.View.{
  newest, newest-some, listed, live-ok, record_at-length, IsFitting, record_at-IsFitting,
}
use qoraal_flash.Nvol3.Loaded.{IsLoaded, contents, bytes_of}

-- Keys of a fixed size, which the dictionary keeps as they are.
abbrev pub KeepsKeys : Dictionary → Config → Type 0
KeepsKeys D cfg =
    (d : D.Dict) (bytes : List ℕ)
    → take cfg.key_size (D.key_memory d (D.key_at bytes)) ≡ take cfg.key_size bytes

-- What is held under a key as the bytes in the caller's buffer and their number.
abbrev pub answer : Option (List ℕ) → Result (ℤ × List ℕ)
answer none = err e_notfound
answer (some held) = ok (pos (length held), held)

take-all : {A : Type 0} (n : ℕ) (xs : List A) → length xs ≤ n → take n xs ≡ xs
take-all zero [] h = refl
take-all zero (x ∷ xs) h = absurd (omega arith)
take-all (suc n) [] h = refl
take-all (suc n) (x ∷ xs) h = ap (λ ys. x ∷ ys) (take-all n xs (omega arith))

-- The data that an entry caches.
pub local_bytes :
    (cfg : Config) (r : Record) (i : ℕ)
    → IsFitting cfg r
    → length r.key_and_data ≡ r.head.length
    → leb (entry_of cfg r i []).length cfg.local_size ≡ true
    → ((entry_of cfg r i []).local ≡ drop cfg.key_size r.key_and_data)
      × ((entry_of cfg r i []).length ≡ length (drop cfg.key_size r.key_and_data))
unfolding entry_of cached_size data_of
local_bytes cfg r i fit l small =
    let bytes = drop cfg.key_size r.key_and_data in
    let size : sub32 r.head.length cfg.key_size ≡ length bytes =
      omega (arith, fit.has_key, fit.short, length-drop cfg.key_size r.key_and_data, l) in
    let whole : u16 (length bytes) ≡ length bytes =
      omega (arith, size, fit.short, length-drop cfg.key_size r.key_and_data, l) in
    let below : leb (length bytes) cfg.local_size ≡ true =
      subst (λ n. leb n cfg.local_size ≡ true) (ap u16 size ∙ whole) small in
    let cached : ltb cfg.local_size (length bytes) ≡ false = ground (arith, below) in
    (
      rw (size, cached)
          (elim (Bool-cases (length bytes == 0)) [
            | inl empty ↦ rw empty (nothing_left bytes (ground arith))
            | inr some_data ↦ rw some_data (take-all (length bytes) bytes (omega arith))
          ]),
      ap u16 size ∙ whole,
    )
  where
    nothing_left : (xs : List ℕ) → length xs ≡ 0 → [] ≡ xs
    nothing_left [] h = refl
    nothing_left (x ∷ xs) h = absurd (omega arith)

cached_bytes :
    (cfg : Config) (r : Record) (i : ℕ)
    → IsFitting cfg r
    → length r.key_and_data ≡ r.head.length
    → leb (entry_of cfg r i []).length cfg.local_size ≡ true
    → take (entry_of cfg r i []).length (entry_of cfg r i []).local
      ≡ drop cfg.key_size r.key_and_data
cached_bytes cfg r i fit l small =
    let cached = local_bytes cfg r i fit l small in
    rw (cached.0, cached.1)
      (take-all (length (drop cfg.key_size r.key_and_data)) (drop cfg.key_size r.key_and_data)
        (omega arith))

pub entry_length :
    (cfg : Config) (r : Record) (i : ℕ)
    → IsFitting cfg r
    → (entry_of cfg r i []).length + cfg.key_size ≡ r.head.length
unfolding entry_of
entry_length cfg r i fit = omega (arith, fit.has_key, fit.short)

entry_idx : (cfg : Config) (r : Record) (i : ℕ) → (entry_of cfg r i []).idx ≡ i
unfolding entry_of
entry_idx cfg r i = refl

module _ {Store : Type 0} {p : Platform Store} {F : NorFlash p} {D : Dictionary} {cfg : Config}
    {sector : ℕ} (keeps : KeepsKeys D cfg) (pl : Placed F cfg sector) (bytes : List ℕ)
    (w : World D.Dict Store) (L : IsLoaded F D cfg sector w) where
  abbrev key : Key
  key = D.key_at bytes

  abbrev found : Option (ℕ × Record)
  found = newest p D cfg (F.cell w.store) sector (max_records cfg) key

  get_cached_lem :
      (i : ℕ) (r : Record)
      → found ≡ some (i, r)
      → get_cached p D cfg L.table.dict key (entry_of cfg r i []) w
        ≡ ok (pos (length r.key_and_data), r.key_and_data)
  unfolding get_cached
  get_cached_lem i r e =
      let (below, counts, keyed) =
        newest-some p D cfg (F.cell w.store) sector (max_records cfg) key e in
      let here =
        (live-ok p D cfg (record_at cfg (F.cell w.store) (slot_at cfg sector i)) counts).0 in
      let len = record_at-length cfg (F.cell w.store) (slot_at cfg sector i) here in
      let fit =
        record_at-IsFitting cfg (F.cell w.store) (slot_at cfg sector i) pl.head_fits
          pl.record_size_fits here in
      elim (Bool-cases (leb (entry_of cfg r i []).length cfg.local_size)) [
        | inl small ↦ rw small (
            cc (
              entry_length cfg r i fit,
              len,
              keeps L.table.dict r.key_and_data,
              cached_bytes cfg r i fit len small,
              take-append-drop cfg.key_size r.key_and_data,
            ))
        | inr large ↦
            let known : (i == invalid_var_idx) ≡ false = ground (arith, pl.few) in
            let read : read_variable_record p cfg w.store w.vol.sector i ≡ ok r =
              ap (λ x. read_variable_record p cfg w.store x i) L.table.at_sector
              ∙ read_variable_record_lem pl i below w.store
              ∙ here in
            rw (large, entry_idx cfg r i, known, read, len) refl
      ]

  -- The lookup of record_get.
  get_listed :
      {o : Option Entry}
      → D.get L.table.dict key ≡ o
      → nvol3_record_get p D cfg bytes w
        ≡ elim o [ none ↦ err e_notfound | some e ↦ get_cached p D cfg L.table.dict key e w ]
  unfolding nvol3_record_get record_get
  get_listed e =
      ap
        (λ o. elim o [
          | none ↦ err undefined
          | some d ↦ elim (D.get d key) [
            | none ↦ err e_notfound
            | some e ↦ get_cached p D cfg d key e w
          ]
        ])
        L.table.is_dict
      ∙ ap
          (λ o. elim o [ none ↦ err e_notfound | some e ↦ get_cached p D cfg L.table.dict key e w ])
          e

  -- On a loaded volume of keys of a fixed size, nvol3_record_get returns the bytes that the volume holds
  -- under the key of the buffer and their number, whether they are cached or read from the flash, and
  -- E_NOTFOUND where it holds none.
  pub nvol3_record_get_lem :
      nvol3_record_get p D cfg bytes w ≡ answer (contents F D cfg sector w key)
  unfolding contents listed
  nvol3_record_get_lem = elim (Option-cases found) [
    | inl nothing ↦
        get_listed (L.table.lists key ∙ ap (listed p D cfg) nothing)
        ∙ ap (λ o. answer (bytes_of o)) (sym nothing)
    | inr ((i, r), e) ↦
        get_listed (L.table.lists key ∙ ap (listed p D cfg) e)
        ∙ get_cached_lem i r e
        ∙ ap (λ o. answer (bytes_of o)) (sym e)
  ]
