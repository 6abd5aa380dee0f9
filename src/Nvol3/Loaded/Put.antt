-- ===== src/Nvol3/Loaded/Put.antt =====
-- The steps in which record_set puts a record on the flash: the record is written with the flags NEW,
-- its flags become VALID, and the record that it replaces is marked.
use mathlib.Core.Path.{fun_ext}
use qoraal_flash.Common.{
  ℕ, suc, ◌≤◌, ◌<◌, ◌≡◌, refl, sym, ap, subst, ◌∙◌, ◌⊎◌, inl, inr, false, Option, none, some, List,
  arith, ◌==◌, if◌then◌else◌, length, ==_refl, Bool-cases,
}
use qoraal_flash.Common.Run.{err, e_empty}
use qoraal_flash.Flash.{Platform}
use qoraal_flash.Flash.Nor.{NorFlash, bytes_at, programmed}
use qoraal_flash.Flash.Nor.Ranges.{Erased}
use qoraal_flash.Nvol3.Dictionary.{same_key, Dictionary, Key}
use qoraal_flash.Nvol3.Volume.{Config, Record, max_records, u16_bytes, record_valid, record_invalid}
use qoraal_flash.Nvol3.Slot.{head_of_bytes, head_status, flags_status, variable_record_valid}
use qoraal_flash.Nvol3.Slot.Read.{Placed, slot_at, record_at}
use qoraal_flash.Nvol3.Slot.Frame.{IsWrite, record_at-other}
use qoraal_flash.Nvol3.Slot.Write.{written, record_at-invalid}
use qoraal_flash.Nvol3.Slot.Commit.{
  committed, IsPayload, record_at-written, record_at-committed, length-written-stamped,
}
use qoraal_flash.Nvol3.Set.{stamped}
use qoraal_flash.Nvol3.Table.{key_of}
use qoraal_flash.Nvol3.Sector.Scan.{flags-IsWrite}
use qoraal_flash.Nvol3.View.{same_key-eq, live, newest, newest-eq}
use qoraal_flash.Nvol3.View.Update.{live_at, none-IsOther, newest-other, newest-top}

pub record_at-Erased :
    (cfg : Config) (c : ℕ → ℕ) (a : ℕ)
    → 8 ≤ cfg.record_size
    → Erased c a cfg.record_size
    → record_at cfg c a ≡ err e_empty
unfolding record_at bytes_at head_of_bytes head_status flags_status
record_at-Erased cfg c a room blank =
    let low : c a ≡ 255 = blank a (omega arith) (omega arith) in
    let high : c (suc a) ≡ 255 = blank (suc a) (omega arith) (omega arith) in rw (low, high) refl

module _ {Store : Type 0} {p : Platform Store} (F : NorFlash p) (cfg : Config) (sector : ℕ)
    (bytes : List ℕ) (m : ℕ) where
  -- The store behind the write of a record to slot `m`, and behind its commit.
  abbrev pub written_store : Store → Store
  written_store s = F.program s (slot_at cfg sector m) (written (stamped (length bytes) bytes))

  abbrev pub committed_store : Store → Store
  committed_store s = F.program (written_store s) (slot_at cfg sector m) (u16_bytes record_valid)

module _ {Store : Type 0} {p : Platform Store} {F : NorFlash p} (D : Dictionary) {cfg : Config}
    {sector : ℕ} (pl : Placed F cfg sector) (bytes : List ℕ) (pay : IsPayload cfg bytes) (s : Store)
    (m : ℕ) (room : m < max_records cfg)
    (blank : Erased (F.cell s) (slot_at cfg sector m) cfg.record_size) where
  abbrev live_in : Store → ℕ → Option Record
  live_in s = live_at p D cfg sector (F.cell s)

  abbrev s1 : Store
  s1 = written_store F cfg sector bytes m s

  abbrev s2 : Store
  s2 = committed_store F cfg sector bytes m s

  pub nothing_at : live_in s m ≡ none
  unfolding live
  nothing_at =
      ap (live p D cfg) (record_at-Erased cfg (F.cell s) (slot_at cfg sector m) pl.head_fits blank)

  pub written-IsWrite :
      IsWrite cfg sector m (written (stamped (length bytes) bytes)) (F.cell s) (F.cell s1)
  unfolding stamped
  written-IsWrite = record {
    within = length-written-stamped cfg (F.cell s) (slot_at cfg sector m) bytes pay;
    writes =
        fun_ext (F.cell_program s (slot_at cfg sector m) (written (stamped (length bytes) bytes)));
  }

  -- A record that is not committed does not count.
  pub live-written : (i : ℕ) → live_in s1 i ≡ live_in s i
  unfolding live
  live-written i = elim (Bool-cases (m == i)) [
    | inr apart ↦ ap (live p D cfg) (record_at-other pl written-IsWrite i (ground arith))
    | inl at ↦
        let here : i ≡ m = ground arith in
        rw here (
          ap (λ c. live p D cfg (record_at cfg c (slot_at cfg sector m))) written-IsWrite.writes
          ∙ ap (live p D cfg)
              (record_at-written cfg (F.cell s) (slot_at cfg sector m) bytes pay blank)
          ∙ sym nothing_at)
  ]

  pub live-committed : live_in s2 m ≡ some (committed bytes)
  unfolding live variable_record_valid
  live-committed =
      ap (λ c. live p D cfg (record_at cfg c (slot_at cfg sector m)))
        ((flags-IsWrite F D cfg sector pl s1 m record_valid).writes
          ∙ ap (λ c. programmed c (slot_at cfg sector m) (u16_bytes record_valid))
              written-IsWrite.writes)
      ∙ ap (live p D cfg)
          (record_at-committed cfg (F.cell s) (slot_at cfg sector m) bytes pay blank)
      ∙ rw (==_refl (committed bytes).head.checksum) refl

  pub live-committed_other : (i : ℕ) → (m < i) ⊎ (i < m) → live_in s2 i ≡ live_in s i
  live-committed_other i apart =
      ap (live p D cfg)
        (record_at-other pl (flags-IsWrite F D cfg sector pl s1 m record_valid) i apart)
      ∙ live-written i

  -- Until the commit the sector holds what it held.
  pub newest-written :
      (k : Key)
      → newest p D cfg (F.cell s1) sector (max_records cfg) k
        ≡ newest p D cfg (F.cell s) sector (max_records cfg) k
  newest-written k =
      newest-eq p D cfg (F.cell s1) (F.cell s) sector (max_records cfg) k (λ i h. live-written i)

  -- From the commit on it holds the new record under its key, and the rest as before.
  pub newest-committed :
      (k : Key)
      → ((i : ℕ) → m < i → i < max_records cfg → live_in s i ≡ none)
      → newest p D cfg (F.cell s2) sector (max_records cfg) k ≡ (
          if same_key (key_of D cfg (committed bytes)) k
          then some (m, committed bytes)
          else newest p D cfg (F.cell s) sector (max_records cfg) k)
  newest-committed k behind = elim (Bool-cases (same_key (key_of D cfg (committed bytes)) k)) [
    | inl same ↦ rw same (
        ap (newest p D cfg (F.cell s2) sector (max_records cfg))
          (sym (same_key-eq (key_of D cfg (committed bytes)) k same))
        ∙ newest-top p D cfg sector (F.cell s2) m (max_records cfg) (committed bytes) room
            live-committed (λ i lo hi. live-committed_other i (inl lo) ∙ behind i lo hi))
    | inr other ↦ rw other (
        newest-other p D cfg sector (F.cell s) (F.cell s2) m (max_records cfg) k
          (λ i h. live-committed_other i)
          (λ rec h. subst (λ r. same_key (key_of D cfg r) k ≡ false) (the_record rec h) other)
          (none-IsOther p D cfg sector k (live_in s m) nothing_at))
  ]
    where
      the_record : (rec : Record) → live_in s2 m ≡ some rec → committed bytes ≡ rec
      the_record rec h = cc (h, live-committed)

  -- Marking the record that was replaced changes nothing any more.
  module _ (old : ℕ) (rec : Record) (found : live_in s old ≡ some rec)
      (keyed : key_of D cfg rec ≡ key_of D cfg (committed bytes))
      (apart : (old < m) ⊎ (m < old)) where
    abbrev pub s3 : Store
    s3 = F.program s2 (slot_at cfg sector old) (u16_bytes record_invalid)

    pub live-retired : live_in s3 old ≡ none
    unfolding live
    live-retired =
        ap (λ c. live p D cfg (record_at cfg c (slot_at cfg sector old)))
          (flags-IsWrite F D cfg sector pl s2 old record_invalid).writes
        ∙ ap (live p D cfg) (record_at-invalid cfg (F.cell s2) (slot_at cfg sector old))

    pub live-retired_other : (i : ℕ) → (old < i) ⊎ (i < old) → live_in s3 i ≡ live_in s2 i
    live-retired_other i differ =
        ap (live p D cfg)
          (record_at-other pl (flags-IsWrite F D cfg sector pl s2 old record_invalid) i differ)

    behind-retired :
        ((i : ℕ) → m < i → i < max_records cfg → live_in s i ≡ none)
        → (i : ℕ) → m < i
        → i < max_records cfg
        → live_in s3 i ≡ none
    behind-retired behind i lo hi = elim (Bool-cases (i == old)) [
      | inl at ↦ let here : i ≡ old = ground arith in ap (live_in s3) here ∙ live-retired
      | inr other ↦
          live-retired_other i (ground arith) ∙ live-committed_other i (inl lo) ∙ behind i lo hi
    ]

    pub newest-retired :
        (k : Key)
        → ((i : ℕ) → m < i → i < max_records cfg → live_in s i ≡ none)
        → newest p D cfg (F.cell s3) sector (max_records cfg) k
          ≡ newest p D cfg (F.cell s2) sector (max_records cfg) k
    newest-retired k behind = elim (Bool-cases (same_key (key_of D cfg (committed bytes)) k)) [
      | inl same ↦
          subst
            (λ j.
              newest p D cfg (F.cell s3) sector (max_records cfg) j
              ≡ newest p D cfg (F.cell s2) sector (max_records cfg) j)
            (same_key-eq (key_of D cfg (committed bytes)) k same)
            (newest-top p D cfg sector (F.cell s3) m (max_records cfg) (committed bytes) room
                (live-retired_other m apart ∙ live-committed) (behind-retired behind)
              ∙ sym (
                  newest-top p D cfg sector (F.cell s2) m (max_records cfg) (committed bytes) room
                    live-committed (λ i lo hi. live-committed_other i (inl lo) ∙ behind i lo hi)))
      | inr other ↦
          newest-other p D cfg sector (F.cell s2) (F.cell s3) old (max_records cfg) k
            (λ i h. live-retired_other i)
            (none-IsOther p D cfg sector k (live_in s3 old) live-retired)
            (λ r h. subst (λ j. same_key j k ≡ false) (same_keyed r h) other)
    ]
      where
        same_keyed :
            (r : Record) → live_in s2 old ≡ some r → key_of D cfg (committed bytes) ≡ key_of D cfg r
        same_keyed r h =
            let same : rec ≡ r =
              cc (
                found,
                h,
                live-committed_other old (elim apart [ inl a ↦ inr a | inr a ↦ inl a ]),
              ) in
            sym keyed ∙ ap (key_of D cfg) same
