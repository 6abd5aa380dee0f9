-- ===== src/Nvol3/Loaded/Store.antt =====
-- The store behind record_set.
use qoraal_flash.Common.{
  ◌+◌, ℕ, suc, ◌≤◌, ◌<◌, ◌≡◌, ◌≢◌, sym, ap, ◌∙◌, ◌⊎◌, inl, inr, Option, none, some, List, arith,
  ◌==◌, ltb, if◌then◌else◌, Bool-cases,
}
use qoraal_flash.Common.Run.{err, e_empty}
use qoraal_flash.Nvol3.Slot.Write.{record_at-invalid}
use qoraal_flash.Flash.{Platform}
use qoraal_flash.Flash.Nor.{NorFlash}
use qoraal_flash.Flash.Nor.Ranges.{Erased}
use qoraal_flash.Nvol3.Dictionary.{same_key, Dictionary, Key}
use qoraal_flash.Nvol3.Volume.{
  Config, Record, World, max_records, page_size, u16_bytes, record_valid, record_invalid,
}
use qoraal_flash.Nvol3.Slot.Read.{Placed, slot_at, record_at}
use qoraal_flash.Nvol3.Slot.Frame.{IsWrite-other, IsWrite-outside, IsWrite-tidy}
use qoraal_flash.Nvol3.Slot.Commit.{record_at-written, committed, IsPayload}
use qoraal_flash.Nvol3.Table.{key_of}
use qoraal_flash.Nvol3.Sector.Scan.{flags-IsWrite}
use qoraal_flash.Nvol3.View.{live-ok, same_key_refl, same_key-eq, live, newest, newest-some}
use qoraal_flash.Nvol3.View.Update.{live_at}
use qoraal_flash.Nvol3.Loaded.{IsLoaded}
use qoraal_flash.Nvol3.Loaded.Put.{
  record_at-Erased, written_store, committed_store, written-IsWrite, live-committed,
  live-committed_other, newest-committed, live-retired, live-retired_other, newest-retired,
}

module _ {Store : Type 0} {p : Platform Store} {F : NorFlash p} {D : Dictionary} {cfg : Config}
    {sector : ℕ} (pl : Placed F cfg sector) (bytes : List ℕ) (pay : IsPayload cfg bytes)
    (w : World D.Dict Store) (L : IsLoaded F D cfg sector w)
    (room : w.vol.next_idx < max_records cfg) where
  abbrev found_in : Store → Key → Option (ℕ × Record)
  found_in s = newest p D cfg (F.cell s) sector (max_records cfg)

  abbrev live_in : Store → ℕ → Option Record
  live_in s = live_at p D cfg sector (F.cell s)

  abbrev key : Key
  key = key_of D cfg (committed bytes)

  abbrev m : ℕ
  m = w.vol.next_idx

  -- The store holds the new record in the next slot, and the rest as before.
  pub record IsPutStore (s : Store) : Type 0 where
    pub holds :
        (k : Key)
        → found_in s k ≡ (if same_key key k then some (m, committed bytes) else found_in w.store k)
    pub alone :
        (i : ℕ) (rec : Record)
        → i < max_records cfg
        → live_in s i ≡ some rec
        → found_in s (key_of D cfg rec) ≡ some (i, rec)
    pub outside_kept :
        (x : ℕ)
        → (x < sector + page_size) ⊎ (sector + cfg.sector_size ≤ x)
        → F.cell s x ≡ F.cell w.store x
    pub tidy_store :
        (i : ℕ)
        → i < max_records cfg
        → record_at cfg (F.cell s) (slot_at cfg sector i) ≡ err e_empty
        → Erased (F.cell s) (slot_at cfg sector i) cfg.record_size
    pub blank_behind :
        (i : ℕ)
        → suc m ≤ i
        → i < max_records cfg
        → Erased (F.cell s) (slot_at cfg sector i) cfg.record_size

  pub blank : Erased (F.cell w.store) (slot_at cfg sector m) cfg.record_size
  blank = L.erased_behind m (omega arith) room

  pub nothing_behind : (i : ℕ) → m ≤ i → i < max_records cfg → live_in w.store i ≡ none
  unfolding live
  nothing_behind i lo hi = ap (live p D cfg) (
      record_at-Erased cfg (F.cell w.store) (slot_at cfg sector i) pl.head_fits
        (L.erased_behind i lo hi))

  behind : (i : ℕ) → m < i → i < max_records cfg → live_in w.store i ≡ none
  behind i lo hi = nothing_behind i (omega arith) hi

  -- What counts in the new store is the new record, or counted before under another key.
  alone_from :
      (s : Store)
      → live_in s m ≡ some (committed bytes)
      → ((k : Key)
          → found_in s k
            ≡ (if same_key key k then some (m, committed bytes) else found_in w.store k))
      → ((i : ℕ) (rec : Record)
          → (m < i) ⊎ (i < m)
          → live_in s i ≡ some rec
          → (live_in w.store i ≡ some rec) × (found_in w.store key ≢ some (i, rec)))
      → (i : ℕ) (rec : Record) → i < max_records cfg
      → live_in s i ≡ some rec
      → found_in s (key_of D cfg rec) ≡ some (i, rec)
  alone_from s new holds kept i rec below counts = elim (Bool-cases (m == i)) [
    | inl at ↦
        let here : i ≡ m = ground arith in
        let it : rec ≡ committed bytes = cc (counts, new, here) in
        ap (λ r. found_in s (key_of D cfg r)) it
        ∙ holds key
        ∙ rw (same_key_refl key) (cc (it, here))
    | inr other ↦
        let (before, not_key) = kept i rec (ground arith) counts in
        let listed : found_in w.store (key_of D cfg rec) ≡ some (i, rec) =
          L.sole i rec below before in
        elim (Bool-cases (same_key key (key_of D cfg rec))) [
          | inl same ↦
              absurd
                (not_key (ap (found_in w.store) (same_key-eq key (key_of D cfg rec) same) ∙ listed))
          | inr differ ↦ holds (key_of D cfg rec) ∙ rw differ listed
        ]
  ]

  abbrev s2 : Store
  s2 = committed_store F cfg sector bytes m w.store

  blank_committed :
      (i : ℕ)
      → suc m ≤ i
      → i < max_records cfg
      → Erased (F.cell s2) (slot_at cfg sector i) cfg.record_size
  blank_committed i lo hi x from to =
      IsWrite-other pl
        (flags-IsWrite F D cfg sector pl (written_store F cfg sector bytes m w.store) m
          record_valid)
        i x (inl lo) from to
      ∙ IsWrite-other pl (written-IsWrite D pl bytes pay w.store m room blank) i x (inl lo) from to
      ∙ L.erased_behind i (omega arith) hi x from to

  pub outside_committed :
      (x : ℕ)
      → (x < sector + page_size) ⊎ (sector + cfg.sector_size ≤ x)
      → F.cell s2 x ≡ F.cell w.store x
  outside_committed x out =
      IsWrite-outside pl
        (flags-IsWrite F D cfg sector pl (written_store F cfg sector bytes m w.store) m
          record_valid)
        room x out
      ∙ IsWrite-outside pl (written-IsWrite D pl bytes pay w.store m room blank) room x out

  tidy_committed :
      (i : ℕ)
      → i < max_records cfg
      → record_at cfg (F.cell s2) (slot_at cfg sector i) ≡ err e_empty
      → Erased (F.cell s2) (slot_at cfg sector i) cfg.record_size
  tidy_committed =
      let first = written-IsWrite D pl bytes pay w.store m room blank in
      let full =
        live-ok p D cfg (record_at cfg (F.cell s2) (slot_at cfg sector m))
          (live-committed D pl bytes pay w.store m room blank) in
      IsWrite-tidy pl
        (flags-IsWrite F D cfg sector pl (written_store F cfg sector bytes m w.store) m
          record_valid)
        (λ e. cc (e, full.0))
        (IsWrite-tidy pl first
          (λ e. cc (
            e,
            ap (λ c. record_at cfg c (slot_at cfg sector m)) first.writes,
            record_at-written cfg (F.cell w.store) (slot_at cfg sector m) bytes pay blank,
          ))
          L.tidy)

  -- Without a record under the key, the committed store is it;
  pub committed-IsPutStore : found_in w.store key ≡ none → IsPutStore s2
  committed-IsPutStore nothing = record {
    holds = λ k. newest-committed D pl bytes pay w.store m room blank k behind;
    alone =
        alone_from s2 (live-committed D pl bytes pay w.store m room blank)
          (λ k. newest-committed D pl bytes pay w.store m room blank k behind)
          (λ i rec apart h. (
            sym (live-committed_other D pl bytes pay w.store m room blank i apart) ∙ h,
            λ e. cc (e, nothing),
          ));
    blank_behind = blank_committed;
    tidy_store = tidy_committed;
    outside_kept = outside_committed;
  }

  -- with one, it is the store in which that one is marked.
  pub replaced_below : (old : ℕ) (rec : Record) → found_in w.store key ≡ some (old, rec) → old < m
  replaced_below old rec e =
      let (below, counts, keyed) =
        newest-some p D cfg (F.cell w.store) sector (max_records cfg) key e in
      elim (Bool-cases (ltb old m)) [
        | inl less ↦ ground arith
        | inr more ↦ cc (counts, nothing_behind old (ground arith) below)
      ]

  abbrev pub retired_store : ℕ → Store
  retired_store old = F.program s2 (slot_at cfg sector old) (u16_bytes record_invalid)

  pub retired-IsPutStore :
      (old : ℕ) (rec : Record)
      → found_in w.store key ≡ some (old, rec)
      → IsPutStore (retired_store old)
  retired-IsPutStore old rec e =
      let (below, counts, keyed) =
        newest-some p D cfg (F.cell w.store) sector (max_records cfg) key e in
      let apart : (old < m) ⊎ (m < old) = inl (replaced_below old rec e) in
      let gone = live-retired D pl bytes pay w.store m room blank old rec counts keyed apart in
      let other =
        live-retired_other D pl bytes pay w.store m room blank old rec counts keyed apart in
      let news : (k : Key)
          → found_in (retired_store old) k
            ≡ (if same_key key k then some (m, committed bytes) else found_in w.store k) =
        λ k.
          newest-retired D pl bytes pay w.store m room blank old rec counts keyed apart k behind
          ∙ newest-committed D pl bytes pay w.store m room blank k behind in
      record {
        holds = news;
        alone =
            alone_from (retired_store old)
              (other m apart ∙ live-committed D pl bytes pay w.store m room blank) news
              (λ i r differ h. elim (Bool-cases (i == old)) [
                | inl at ↦ let here : i ≡ old = ground arith in absurd (cc (h, here, gone))
                | inr away ↦ (
                  sym (live-committed_other D pl bytes pay w.store m room blank i differ)
                      ∙ sym (other i (ground arith))
                      ∙ h,
                  λ same. let here : i ≡ old = cc (same, e) in ground arith,
                )
              ]);
        outside_kept = λ x out.
            IsWrite-outside pl (flags-IsWrite F D cfg sector pl s2 old record_invalid) below x out
            ∙ outside_committed x out;
        tidy_store =
            let mark = flags-IsWrite F D cfg sector pl s2 old record_invalid in
            IsWrite-tidy pl mark
              (λ e. cc (
                e,
                ap (λ c. record_at cfg c (slot_at cfg sector old)) mark.writes,
                record_at-invalid cfg (F.cell s2) (slot_at cfg sector old),
              ))
              tidy_committed;
        blank_behind = λ i lo hi x from to.
            IsWrite-other pl (flags-IsWrite F D cfg sector pl s2 old record_invalid) i x
              (inl (omega (arith, replaced_below old rec e, lo))) from to
            ∙ blank_committed i lo hi x from to;
      }
