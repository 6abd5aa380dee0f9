-- ===== src/Tallies/OnVolume.antt =====
-- The counters on a volume of nvol3: the calls of the interface are those of Nvol3, and a loaded volume
-- with free slots does what the counters need.
pub mod Tests
pub mod Store
pub mod Reopened
pub mod RestartTests
use qoraal_flash.Common.{
  ℕ, zero, suc, ◌+◌, ◌≤◌, ◌<◌, ◌≡◌, ◌≢◌, refl, sym, ap, subst, ◌∙◌, ◌⊎◌, inl, inr, Bool, true,
  false, Option, none, some, List, [], ◌∷◌, ◌++◌, ◌==◌, if◌then◌else◌, All, arith, length, leb, ltb,
  min, Bool-cases, Option-cases,
}
use qoraal_flash.Common.Word.{u32_bytes}
use qoraal_flash.Common.Run.{Status, eok, Run, done, stop, status_of, state_of}
use qoraal_flash.Flash.{Platform}
use qoraal_flash.Flash.Nor.{NorFlash}
use qoraal_flash.Nvol3.Dictionary.{same_key, Dictionary, IsMap, Entry, Key}
use qoraal_flash.Nvol3.Volume.{Config, Record, World, malloc, max_records, headroom}
use qoraal_flash.Nvol3.Slot.Read.{Placed, slot_at, record_at}
use qoraal_flash.Nvol3.Slot.Commit.{IsPayload}
use qoraal_flash.Nvol3.Table.{key_of}
use qoraal_flash.Nvol3.Set.{nvol3_record_get, nvol3_record_delete, callback, stamped}
use qoraal_flash.Nvol3.Swap.{nvol3_record_set}
use qoraal_flash.Nvol3.Load.{nvol3_load, nvol3_validate, nvol3_reset, nvol3_unload}
use qoraal_flash.Nvol3.View.{live, newest, newest-some, listed}
use qoraal_flash.Nvol3.View.Update.{live_at}
use qoraal_flash.Nvol3.Loaded.{IsLoaded, contents}
use qoraal_flash.Nvol3.Loaded.Put.{record_at-Erased}
use qoraal_flash.Nvol3.Loaded.Set.{IsPut}
use qoraal_flash.Nvol3.Loaded.RecordSet.{nvol3_record_set-IsPut}
use qoraal_flash.Nvol3.Loaded.Delete.{IsRemoved, nvol3_record_delete-IsRemoved, outcome}
use qoraal_flash.Nvol3.Loaded.Get.{KeepsKeys, nvol3_record_get_lem}
use qoraal_flash.Tallies.{Rtc, Calls, Tallies, key, record_len, rounds}
use qoraal_flash.Tallies.Stored.{IsCodec, IsRecord, IsStore, IsSure, restore}
use qoraal_flash.Tallies.Counters.{IsCounter, rounds-IsIn}
use qoraal_flash.Tallies.Persist.{tallies_persist}
use qoraal_flash.Tallies.Persist.Drain.{IsReady, dirty_in, none_dirty, persist-IsLess}

abbrev pub outcome_of : {W : Type 0} → Run W (Unit {0}) → Status × W
outcome_of r = (status_of r, state_of r)

abbrev pub has_some : {A : Type 0} → Option A → Bool
has_some none = false
has_some (some a) = true

-- The calls on a volume; its allocations are those of the scratch record too.
abbrev pub volume_calls :
    {Store : Type 0} → Platform Store → (D : Dictionary) → Config → Calls (World D.Dict Store)
volume_calls p D cfg = record {
  has_dict = λ w. has_some w.vol.dict;
  malloc = λ w. elim (malloc w) [ done _ w' ↦ (true, w') | stop _ w' ↦ (false, w') ];
  nvol3_validate = λ w. nvol3_validate p D cfg w.store;
  nvol3_load = λ w. outcome_of (nvol3_load p D cfg w);
  nvol3_reset = λ w. outcome_of (nvol3_reset p D cfg w);
  nvol3_unload = nvol3_unload p D cfg;
  nvol3_record_get = nvol3_record_get p D cfg;
  nvol3_record_set = λ bytes n w. outcome_of (nvol3_record_set p D cfg bytes n w);
  nvol3_record_delete = λ bytes w. outcome_of (nvol3_record_delete p D cfg bytes w);
}

abbrev pub IsKeyIn : Key → List Key → Type 0
IsKeyIn k [] = ⊥
IsKeyIn k (j ∷ js) = (j ≡ k) ⊎ IsKeyIn k js

-- A dictionary with keys of DICTIONARY_KEYSPEC_UINT: a key is the word at the start of a buffer, and
-- the dictionary counts its keys.
pub record HasIds (D : Dictionary) : Type 0 where
  pub at_front : (k : ℕ) (rest : List ℕ) → D.key_at (u32_bytes k ++ rest) ≡ D.key_at (u32_bytes k)
  pub differ :
      (j k : ℕ)
      → j < 65536
      → k < 65536
      → same_key (D.key_at (u32_bytes j)) (D.key_at (u32_bytes k)) ≡ (j == k)
  pub counts :
      (d : D.Dict) (ks : List Key)
      → ((k : Key) (e : Entry) → D.get d k ≡ some e → IsKeyIn k ks)
      → D.count d ≤ length ks

module _ {Store : Type 0} {p : Platform Store} {F : NorFlash p} {D : Dictionary} (ids : HasIds D)
    {cfg : Config} {sector : ℕ} (pl : Placed F cfg sector) where
  -- The keys of the records in the slots below `n`.
  slot_key : Option Record → Key
  slot_key none = []
  slot_key (some r) = key_of D cfg r

  slot_keys : (ℕ → ℕ) → ℕ → List Key
  slot_keys c zero = []
  slot_keys c (suc n) = slot_key (live_at p D cfg sector c n) ∷ slot_keys c n

  length-slot_keys : (c : ℕ → ℕ) (n : ℕ) → length (slot_keys c n) ≡ n
  unfolding slot_keys
  length-slot_keys c zero = refl
  length-slot_keys c (suc n) = ap suc (length-slot_keys c n)

  slot_keys-IsKeyIn :
      (c : ℕ → ℕ) (n i : ℕ) (r : Record)
      → i < n
      → live_at p D cfg sector c i ≡ some r
      → IsKeyIn (key_of D cfg r) (slot_keys c n)
  unfolding slot_keys slot_key
  slot_keys-IsKeyIn c zero i r lo e = absurd (omega arith)
  slot_keys-IsKeyIn c (suc n) i r lo e = elim (Bool-cases (i == n)) [
    | inl q ↦ let same : i ≡ n = ground arith in inl (rw (← same) (rw e refl))
    | inr q ↦ inr (slot_keys-IsKeyIn c n i r (ground arith) e)
  ]

  -- A record that counts stands in a slot that was used.
  used :
      (w : World D.Dict Store) (L : IsLoaded F D cfg sector w) (i : ℕ) (r : Record)
      → i < max_records cfg
      → live_at p D cfg sector (F.cell w.store) i ≡ some r
      → i < w.vol.next_idx
  unfolding live
  used w L i r below e = elim (Bool-cases (ltb i w.vol.next_idx)) [
    | inl q ↦ ground (arith, q)
    | inr q ↦
        let blank =
          record_at-Erased cfg (F.cell w.store) (slot_at cfg sector i) pl.head_fits
            (L.erased_behind i (ground (arith, q)) below) in
        absurd (cc (e, ap (live p D cfg) blank))
  ]

  -- A loaded volume has no more keys than slots that were used.
  pub count-le :
      (w : World D.Dict Store) (L : IsLoaded F D cfg sector w)
      → D.count L.table.dict ≤ w.vol.next_idx
  unfolding listed
  count-le w L = rw (← length-slot_keys (F.cell w.store) w.vol.next_idx) (
      ids.counts L.table.dict (slot_keys (F.cell w.store) w.vol.next_idx)
        (λ k e h. of_found k e h (newest p D cfg (F.cell w.store) sector (max_records cfg) k) refl))
    where
      of_found :
          (k : Key) (e : Entry)
          → D.get L.table.dict k ≡ some e
          → (o : Option (ℕ × Record))
          → newest p D cfg (F.cell w.store) sector (max_records cfg) k ≡ o
          → IsKeyIn k (slot_keys (F.cell w.store) w.vol.next_idx)
      of_found k e h none q = absurd (cc (h, L.table.lists k, ap (listed p D cfg) q))
      of_found k e h (some (i, r)) q =
          let (below, counts, keyed) =
            newest-some p D cfg (F.cell w.store) sector (max_records cfg) k q in
          subst (λ j. IsKeyIn j (slot_keys (F.cell w.store) w.vol.next_idx)) keyed
            (slot_keys-IsKeyIn (F.cell w.store) w.vol.next_idx i r (used w L i r below counts)
              counts)
