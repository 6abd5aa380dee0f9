-- ===== src/Tallies/OnVolume/Store.antt =====
-- A loaded volume of nvol3 with free slots does what the counters need.
use qoraal_flash.Common.{
  ℕ, suc, ◌+◌, ◌≤◌, ◌<◌, ◌≡◌, ◌≢◌, refl, sym, ap, ◌∙◌, true, false, Option, none, some, List, ◌++◌,
  ◌==◌, if◌then◌else◌, arith, length,
}
use qoraal_flash.Common.Word.{u32_bytes}
use qoraal_flash.Common.Run.{eok, done, status_of, state_of}
use qoraal_flash.Flash.{Platform}
use qoraal_flash.Flash.Nor.{NorFlash}
use qoraal_flash.Nvol3.Dictionary.{Dictionary, IsMap}
use qoraal_flash.Nvol3.Volume.{nvol3_callback_tallie, Config, World, max_records, headroom}
use qoraal_flash.Nvol3.Slot.Read.{Placed}
use qoraal_flash.Nvol3.Slot.Commit.{IsPayload}
use qoraal_flash.Nvol3.Set.{nvol3_record_delete, callback, stamped}
use qoraal_flash.Nvol3.Swap.{nvol3_record_set}
use qoraal_flash.Nvol3.Loaded.{IsLoaded, contents}
use qoraal_flash.Nvol3.Loaded.Set.{IsPut}
use qoraal_flash.Nvol3.Loaded.RecordSet.{nvol3_record_set-IsPut}
use qoraal_flash.Nvol3.Loaded.Delete.{IsRemoved, nvol3_record_delete-IsRemoved, outcome}
use qoraal_flash.Nvol3.Loaded.Get.{KeepsKeys, nvol3_record_get_lem}
use qoraal_flash.Tallies.{Rtc, Tallies, key, record_len, rounds}
use qoraal_flash.Tallies.Stored.{IsCodec, IsRecord, IsStore, IsSure, restore}
use qoraal_flash.Tallies.Counters.{IsCounter, rounds-IsIn}
use qoraal_flash.Tallies.Persist.{tallies_persist}
use qoraal_flash.Tallies.Persist.Drain.{IsReady, dirty_in, none_dirty, persist-IsLess}
use qoraal_flash.Tallies.OnVolume.{outcome_of, has_some, volume_calls, HasIds, count-le}

-- The configuration of TALLIES_INST_DECL for records of `len` bytes.
pub record IsConfig (cfg : Config) (len : ℕ) : Type 0 where
  pub id_key : cfg.key_size ≡ 4
  pub has_key : 4 ≤ len
  pub fits : 8 + len ≤ cfg.record_size
  pub consents : cfg.write_cb ≡ some nvol3_callback_tallie

module _ {Store : Type 0} {p : Platform Store} {F : NorFlash p} {D : Dictionary} (M : IsMap D)
    (ids : HasIds D) {cfg : Config} {sector : ℕ} (keeps : KeepsKeys D cfg)
    (pl : Placed F cfg sector) where
  -- A loaded volume, with free slots for `n` records where records are to be written.
  abbrev pub IsGood : ℕ → World D.Dict Store → Type 0
  IsGood n w = IsLoaded F D cfg sector w × (0 < n → w.vol.next_idx + headroom + n ≤ max_records cfg)

  module _ (len : ℕ) (conf : IsConfig cfg len) where
    record-IsPayload : (k : ℕ) (bytes : List ℕ) → IsRecord len k bytes → IsPayload cfg bytes
    record-IsPayload k bytes r = record {
      is_bytes = r.are_bytes;
      fits = omega (arith, r.sized, conf.fits);
      has_key = omega (arith, r.sized, conf.id_key, conf.has_key);
      slot_fits = pl.record_size_fits;
    }

    agrees :
        (bytes : List ℕ) (w : World D.Dict Store)
        → callback p D cfg (stamped (length bytes) bytes) w ≡ done tt w
    unfolding callback
    agrees bytes w = rw conf.consents refl

    set :
        (n : ℕ) (w : World D.Dict Store) (k : ℕ) (bytes : List ℕ)
        → IsGood (suc n) w
        → IsRecord len k bytes
        → (w' : World D.Dict Store) × ((outcome_of (nvol3_record_set p D cfg bytes len w)).0 ≡ eok)
          × ((outcome_of (nvol3_record_set p D cfg bytes len w)).1 ≡ w')
          × IsPut F D cfg sector bytes w w'
    set n w k bytes (L, free) r =
        let room = free (omega arith) in
        let some_bytes : 0 < length bytes = omega (arith, r.sized, conf.has_key) in
        let (w', runs, put) =
          nvol3_record_set-IsPut M pl bytes (record-IsPayload k bytes r) w L (omega (arith, room))
            some_bytes (agrees bytes w) (omega (arith, room, count-le ids pl w L)) in
        let done_so : nvol3_record_set p D cfg bytes len w ≡ done tt w' =
          ap (λ m. nvol3_record_set p D cfg bytes m w) (sym r.sized) ∙ runs in
        (w', ap status_of done_so, ap state_of done_so, put)

    record_key :
        (k : ℕ) (bytes : List ℕ) → IsRecord len k bytes → D.key_at bytes ≡ D.key_at (u32_bytes k)
    record_key k bytes r = ap D.key_at r.keyed ∙ ids.at_front k r.tail

    -- What the volume holds under an id after a record was set.
    set_holds :
        (n : ℕ) (w : World D.Dict Store) (k : ℕ) (bytes : List ℕ)
        → IsGood (suc n) w
        → IsRecord len k bytes
        → (j : ℕ) → j < 65536
        → contents F D cfg sector
            (outcome_of (nvol3_record_set p D cfg bytes len w)).1
            (D.key_at (u32_bytes j))
          ≡ (if k == j then some bytes else contents F D cfg sector w (D.key_at (u32_bytes j)))
    set_holds n w k bytes g r j small =
        let (w', succeeds, runs, put) = set n w k bytes g r in
        rw runs (
          put.holds (D.key_at (u32_bytes j))
          ∙ rw (record_key k bytes r, ids.differ k j r.small small) refl)

    pub set_IsGood :
        (n : ℕ) (w : World D.Dict Store) (k : ℕ) (bytes : List ℕ)
        → IsGood (suc n) w
        → IsRecord len k bytes
        → IsGood n (outcome_of (nvol3_record_set p D cfg bytes len w)).1
    set_IsGood n w k bytes g r =
        let (w', succeeds, runs, put) = set n w k bytes g r in
        rw runs (put.loaded, λ some. omega (arith, g.1 (omega arith), put.next_near))

    delete :
        (n : ℕ) (w : World D.Dict Store) (k : ℕ) (rest : List ℕ)
        → IsGood n w
        → (w' : World D.Dict Store) × ((outcome_of
              (nvol3_record_delete p D cfg (u32_bytes k ++ rest) w)).1
            ≡ w')
          × IsRemoved F D cfg sector (D.key_at (u32_bytes k ++ rest)) w w'
    delete n w k rest (L, room) =
        let (w', runs, gone) = nvol3_record_delete-IsRemoved M pl (u32_bytes k ++ rest) w L in
        (w', ap state_of runs ∙ left _ w', gone)
      where
        left : (o : Option (List ℕ)) (v : World D.Dict Store) → state_of (outcome o v) ≡ v
        left none v = refl
        left (some held) v = refl

    pub delete_IsGood :
        (n : ℕ) (w : World D.Dict Store) (k : ℕ) (rest : List ℕ)
        → IsGood n w
        → k < 65536
        → IsGood n (outcome_of (nvol3_record_delete p D cfg (u32_bytes k ++ rest) w)).1
    delete_IsGood n w k rest g small =
        let (w', runs, gone) = delete n w k rest g in
        rw runs (gone.loaded, λ some. omega (arith, g.1 some, gone.next_same))

    pub delete_holds :
        (n : ℕ) (w : World D.Dict Store) (k : ℕ) (rest : List ℕ)
        → IsGood n w
        → k < 65536
        → (j : ℕ) → j < 65536
        → contents F D cfg sector
            (outcome_of (nvol3_record_delete p D cfg (u32_bytes k ++ rest) w)).1
            (D.key_at (u32_bytes j))
          ≡ (if k == j then none else contents F D cfg sector w (D.key_at (u32_bytes j)))
    delete_holds n w k rest g small j bound =
        let (w', runs, gone) = delete n w k rest g in
        rw runs (
          gone.holds (D.key_at (u32_bytes j))
          ∙ rw (ids.at_front k rest, ids.differ k j small bound) refl)

    pub set_same :
        (n : ℕ) (w : World D.Dict Store) (k : ℕ) (bytes : List ℕ)
        → IsGood (suc n) w
        → IsRecord len k bytes
        → contents F D cfg sector
            (outcome_of (nvol3_record_set p D cfg bytes len w)).1
            (D.key_at (u32_bytes k))
          ≡ some bytes
    set_same n w k bytes g r = ground (arith, set_holds n w k bytes g r k r.small)

    pub set_apart :
        (n : ℕ) (w : World D.Dict Store) (k : ℕ) (bytes : List ℕ)
        → IsGood (suc n) w
        → IsRecord len k bytes
        → (j : ℕ) → j < 65536
        → j ≢ k
        → contents F D cfg sector
            (outcome_of (nvol3_record_set p D cfg bytes len w)).1
            (D.key_at (u32_bytes j))
          ≡ contents F D cfg sector w (D.key_at (u32_bytes j))
    set_apart n w k bytes g r j small other =
        set_holds n w k bytes g r j small ∙ rw (unequal k j other) refl
      where
        unequal : (k j : ℕ) → j ≢ k → (k == j) ≡ false
        unequal k j h = ground arith

    pub fewer_slots :
        (n : ℕ) (w : World D.Dict Store)
        → w.vol.next_idx + headroom + suc n ≤ max_records cfg
        → w.vol.next_idx + headroom + n ≤ max_records cfg
    fewer_slots n w h = omega (arith, h)

    pub good_loaded : (n : ℕ) (w : World D.Dict Store) → IsGood n w → has_some w.vol.dict ≡ true
    good_loaded n w (L, room) = ap has_some L.table.is_dict

    -- A loaded volume with free slots is a volume for the counters.
    abbrev pub volume_store : IsStore (volume_calls p D cfg) len
    volume_store = record {
      IsGood = IsGood;
      held = λ w k. contents F D cfg sector w (D.key_at (u32_bytes k));
      loaded = good_loaded;
      fewer = λ n w g. (g.0, λ some. fewer_slots n w (g.1 (omega arith)));
      get = λ n w k g small. nvol3_record_get_lem keeps pl (u32_bytes k) w g.0;
      set_good = set_IsGood;
      set_held = λ n w k bytes g r e. set_same n w k bytes g r;
      set_other = set_apart;
      delete_good = delete_IsGood;
      delete_held = delete_holds;
    }

    pub volume_store-IsSure : IsSure volume_store
    volume_store-IsSure n w k bytes g r = (set n w k bytes g r).1

module _ {R : Rtc} (C : IsCodec R) {Store : Type 0} {p : Platform Store} {F : NorFlash p}
    {D : Dictionary} (M : IsMap D) (ids : HasIds D) {cfg : Config} {sector : ℕ}
    (keeps : KeepsKeys D cfg) (pl : Placed F cfg sector) (conf : IsConfig cfg (record_len R)) where
  abbrev S : IsStore (volume_calls p D cfg) (record_len R)
  S = volume_store M ids keeps pl (record_len R) conf

  -- What the counters are is on the flash: after tallies_persist, block_load would make of what the
  -- volume holds under the id of a counter the entry that the counter has, for every counter. The volume
  -- is one of nvol3, loaded and with a free slot for each dirty counter beside the four that it keeps
  -- free; its dictionary is a map of words that counts its keys; what is clean was stored before.
  pub tallies_persist-contents :
      (t : Tallies R (World D.Dict Store)) (n : ℕ)
      → IsReady (volume_store M ids keeps pl (record_len R) conf) t n
      → dirty_in t ≤ n
      → (b l : ℕ) → IsCounter t.heap t.blocks (b, l)
      → restore R ((t.heap b).defs l) (
          contents F D cfg sector
            (tallies_persist (volume_calls p D cfg) t).vol
            (D.key_at (u32_bytes (key R t b l))))
        ≡ t.entry b l
  unfolding tallies_persist
  tallies_persist-contents t n r enough b l i =
      let q =
        persist-IsLess C S (volume_store-IsSure M ids keeps pl (record_len R) conf) 0 t n r
          enough in
      let u = tallies_persist (volume_calls p D cfg) t in
      let j : IsCounter u.heap u.blocks (b, l) = rw (q.quiet.heap, q.quiet.blocks) i in
      let clean : u.dirty b l ≡ false =
        none_dirty u.dirty (rounds u.heap u.blocks) (b, l) (omega (arith, q.less))
          (rounds-IsIn u.heap u.blocks (b, l) q.ready.sound.apart j) in
      let kept = q.ready.kept b l j clean in
      ap
        (λ h.
          restore R ((h b).defs l)
            (contents F D cfg sector u.vol (D.key_at (u32_bytes ((h b).base + l)))))
        (sym q.quiet.heap)
      ∙ kept
      ∙ ap (λ f. f b l) q.quiet.entry
