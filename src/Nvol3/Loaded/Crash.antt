-- ===== src/Nvol3/Loaded/Crash.antt =====
-- The flash between the writes of nvol3_record_set, where a power failure may leave it.
use qoraal_flash.Common.{
  ℕ, ◌+◌, ◌<◌, ◌≡◌, ◌≢◌, refl, sym, ap, ◌∙◌, Option, some, List, arith, if◌then◌else◌, length,
}
use qoraal_flash.Common.Run.{Run, done, and_then}
use qoraal_flash.Flash.{Platform}
use qoraal_flash.Flash.Nor.{NorFlash}
use qoraal_flash.Nvol3.Dictionary.{same_key, Dictionary, IsMap, Key}
use qoraal_flash.Nvol3.Volume.{Config, World, u16, max_records, record_valid, headroom}
use qoraal_flash.Nvol3.Slot.{write_variable_record, set_variable_record_flags}
use qoraal_flash.Nvol3.Slot.Read.{Placed}
use qoraal_flash.Nvol3.Slot.Commit.{IsPayload}
use qoraal_flash.Nvol3.Table.{insert_lookup_table}
use qoraal_flash.Nvol3.Sector.{count_inuse}
use qoraal_flash.Nvol3.Set.{stamped, callback, commit, retire, next_slot}
use qoraal_flash.Nvol3.Swap.{nvol3_record_set}
use qoraal_flash.Nvol3.View.{newest}
use qoraal_flash.Nvol3.Loaded.{IsLoaded, contents, bytes_of}
use qoraal_flash.Nvol3.Loaded.Put.{committed_store, newest-written, newest-committed}
use qoraal_flash.Nvol3.Loaded.Store.{nothing_behind}
use qoraal_flash.Nvol3.Loaded.Set.{mark_valid, held_bytes, w1}
use qoraal_flash.Nvol3.Loaded.RecordSet.{
  wrote, replaced, write_new_lem, record_set-write_new, nvol3_record_set-IsPut,
}

module _ {Store : Type 0} {p : Platform Store} (F : NorFlash p) (D : Dictionary) (cfg : Config)
    (sector : ℕ) (bytes : List ℕ) (w : World D.Dict Store) where
  abbrev W : Type 0
  W = World D.Dict Store

  -- The slot of the record that the new one replaces.
  abbrev pub old : ℕ
  old = replaced (newest p D cfg (F.cell w.store) sector (max_records cfg) (D.key_at bytes))

  -- What is left to do once the new record is committed: the old one is marked, and the lookup table
  -- in memory follows.
  abbrev pub afterwards : W → Run W (Unit {0})
  afterwards wb =
      let wc = retire p D cfg old (count_inuse p D cfg (next_slot p D cfg wb)) in
      insert_lookup_table D cfg (stamped (length bytes) bytes) (u16 (wc.vol.next_idx + 65535)) wc

  -- What is held once the new record is there.
  abbrev pub updated : Key → Option (List ℕ)
  updated k = if same_key (D.key_at bytes) k then some bytes else contents F D cfg sector w k

  -- nvol3_record_set in its steps on the flash, the states behind the write of the record, behind the
  -- write of its flags VALID, and at the end, and what they hold.
  pub record IsStepwise (wa wb w' : W) : Type 0 where
    pub steps :
        nvol3_record_set p D cfg bytes (length bytes) w
        ≡ and_then
            (write_variable_record p cfg w.vol.sector
              (stamped (length bytes) bytes)
              w.vol.next_idx
              w)
            (λ _ v.
              and_then
                (set_variable_record_flags p cfg v.vol.sector record_valid v.vol.next_idx v)
                (λ _. afterwards))
    pub first :
        write_variable_record p cfg w.vol.sector (stamped (length bytes) bytes) w.vol.next_idx w
        ≡ done tt wa
    pub second :
        set_variable_record_flags p cfg wa.vol.sector record_valid wa.vol.next_idx wa ≡ done tt wb
    pub last : afterwards wb ≡ done tt w'
    pub before : (k : Key) → contents F D cfg sector wa k ≡ contents F D cfg sector w k
    pub committed : (k : Key) → contents F D cfg sector wb k ≡ updated k
    pub final : (k : Key) → contents F D cfg sector w' k ≡ updated k

module _ {Store : Type 0} {p : Platform Store} {F : NorFlash p} {D : Dictionary} (M : IsMap D)
    {cfg : Config} {sector : ℕ} (pl : Placed F cfg sector) (bytes : List ℕ)
    (pay : IsPayload cfg bytes) (w : World D.Dict Store) (L : IsLoaded F D cfg sector w)
    (room : w.vol.next_idx < max_records cfg) where
  abbrev done_b : World D.Dict Store
  done_b = record w { store = committed_store F cfg sector bytes w.vol.next_idx w.store }

  commit-afterwards :
      commit p D cfg
        (stamped (length bytes) bytes)
        (old F D cfg sector bytes w)
        (w1 M pl bytes pay w L room)
      ≡ afterwards F D cfg sector bytes w done_b
  unfolding commit
  commit-afterwards = rw (commit, mark_valid M pl bytes pay w L room) refl

  -- nvol3_record_set of bytes that are not held already, on a loaded volume with a free slot, memory
  -- to allocate, fewer records than the volume takes and a callback that agrees, consists of three
  -- steps on the flash: the record is written with the flags NEW, its flags VALID are written, and the
  -- record that it replaces is marked, behind which only the lookup table in memory follows. Behind the
  -- first write the volume holds under every key what it held; behind the second one, and at the end,
  -- it holds the new bytes under their key and the rest as before. A power failure between the writes
  -- loses neither the old value nor another record.
  pub record_set-crash :
      0 < length bytes
      → callback p D cfg (stamped (length bytes) bytes) w ≡ done tt w
      → D.count L.table.dict + headroom < max_records cfg
      → contents F D cfg sector w (D.key_at bytes) ≢ some bytes
      → (wa : World D.Dict Store) × (wb : World D.Dict Store) × (w' : World D.Dict Store)
        × IsStepwise F D cfg sector bytes w wa wb w'
  unfolding contents
  record_set-crash some_bytes agrees space changed =
      let m = w.vol.next_idx in
      let blank = L.erased_behind m (omega arith) room in
      let first = wrote M pl bytes pay w L room in
      let second = mark_valid M pl bytes pay w L room in
      let (w', runs, put) =
        nvol3_record_set-IsPut M pl bytes pay w L room some_bytes agrees space in
      let rest =
        record_set-write_new M pl bytes pay w L room some_bytes agrees space changed
        ∙ write_new_lem M pl bytes pay w L room _ agrees
        ∙ commit-afterwards in
      let follows : Run (World D.Dict Store) (Unit {0}) → Run (World D.Dict Store) (Unit {0}) =
        λ r. and_then r (λ _. afterwards F D cfg sector bytes w) in
      (
        w1 M pl bytes pay w L room,
        done_b,
        w',
        record {
          steps =
              rest
              ∙ sym (
                  ap
                    (λ r. and_then r (λ _ v.
                      follows (
                        set_variable_record_flags p cfg v.vol.sector record_valid v.vol.next_idx
                          v)))
                    first
                  ∙ ap follows second);
          first = first;
          second = second;
          last = sym rest ∙ runs;
          before = λ k. ap bytes_of (newest-written D pl bytes pay w.store m room blank k);
          committed = λ k.
              ap bytes_of (
                newest-committed D pl bytes pay w.store m room blank k
                  (λ i lo hi. nothing_behind pl bytes pay w L room i (omega arith) hi))
              ∙ held_bytes M pl bytes pay w L room k;
          final = put.holds;
        },
      )
