-- ===== src/Tallies/Lifecycle/Restart.antt =====
-- The counters across tallies_stop and tallies_start.
use qoraal_flash.Common.{ℕ, ◌≤◌, ◌<◌, ◌≡◌, refl, ap, ◌∙◌, true, false, not, arith, if◌then◌else◌}
use qoraal_flash.Common.Run.{Status, eok, e_nomem, e_unexp}
use qoraal_flash.Tallies.{Rtc, Calls, Tallies, record_len, rounds, key}
use qoraal_flash.Tallies.Persist.{is_eok, tallies_persist_bounded}
use qoraal_flash.Tallies.Persist.Drain.{IsReady, persist-IsLess, dirty_in, none_dirty}
use qoraal_flash.Tallies.Load.{blocks_load}
use qoraal_flash.Tallies.Load.Restore.{blocks_load-stored}
use qoraal_flash.Tallies.Counters.{IsCounter, counter_id, rounds-IsIn}
use qoraal_flash.Tallies.Stored.{IsCodec, IsStore, IsSure, restore}
use qoraal_flash.Tallies.Lifecycle.{
  load_volume, open_volume, start_with, tallies_start, tallies_stop,
}

-- The volume is validated and loaded again after it was unloaded, with the records that it held, and
-- there is memory for the scratch record.
pub record IsReopened {V : Type 0} {O : Calls V} {len : ℕ} (S : IsStore O len) (n : ℕ) (v : V)
    : Type 0 where
  pub memory : (O.malloc (O.nvol3_unload v)).0 ≡ true
  pub valid : O.nvol3_validate (O.malloc (O.nvol3_unload v)).1 ≡ eok
  pub loads : (O.nvol3_load (O.malloc (O.nvol3_unload v)).1).0 ≡ eok
  pub good : S.IsGood n (O.nvol3_load (O.malloc (O.nvol3_unload v)).1).1
  pub held :
      (k : ℕ) → k < 65536 → S.held (O.nvol3_load (O.malloc (O.nvol3_unload v)).1).1 k ≡ S.held v k

module _ {V : Type 0} {O : Calls V} {len : ℕ} (S : IsStore O len) where
  open_volume-eok :
      (n : ℕ) (v : V)
      → IsReopened S n v
      → open_volume O (O.malloc (O.nvol3_unload v)).1 ≡ O.nvol3_load (O.malloc (O.nvol3_unload v)).1
  unfolding open_volume load_volume is_eok
  open_volume-eok n v r = rw (r.valid, r.loads) refl

module _ {R : Rtc} {V : Type 0} (O : Calls V) where
  -- tallies_stop without its test.
  abbrev stopped : Tallies R V → Tallies R V
  stopped t' = record t' { vol = O.nvol3_unload t'.vol; scratch = false }

  abbrev pub halted : Tallies R V → Tallies R V
  halted t = record t { started = false }

  stop-eq :
      (t : Tallies R V)
      → t.started ≡ true
      → tallies_stop O t ≡ stopped (tallies_persist_bounded O 0 (halted t)).1
  unfolding tallies_stop
  stop-eq t h = ap (λ x. if not x then t else stopped (tallies_persist_bounded O 0 (halted t)).1) h

  -- tallies_start of counters that are not started, with memory for the scratch record.
  abbrev opened : Tallies R V → V → Tallies R V
  opened u v = record u { vol = v; scratch = true }

  abbrev launched : Tallies R V → Status × V → Status × Tallies R V
  launched u r = (r.0, record (blocks_load O (opened u r.1)) { started = true })

  start-eq :
      (u : Tallies R V)
      → u.inst ≡ true
      → u.started ≡ false
      → (O.malloc u.vol).0 ≡ true
      → tallies_start O u ≡ launched u (open_volume O (O.malloc u.vol).1)
  unfolding tallies_start start_with
  start-eq u i s a =
      let m = O.malloc u.vol in
      let denied : Status × Tallies R V = (e_nomem, record u { vol = m.1; scratch = false }) in
      let refused : Status × Tallies R V = (e_unexp, u) in
      let running : Status × Tallies R V = (eok, u) in
      ap (λ x. if not x then refused else if u.started then running else start_with O m u) i
      ∙ ap (λ x. if x then running else start_with O m u) s
      ∙ ap (λ x. if not x then denied else launched u (open_volume O m.1)) a

module _ {R : Rtc} (C : IsCodec R) {V : Type 0} {O : Calls V} (S : IsStore O (record_len R))
    (sure : IsSure S) where
  pub halted-IsReady : (t : Tallies R V) (n : ℕ) → IsReady S t n → IsReady S (halted O t) n
  halted-IsReady t n r = record {
    scratch = r.scratch;
    inst = r.inst;
    sound = record { apart = r.sound.apart; words = r.sound.words; texts = r.sound.texts };
    good = r.good;
    kept = r.kept;
    small = r.small;
  }

  -- The counters survive a restart: on a volume with room for what is dirty, on which writes succeed,
  -- tallies_start after tallies_stop of started counters returns EOK, and every counter is what it was
  -- before, and clean. It is supposed of the volume that the last pass of tallies_stop leaves that it is
  -- validated and loaded again after it was unloaded, with the records that it held then, and that
  -- there is memory for the scratch record.
  pub start-stop :
      (t : Tallies R V) (n : ℕ)
      → IsReady S t n
      → t.started ≡ true
      → dirty_in t ≤ n
      → (k : ℕ) → IsReopened S k (tallies_persist_bounded O 0 (halted O t)).1.vol
      → (b l : ℕ) → IsCounter t.heap t.blocks (b, l)
      → ((tallies_start O (tallies_stop O t)).0 ≡ eok)
        × ((tallies_start O (tallies_stop O t)).1.entry b l ≡ t.entry b l)
        × ((tallies_start O (tallies_stop O t)).1.dirty b l ≡ false)
  start-stop t n r h enough k again b l i =
      let t1 = halted O t in
      let p = persist-IsLess C S sure 0 t1 n (halted-IsReady t n r) enough in
      let t2 = (tallies_persist_bounded O 0 t1).1 in
      let v = (O.nvol3_load (O.malloc (O.nvol3_unload t2.vol)).1).1 in
      let runs : tallies_start O (tallies_stop O t)
          ≡ launched O (stopped O t2) (O.nvol3_load (O.malloc (O.nvol3_unload t2.vol)).1) =
        ap (tallies_start O) (stop-eq O t h)
        ∙ start-eq O (stopped O t2) p.ready.inst p.quiet.started again.memory
        ∙ ap (launched O (stopped O t2)) (open_volume-eok S k t2.vol again) in
      let i2 : IsCounter t2.heap t2.blocks (b, l) = rw (p.quiet.heap, p.quiet.blocks) i in
      let clean : t2.dirty b l ≡ false =
        none_dirty t2.dirty (rounds t2.heap t2.blocks) (b, l) (omega (arith, p.less))
          (rounds-IsIn t2.heap t2.blocks (b, l) p.ready.sound.apart i2) in
      let back =
        blocks_load-stored S (opened O (stopped O t2) v) k p.ready.sound.apart again.good refl b l
          i2 in
      let held =
        again.held (key R t2 b l)
          (omega (arith, counter_id t2.heap t2.blocks (b, l) p.ready.sound.apart i2)) in
      rw runs (
        again.loads,
        back.0
            ∙ ap (restore R ((t2.heap b).defs l)) held
            ∙ p.ready.kept b l i2 clean
            ∙ ap (λ f. f b l) p.quiet.entry,
        back.1,
      )
