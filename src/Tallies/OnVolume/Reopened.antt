-- ===== src/Tallies/OnVolume/Reopened.antt =====
-- A volume of nvol3 is opened again with what it held, as tallies_start relies on it.
use mathlib.Core.Path.{subst}
use qoraal_flash.Common.{sym, ℕ, ◌≤◌, ◌≡◌, ap, ◌∙◌, true, false, none, arith}
use qoraal_flash.Common.Word.{u32_bytes}
use qoraal_flash.Common.Run.{eok}
use qoraal_flash.Flash.{Platform}
use qoraal_flash.Flash.Nor.{NorFlash}
use qoraal_flash.Nvol3.Dictionary.{Dictionary, IsMap}
use qoraal_flash.Nvol3.Volume.{Config, World, malloc}
use qoraal_flash.Nvol3.Slot.Read.{Placed}
use qoraal_flash.Nvol3.Sector.{get_sector_version}
use qoraal_flash.Nvol3.Load.{nvol3_validate, nvol3_unload}
use qoraal_flash.Nvol3.Loaded.{IsLoaded, contents}
use qoraal_flash.Nvol3.Loaded.Get.{KeepsKeys}
use qoraal_flash.Nvol3.Loaded.Reload.{restarted}
use qoraal_flash.Nvol3.Loaded.Same.{IsOther}
use qoraal_flash.Nvol3.Loaded.Reopen.{InUse, flags_of, nvol3_load-IsLoaded}
use qoraal_flash.Tallies.{Calls, Rtc, Tallies, record_len}
use qoraal_flash.Tallies.Stored.{IsCodec}
use qoraal_flash.Tallies.Counters.{IsCounter}
use qoraal_flash.Tallies.Persist.{tallies_persist_bounded}
use qoraal_flash.Tallies.Persist.Drain.{IsReady, dirty_in, persist-IsLess}
use qoraal_flash.Tallies.Lifecycle.{tallies_start, tallies_stop}
use qoraal_flash.Tallies.Lifecycle.Restart.{IsReopened, halted, halted-IsReady, start-stop}
use qoraal_flash.Tallies.OnVolume.{outcome_of, volume_calls, HasIds}
use qoraal_flash.Tallies.OnVolume.Store.{IsConfig, IsGood, volume_store, volume_store-IsSure}

module _ {Store : Type 0} {p : Platform Store} {F : NorFlash p} {D : Dictionary} (M : IsMap D)
    (ids : HasIds D) {cfg : Config} {sector other : ℕ} (keeps : KeepsKeys D cfg)
    (pl : Placed F cfg sector) (o : IsOther F cfg sector other) (len : ℕ)
    (conf : IsConfig cfg len) where
  abbrev O : Calls (World D.Dict Store)
  O = volume_calls p D cfg

  -- The instance behind nvol3_unload, and the allocation of the scratch record.
  abbrev unloaded : World D.Dict Store → World D.Dict Store
  unloaded w = restarted w (record w.vol { dict = none })

  unload-eq :
      (w : World D.Dict Store)
      → IsLoaded F D cfg sector w
      → O.malloc (O.nvol3_unload w) ≡ (true, unloaded w)
  unfolding malloc nvol3_unload
  unload-eq w L = ap (λ l. O.malloc (record (O.nvol3_unload w) { allocations = l })) L.table.memory

  -- A loaded volume that nvol3_validate accepts, whose sector has the version of the configuration and is
  -- the one in use by the flags of the two sectors, is opened again by nvol3_load with what it held.
  pub volume-IsReopened :
      (w : World D.Dict Store)
      → IsLoaded F D cfg sector w
      → nvol3_validate p D cfg w.store ≡ eok
      → (get_sector_version p cfg w.store sector).0 ≡ cfg.version
      → InUse F D cfg sector
          (flags_of p cfg w.store cfg.sector1_addr)
          (flags_of p cfg w.store cfg.sector2_addr)
          other
      → IsReopened (volume_store M ids keeps pl len conf) 0 w
  volume-IsReopened w L accepted version in_use =
      let (w', runs, loaded, holds) =
        nvol3_load-IsLoaded M pl o w (record w.vol { dict = none }) L version in_use in
      let m = unload-eq w L in
      let result : O.nvol3_load (O.malloc (O.nvol3_unload w)).1 ≡ (eok, w') =
        ap (λ x. O.nvol3_load x.1) m ∙ ap outcome_of runs in
      record {
        memory = ap (λ x. x.0) m;
        valid = ap (λ x. O.nvol3_validate x.1) m ∙ accepted;
        loads = ap (λ x. x.0) result;
        good =
            subst (IsGood M ids keeps pl 0) (sym (ap (λ x. x.1) result))
              (loaded, λ some. absurd (omega (arith, some)));
        held = λ k small.
            ap (λ x. contents F D cfg sector x.1 (D.key_at (u32_bytes k))) result
            ∙ holds (D.key_at (u32_bytes k));
      }

-- The counters survive a restart on a volume of nvol3: tallies_start after tallies_stop of started
-- counters returns EOK, and every counter is what it was before, and clean. The volume is loaded, with a
-- free slot for each dirty counter beside the four that it keeps free, and its dictionary is a map of
-- words that counts its keys; what is clean was stored before. It is supposed of the flash that the last
-- pass of tallies_stop leaves that nvol3_validate accepts it, and that by the version and the flags of
-- the two sectors the sector of the volume is the one in use.
pub tallies_start-tallies_stop :
    {R : Rtc} (C : IsCodec R) {Store : Type 0} {p : Platform Store} {F : NorFlash p}
    {D : Dictionary} (M : IsMap D) (ids : HasIds D) {cfg : Config} {sector other : ℕ}
    (keeps : KeepsKeys D cfg) (pl : Placed F cfg sector) (o : IsOther F cfg sector other)
    (conf : IsConfig cfg (record_len R)) (t : Tallies R (World D.Dict Store)) (n : ℕ)
    → IsReady (volume_store M ids keeps pl (record_len R) conf) t n
    → t.started ≡ true
    → dirty_in t ≤ n
    → let s =
        (tallies_persist_bounded
          (volume_calls p D cfg)
          0
          (halted (volume_calls p D cfg) t)).1.vol.store in
      nvol3_validate p D cfg s ≡ eok
      → (get_sector_version p cfg s sector).0 ≡ cfg.version
      → InUse F D cfg sector
          (flags_of p cfg s cfg.sector1_addr)
          (flags_of p cfg s cfg.sector2_addr)
          other
      → (b l : ℕ) → IsCounter t.heap t.blocks (b, l)
      → let u = tallies_start (volume_calls p D cfg) (tallies_stop (volume_calls p D cfg) t) in
        (u.0 ≡ eok) × (u.1.entry b l ≡ t.entry b l) × (u.1.dirty b l ≡ false)
tallies_start-tallies_stop {R} C {p} {D} M ids {cfg} keeps pl o conf t n r h enough accepted version
      in_use b l i =
    let O = volume_calls p D cfg in
    let S = volume_store M ids keeps pl (record_len R) conf in
    let sure = volume_store-IsSure M ids keeps pl (record_len R) conf in
    let q = persist-IsLess C S sure 0 (halted O t) n (halted-IsReady C S sure t n r) enough in
    start-stop C S sure t n r h enough 0
      (volume-IsReopened M ids keeps pl o (record_len R) conf
        (tallies_persist_bounded O 0 (halted O t)).1.vol q.ready.good.0 accepted version in_use)
      b l i
