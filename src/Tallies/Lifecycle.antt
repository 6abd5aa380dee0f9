-- ===== src/Tallies/Lifecycle.antt =====
-- The life of the counters: tallies_init, tallies_start, tallies_stop and tallies_reset.
pub mod Restart
use qoraal_flash.Common.{
  ℕ, Bool, true, false, Option, none, some, List, [], ◌∷◌, ◌++◌, ◌&&◌, not, if◌then◌else◌,
}
use qoraal_flash.Common.Run.{Status, eok, e_parm, e_unexp, e_nomem, fail}
use qoraal_flash.Tallies.{Rtc, Block, Calls, Tallies, put, no_entry, locals}
use qoraal_flash.Tallies.Persist.{is_eok, tallies_persist_bounded}
use qoraal_flash.Tallies.Load.{blocks_load}

-- Every entry of every block in the list.
unfoldable pub every_entry : (ℕ → Block) → List ℕ → List (ℕ × ℕ)
every_entry heap [] = []
every_entry heap (b ∷ bs) = locals b 0 (heap b).count ++ every_entry heap bs

module _ {V : Type 0} (O : Calls V) where
  unfoldable pub load_volume : V → Status × V
  load_volume v = if is_eok (O.nvol3_validate v) then O.nvol3_load v else (O.nvol3_validate v, v)

  -- nvol3_validate, nvol3_load, and nvol3_reset where one of them fails.
  unfoldable pub open_volume : V → Status × V
  open_volume v = let r = load_volume v in if is_eok r.0 then r else O.nvol3_reset r.1

module _ {R : Rtc} {V : Type 0} where
  -- `created` is whether each of the mutexes is there, from an earlier call or because
  -- os_mutex_create succeeds now.
  unfoldable pub tallies_init : Option V → Bool × Bool → Tallies R V → Status × Tallies R V
  tallies_init none created t = (e_parm, t)
  tallies_init (some v) created t =
      if created.0 && created.1 then (eok, record t { inst = true; vol = v }) else (fail, t)

  -- The loops of tallies_reset.
  unfoldable pub zero_all : List (ℕ × ℕ) → Tallies R V → Tallies R V
  zero_all [] t = t
  zero_all ((b, l) ∷ cs) t =
      zero_all cs (record t { entry = put b l (no_entry R) t.entry; dirty = put b l true t.dirty })

module _ {R : Rtc} {V : Type 0} (O : Calls V) where
  -- tallies_start from the scratch record on, which is null where there is no memory.
  unfoldable pub start_with : Bool × V → Tallies R V → Status × Tallies R V
  start_with m t =
      if not m.0
      then (e_nomem, record t { vol = m.1; scratch = false })
      else let r = open_volume O m.1 in
        let t' = blocks_load O (record t { vol = r.1; scratch = true }) in
        (r.0, record t' { started = true })

  unfoldable pub tallies_start : Tallies R V → Status × Tallies R V
  tallies_start t =
      if not t.inst
      then (e_unexp, t)
      else if t.started
      then (eok, t)
      else start_with (O.malloc t.vol) t

  unfoldable pub tallies_stop : Tallies R V → Tallies R V
  tallies_stop t =
      if not t.started
      then t
      else let t' = (tallies_persist_bounded O 0 (record t { started = false })).1 in
        record t' { vol = O.nvol3_unload t'.vol; scratch = false }

  unfoldable pub tallies_reset : Tallies R V → Tallies R V
  tallies_reset t =
      if not t.started
      then t
      else let t' = record t { vol = (O.nvol3_reset t.vol).1 } in
        let z = zero_all (every_entry t'.heap t'.blocks) t' in
        (tallies_persist_bounded O 0 (record z { mismatched = 0 })).1
