-- ===== src/Tallies/Persist.antt =====
-- Writing the counters to the volume: entry_write, tallies_persist_bounded and tallies_cb.
pub mod Claimed
pub mod Drain
pub mod Rounds
pub mod Passes
pub mod Kept
pub mod Steps
use qoraal_flash.Common.{
  ℕ, Bool, true, false, Option, none, some, List, [], ◌∷◌, ◌==◌, ◌&&◌, not, if◌then◌else◌, leb,
}
use qoraal_flash.Common.Word.{add32}
use qoraal_flash.Common.Run.{Status, eok}
use qoraal_flash.Tallies.{
  Rtc, Calls, Tallies, put, record_of, rounds, record_len, max_per_pass, persist_resume,
}

-- Whether a call succeeded, `... >= EOK`. Of the codes only EOK is a success here: the model takes every
-- further code of a flash driver for an error, although the test would pass one above EOK.
unfoldable pub is_eok : Status → Bool
is_eok eok = true
is_eok e = false

-- The variables of a pass.
pub record Pass (R : Rtc) (V : Type 0) : Type 0 where
  pub written : ℕ
  pub remaining : ℕ
  pub state : Tallies R V

-- `max && (written >= max)`
abbrev pub bounded : ℕ → ℕ → Bool
bounded max written = not (max == 0) && leb max written

module _ {R : Rtc} {V : Type 0} where
  -- The first part of entry_write, under the value mutex: the entry is clean from here on, and the
  -- record to write is a copy of it.
  unfoldable pub claim : ℕ → ℕ → Tallies R V → Tallies R V
  claim b l t = record t { dirty = put b l false t.dirty }

  -- The last part of entry_write: the entry is dirty again where the write failed.
  unfoldable pub hand_back : ℕ → ℕ → Status → Tallies R V → Tallies R V
  hand_back b l e t = if is_eok e then t else record t { dirty = put b l true t.dirty }

module _ {R : Rtc} {V : Type 0} (O : Calls V) where
  -- The call of nvol3_record_set, without the value mutex.
  unfoldable pub write_out : List ℕ → Tallies R V → Status × Tallies R V
  write_out bytes t =
      let r = O.nvol3_record_set bytes (record_len R) t.vol in (r.0, record t { vol = r.1 })

  unfoldable pub write_claimed : ℕ → ℕ → Tallies R V → Tallies R V
  write_claimed b l t = let r = write_out (record_of R t b l) (claim b l t) in hand_back b l r.0 r.1

  unfoldable pub entry_write : ℕ → ℕ → Tallies R V → ℕ × Tallies R V
  entry_write b l t = if t.dirty b l then (1, write_claimed b l t) else (0, t)

  -- One round of the loops.
  unfoldable pub visit : ℕ → ℕ × ℕ → Pass R V → Pass R V
  visit max (b, l) s =
      if bounded max s.written
      then (if s.state.dirty b l then record s { remaining = add32 s.remaining 1 } else s)
      else let r = entry_write b l s.state in
        record s { written = add32 s.written r.0; state = r.1 }

  unfoldable pub visit_all : ℕ → List (ℕ × ℕ) → Pass R V → Pass R V
  visit_all max [] s = s
  visit_all max (c ∷ cs) s = visit_all max cs (visit max c s)

  -- Whether there is somewhere to write.
  abbrev pub can_write : Tallies R V → Bool
  can_write t = t.scratch && t.inst && O.has_dict t.vol

  unfoldable pub tallies_persist_bounded : ℕ → Tallies R V → ℕ × Tallies R V
  tallies_persist_bounded max t =
      if can_write t
      then (let s =
            visit_all max (rounds t.heap t.blocks)
              (record { written = 0; remaining = 0; state = t }) in
          (s.remaining, s.state))
      else (0, t)

  unfoldable pub tallies_persist : Tallies R V → Tallies R V
  tallies_persist t = (tallies_persist_bounded 0 t).1

  -- What tallies_cb leaves for its run, and in how many seconds it is to run again, which is
  -- TALLIES_PERSIST_INTERVAL where nothing is left to write.
  unfoldable pub tallies_cb : ℕ → Bool → Tallies R V → Option ℕ × Tallies R V
  tallies_cb interval is_run t =
      if is_run && t.started
      then (let r = tallies_persist_bounded max_per_pass t in
          (some (if r.0 == 0 then interval else persist_resume), r.1))
      else (none, t)
