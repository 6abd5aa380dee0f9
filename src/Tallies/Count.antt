-- ===== src/Tallies/Count.antt =====
-- Counting and reading back: tallies_ready, tallies_inc, tallies_add, tallies_set, tallies_clear,
-- tallies_get_value, tallies_get, tallies_name and the walk over the blocks. `now` is the local time
-- that qoraal's clock gives at the call.
pub mod Refine
use qoraal_flash.Common.{
  ℕ, Bool, true, false, Option, none, some, List, [], ◌∷◌, ◌==◌, ◌||◌, not, if◌then◌else◌, leb,
}
use qoraal_flash.Common.Word.{add32, IsWord}
use qoraal_flash.Common.Run.{Status, eok, e_parm, Result, ok, err}
use qoraal_flash.Tallies.{Rtc, Entry, Tallies, put, no_entry, base_none}

-- The block behind another one in the list, or none.
unfoldable pub next_in : ℕ → List ℕ → Option ℕ
next_in b [] = none
next_in b (c ∷ []) = none
next_in b (c ∷ d ∷ ds) = let rest = next_in b (d ∷ ds) in if c == b then some d else rest

module _ {R : Rtc} {V : Type 0} where
  unfoldable pub tallies_ready : Option ℕ → ℕ → Tallies R V → Bool
  tallies_ready none l t = false
  tallies_ready (some b) l t =
      not (not t.inst || leb (t.heap b).count l || ((t.heap b).base == base_none))

  -- The assignments to an entry and its flag.
  abbrev pub put_entry : ℕ → ℕ → Entry R → Tallies R V → Tallies R V
  put_entry b l e t = record t { entry = put b l e t.entry; dirty = put b l true t.dirty }

  -- `if (tallies_ready (blk, local) != EOK) return E_PARM`, and an assignment to the entry.
  unfoldable pub update : Option ℕ → ℕ → (Entry R → Entry R) → Tallies R V → Status × Tallies R V
  update none l f t = (e_parm, t)
  update (some b) l f t =
      if tallies_ready (some b) l t then (eok, put_entry b l (f (t.entry b l)) t) else (e_parm, t)

  unfoldable pub tallies_add :
      R.Date × R.Time → Option ℕ → ℕ → ℕ → Tallies R V → Status × Tallies R V
  tallies_add now blk l n =
      update blk l (λ e. record { date = now.0; time = now.1; value = add32 e.value n })

  unfoldable pub tallies_inc : R.Date × R.Time → Option ℕ → ℕ → Tallies R V → Status × Tallies R V
  tallies_inc now blk l = tallies_add now blk l 1

  unfoldable pub tallies_set :
      R.Date × R.Time → Option ℕ → ℕ → ℕ → Tallies R V → Status × Tallies R V
  tallies_set now blk l n = update blk l (λ e. record { date = now.0; time = now.1; value = n })

  unfoldable pub tallies_clear : Option ℕ → ℕ → Tallies R V → Status × Tallies R V
  tallies_clear blk l = update blk l (λ e. no_entry R)

  unfoldable pub tallies_get_value : Option ℕ → ℕ → Tallies R V → ℕ
  tallies_get_value none l t = 0
  tallies_get_value (some b) l t = if tallies_ready (some b) l t then (t.entry b l).value else 0

  -- `out` is whether the place for the entry is not null.
  unfoldable pub tallies_get : Option ℕ → ℕ → Bool → Tallies R V → Result (Entry R)
  tallies_get none l out t = err e_parm
  tallies_get (some b) l out t =
      if not out || not (tallies_ready (some b) l t) then err e_parm else ok (t.entry b l)

  unfoldable pub tallies_name : Option ℕ → ℕ → Tallies R V → Option (List ℕ)
  tallies_name none l t = none
  tallies_name (some b) l t = if leb (t.heap b).count l then none else (t.heap b).defs l

  unfoldable pub tallies_block_first : Tallies R V → Option ℕ
  tallies_block_first t = elim t.blocks [ [] ↦ none | ◌∷◌ b bs ↦ some b ]

  unfoldable pub tallies_block_next : Option ℕ → Tallies R V → Option ℕ
  tallies_block_next none t = none
  tallies_block_next (some b) t = next_in b t.blocks

  unfoldable pub tallies_mismatched : Tallies R V → ℕ
  tallies_mismatched t = t.mismatched

-- The calls that change a counter.
pub data Change (R : Rtc) : Type 0 where
  inc : R.Date → R.Time → Change R
  add set : R.Date → R.Time → ℕ → Change R
  clear : Change R

unfoldable pub change :
    {R : Rtc} {V : Type 0} → Change R → Option ℕ → ℕ → Tallies R V → Status × Tallies R V
change (inc d h) blk l = tallies_inc (d, h) blk l
change (add d h n) blk l = tallies_add (d, h) blk l n
change (set d h n) blk l = tallies_set (d, h) blk l n
change clear blk l = tallies_clear blk l

-- What a call makes of an entry.
unfoldable pub changed : {R : Rtc} → Change R → Entry R → Entry R
changed (inc d h) e = record { date = d; time = h; value = add32 e.value 1 }
changed (add d h n) e = record { date = d; time = h; value = add32 e.value n }
changed (set d h n) e = record { date = d; time = h; value = n }
changed {R} clear e = no_entry R

-- The number that a call is given is a `uint32_t`.
abbrev pub IsChange : {R : Rtc} → Change R → Type 0
IsChange (inc d h) = Unit
IsChange (add d h n) = IsWord n
IsChange (set d h n) = IsWord n
IsChange clear = Unit
