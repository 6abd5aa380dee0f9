-- ===== src/Nlog3/Find.antt =====
-- Choosing a sector by its sequence: nlog3_find_newest_current_sector, nlog3_find_oldest_sector and
-- nlog3_find_sector_after, three loops over all sector headers.
pub mod Loop
pub mod Newest
use qoraal_flash.Common.{
  ℕ, zero, suc, ◌+◌, Bool, true, false, ◌&&◌, Option, none, some, ◌==◌, if◌then◌else◌,
}
use qoraal_flash.Common.Run.{
  Status, e_notfound, e_corrupt, Result, ok, err, Run, done, stop, Cmd, and_then,
}
use qoraal_flash.Flash.{Platform}
use qoraal_flash.Nlog3.Format.{SectorHeader, state_valid}
use qoraal_flash.Nlog3.Layout.{Log, seq_after, seq_before}
use qoraal_flash.Nlog3.Sector.{sector_header_read}

-- E_NOTFOUND and E_CORRUPT: the sector is passed over.
abbrev pub skips : Status → Bool
skips e_notfound = true
skips e_corrupt = true
skips e = false

module _ {Store S : Type 0} (p : Platform Store) where
  -- `for (i = 0; i < sectorcount; i++)` over the headers that can be read, from sector `i` on; any
  -- other error than the two above ends it.
  unfoldable pub over_sectors :
      Log → Store → (ℕ → SectorHeader → Cmd S (Unit {0})) → ℕ → ℕ → Cmd S (Unit {0})
  over_sectors log s body zero i st = done tt st
  over_sectors log s body (suc n) i st = elim (sector_header_read p log s i) [
    | ok h ↦ and_then (body i h st) (λ _ st'. over_sectors log s body n (i + 1) st')
    | err e ↦ elim (skips e) [ true ↦ over_sectors log s body n (i + 1) st | false ↦ stop e st ]
  ]

-- `found`, `*sector` and `*sequence`.
abbrev pub Choice : Type 0
Choice = Option (ℕ × ℕ)

-- The three loop bodies, each with its condition.
unfoldable pub pick_newest : ℕ → SectorHeader → Choice → Choice
pick_newest i h none = if h.state == state_valid then some (i, h.sequence) else none
pick_newest i h (some (j, sequence)) =
    if (h.state == state_valid) && seq_after h.sequence sequence
    then some (i, h.sequence)
    else some (j, sequence)

unfoldable pub pick_oldest : ℕ → SectorHeader → Choice → Choice
pick_oldest i h none = if h.state == state_valid then some (i, h.sequence) else none
pick_oldest i h (some (j, sequence)) =
    if (h.state == state_valid) && seq_before h.sequence sequence
    then some (i, h.sequence)
    else some (j, sequence)

unfoldable pub pick_after : ℕ → ℕ → SectorHeader → Choice → Choice
pick_after bound i h none =
    if (h.state == state_valid) && seq_after h.sequence bound then some (i, h.sequence) else none
pick_after bound i h (some (j, sequence)) =
    if (h.state == state_valid) && seq_after h.sequence bound && seq_before h.sequence sequence
    then some (i, h.sequence)
    else some (j, sequence)

-- `return found ? EOK : E_NOTFOUND`
abbrev pub chosen : Run Choice (Unit {0}) → Result (ℕ × ℕ)
chosen (done _ (some c)) = ok c
chosen (done _ none) = err e_notfound
chosen (stop e c) = err e

module _ {Store : Type 0} (p : Platform Store) where
  unfoldable pub find_with : (ℕ → SectorHeader → Choice → Choice) → Log → Store → Result (ℕ × ℕ)
  find_with pick log s =
      chosen (over_sectors p log s (λ i h c. done tt (pick i h c)) log.sectorcount 0 none)

  unfoldable pub find_newest_current_sector : Log → Store → Result (ℕ × ℕ)
  find_newest_current_sector = find_with pick_newest

  unfoldable pub find_oldest_sector : Log → Store → Result (ℕ × ℕ)
  find_oldest_sector = find_with pick_oldest

  unfoldable pub find_sector_after : ℕ → Log → Store → Result (ℕ × ℕ)
  find_sector_after sequence = find_with (pick_after sequence)
