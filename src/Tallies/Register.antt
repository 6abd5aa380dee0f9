-- ===== src/Tallies/Register.antt =====
-- The list of registered blocks: tallies_register and tallies_unregister.
pub mod Registry
pub mod Runs
pub mod Apart
use qoraal_flash.Common.{
  ℕ, zero, suc, ◌%◌, Bool, true, false, Option, none, some, List, [], ◌∷◌, ◌++◌, ◌==◌, not, ◌&&◌,
  ◌||◌, if◌then◌else◌, ltb, leb, length,
}
use qoraal_flash.Common.Word.{add32, ℤ, pos, negsuc}
use qoraal_flash.Common.Run.{Status, eok, e_parm, e_busy, e_notfound}
use qoraal_flash.Tallies.{Rtc, Block, Calls, Tallies, base_none}
use qoraal_flash.Tallies.Load.{block_load}

unfoldable pub is_some : Option (List ℕ) → Bool
is_some none = false
is_some (some s) = true

unfoldable pub name_fits : Option (List ℕ) → Bool
name_fits none = false
name_fits (some s) = leb (length s) 11

-- The loop over the names, from `l` on with so many to come.
unfoldable pub names_fit : (ℕ → Option (List ℕ)) → ℕ → ℕ → Bool
names_fit defs l zero = true
names_fit defs l (suc n) = let rest = names_fit defs (suc l) n in name_fits (defs l) && rest

-- The block itself is sound: its pointers are not null and it has counters.
unfoldable pub is_whole : Block → Bool
is_whole blk =
    is_some blk.name && blk.has_defs && blk.has_entry && blk.has_dirty && not (blk.count == 0)

unfoldable pub block_find : ℕ → List ℕ → Bool
block_find b [] = false
block_find b (c ∷ cs) = let rest = block_find b cs in (c == b) || rest

-- Whether two ranges of ids share one, as block_find_overlap asks for the range from `base` on.
unfoldable pub overlaps : ℕ → ℕ → Block → Bool
overlaps base count other =
    ltb base (add32 other.base other.count) && ltb other.base (add32 base count)

unfoldable pub block_find_overlap : (ℕ → Block) → List ℕ → ℕ → ℕ → Option ℕ
block_find_overlap heap [] b base = none
block_find_overlap heap (c ∷ cs) b base =
    let rest = block_find_overlap heap cs b base in
    if (c == b) || ((heap c).base == base_none)
    then rest
    else if overlaps base (heap b).count (heap c)
    then some c
    else rest

unfoldable pub unlink : ℕ → List ℕ → List ℕ
unlink b [] = []
unlink b (c ∷ cs) = let rest = unlink b cs in if c == b then cs else c ∷ rest

abbrev pub set_base : ℕ → ℕ → (ℕ → Block) → ℕ → Block
set_base b base heap c = if b == c then record (heap c) { base = base } else heap c

module _ {R : Rtc} {V : Type 0} (O : Calls V) where
  -- The block is at the end of the list; it is filled if the counters have been started.
  unfoldable pub link_block : ℕ → ℕ → Tallies R V → Tallies R V
  link_block b base t =
      let t' = record t {
        heap = set_base b (base % 65536) t.heap;
        blocks = t.blocks ++ (b ∷ []);
      } in
      if t.started then block_load O b t' else t'

  -- What tallies_register does with sound arguments.
  unfoldable pub register_at : ℕ → ℕ → Tallies R V → Status × Tallies R V
  register_at b base t =
      if block_find b t.blocks
      then (if (t.heap b).base == base % 65536 then eok else e_busy, t)
      else elim (block_find_overlap t.heap t.blocks b base) [
        | some c ↦ (e_busy, t)
        | none ↦ (eok, link_block b base t)
      ]

  unfoldable pub tallies_register : Option ℕ → ℤ → Tallies R V → Status × Tallies R V
  tallies_register none base t = (e_parm, t)
  tallies_register (some b) (negsuc n) t = (e_parm, t)
  tallies_register (some b) (pos base) t =
      let blk = t.heap b in
      if is_whole blk && leb (add32 base blk.count) base_none && names_fit blk.defs 0 blk.count
      then register_at b base t
      else (e_parm, t)

unfoldable pub tallies_unregister :
    {R : Rtc} {V : Type 0} → Option ℕ → Tallies R V → Status × Tallies R V
tallies_unregister none t = (e_parm, t)
tallies_unregister (some b) t =
    if block_find b t.blocks
    then (eok, record t { blocks = unlink b t.blocks; heap = set_base b base_none t.heap })
    else (e_notfound, t)
