-- ===== src/Tallies/Load.antt =====
-- Filling the counters from the volume: block_load.
pub mod Filled
pub mod Restore
pub mod Frame
use qoraal_flash.Common.{
  ℕ, Bool, true, false, List, [], ◌∷◌, ◌++◌, ◌==◌, ◌&&◌, if◌then◌else◌, ltb, take, drop,
}
use qoraal_flash.Common.Word.{add32, u32_bytes, ℤ, pos, negsuc}
use qoraal_flash.Common.Run.{Result, ok, err}
use qoraal_flash.Tallies.{
  Rtc, Calls, Tallies, put, locals, rounds, key, record_len, no_entry, entry_of, name_canonical,
  max_name_len,
}

-- `memcmp (a, b, TALLIES_MAX_NAME_LEN) == 0` for names of that many characters.
unfoldable pub same_name : List ℕ → List ℕ → Bool
same_name [] [] = true
same_name [] (y ∷ ys) = false
same_name (x ∷ xs) [] = false
same_name (x ∷ xs) (y ∷ ys) = (x == y) && same_name xs ys

-- `res < (int32_t)TALLIES_RECORD_LEN`, where a call that fails returns a negative number.
unfoldable pub is_short : ℕ → ℤ → Bool
is_short len (pos n) = ltb n len
is_short len (negsuc n) = true

module _ {R : Rtc} {V : Type 0} (O : Calls V) where
  -- The counter starts at zero, clean.
  unfoldable pub cleared : ℕ → ℕ → Tallies R V → Tallies R V
  cleared b l t = record t { entry = put b l (no_entry R) t.entry; dirty = put b l false t.dirty }

  -- The record of somebody else is dropped.
  unfoldable pub dropped : ℕ → ℕ → List ℕ → Tallies R V → Tallies R V
  dropped b l bytes t = record t {
    vol = (O.nvol3_record_delete (u32_bytes (key R t b l) ++ drop 4 bytes) t.vol).1;
    mismatched = add32 t.mismatched 1;
  }

  -- What follows a record that was read, from its key on.
  unfoldable pub take_over : ℕ → ℕ → List ℕ → Tallies R V → Tallies R V
  take_over b l bytes t =
      if same_name (take max_name_len (drop 4 bytes)) (name_canonical ((t.heap b).defs l))
      then record t {
        entry = put b l (entry_of R (drop max_name_len (drop 4 bytes))) t.entry;
        dirty = put b l false t.dirty;
      }
      else dropped b l bytes t

  unfoldable pub read_back : ℕ → ℕ → Result (ℤ × List ℕ) → Tallies R V → Tallies R V
  read_back b l (err e) t = t
  read_back b l (ok (n, bytes)) t = if is_short (record_len R) n then t else take_over b l bytes t

  -- One round of block_load.
  unfoldable pub load_one : ℕ × ℕ → Tallies R V → Tallies R V
  load_one (b, l) t =
      let t' = cleared b l t in
      if O.has_dict t.vol && t.scratch
      then read_back b l (O.nvol3_record_get (u32_bytes (key R t b l)) t.vol) t'
      else t'

  unfoldable pub load_all : List (ℕ × ℕ) → Tallies R V → Tallies R V
  load_all [] t = t
  load_all (c ∷ cs) t = load_all cs (load_one c t)

  unfoldable pub block_load : ℕ → Tallies R V → Tallies R V
  block_load b t = load_all (locals b 0 (t.heap b).count) t

  -- block_load of every registered block that has a base.
  unfoldable pub blocks_load : Tallies R V → Tallies R V
  blocks_load t = load_all (rounds t.heap t.blocks) t
