-- ===== src/Tallies/Persist/Steps.antt =====
-- Counting while an entry is written: entry_write holds the value mutex only while it claims the entry
-- and while it hands it back, so other threads count between its parts.
use qoraal_flash.Common.{ℕ, suc, ◌≡◌, false, Option, List, ◌==◌, ◌&&◌}
use qoraal_flash.Common.Word.{IsWord}
use qoraal_flash.Common.Run.{Status, eok}
use qoraal_flash.Tallies.{Rtc, Entry, Calls, Tallies, key, record_len, record_of}
use qoraal_flash.Tallies.Persist.{claim, write_out, hand_back}
use qoraal_flash.Tallies.Register.Apart.{AreApart}
use qoraal_flash.Tallies.Counters.{IsCounter}
use qoraal_flash.Tallies.Stored.{IsStore, IsRecord, IsText, restore}
use qoraal_flash.Tallies.Count.{Change, change, IsChange}

-- Where the thread is that writes: nowhere, between the claim and the write of a record, or between
-- the write and the end of entry_write.
pub data Flight : Type 0 where
  idle : Flight
  claimed : ℕ → ℕ → List ℕ → Flight
  written : ℕ → ℕ → Status → Flight

-- The counters, the number of writes for which the volume is good, and the write in flight.
pub record System (R : Rtc) (V : Type 0) : Type 0 where
  pub tallies : Tallies R V
  pub room : ℕ
  pub flight : Flight

abbrev pub at : {R : Rtc} {V : Type 0} → Tallies R V → ℕ → System R V
at t n = record { tallies = t; room = n; flight = idle }

module _ {R : Rtc} {V : Type 0} (O : Calls V) where
  -- One thread takes the steps of entry_write, any thread counts.
  pub data Step (s u : System R V) : Type 0 where
    counts :
        (x : Change R) (blk : Option ℕ) (l : ℕ)
        → IsChange x
        → u ≡ record s { tallies = (change x blk l s.tallies).1 }
        → Step s u
    claims :
        (b l : ℕ)
        → s.flight ≡ idle
        → IsCounter s.tallies.heap s.tallies.blocks (b, l)
        → u ≡ record s {
          tallies = claim b l s.tallies;
          flight = claimed b l (record_of R s.tallies b l);
        }
        → Step s u
    writes :
        (b l n : ℕ) (bytes : List ℕ)
        → s.flight ≡ claimed b l bytes
        → s.room ≡ suc n
        → u ≡ record {
          tallies = (write_out O bytes s.tallies).1;
          room = n;
          flight = written b l (write_out O bytes s.tallies).0;
        }
        → Step s u
    hands_back :
        (b l : ℕ) (e : Status)
        → s.flight ≡ written b l e
        → u ≡ record s { tallies = hand_back b l e s.tallies; flight = idle }
        → Step s u

  pub data Reach (s : System R V) : System R V → Type 0 where
    here : Reach s s
    later : {u v : System R V} → Reach s u → Step u v → Reach s v

-- The counters are sound: the ranges of the blocks are apart, the values are words, the names bytes.
pub record IsSound {R : Rtc} {V : Type 0} (t : Tallies R V) : Type 0 where
  pub apart : AreApart t.heap t.blocks
  pub words : (b l : ℕ) → IsCounter t.heap t.blocks (b, l) → IsWord (t.entry b l).value
  pub texts : (b l : ℕ) → IsCounter t.heap t.blocks (b, l) → IsText ((t.heap b).defs l)

-- Another counter than the one in flight.
abbrev pub IsOther : Flight → ℕ → ℕ → Type 0
IsOther idle b l = Unit
IsOther (claimed c m bytes) b l = ((c == b) && (m == l)) ≡ false
IsOther (written c m e) b l = ((c == b) && (m == l)) ≡ false

module _ {R : Rtc} {V : Type 0} {O : Calls V} (S : IsStore O (record_len R)) where
  -- The entry that block_load makes of what the volume holds for a counter.
  abbrev pub stored : Tallies R V → ℕ → ℕ → Entry R
  stored t b l = restore R ((t.heap b).defs l) (S.held t.vol (key R t b l))

  -- A counter that is clean is stored.
  abbrev pub IsKept : Tallies R V → ℕ → ℕ → Type 0
  IsKept t b l = t.dirty b l ≡ false → stored t b l ≡ t.entry b l

  abbrev pub InFlight : Tallies R V → Flight → Type 0
  InFlight t idle = Unit
  InFlight t (claimed b l bytes) =
      IsCounter t.heap t.blocks (b, l)
      × IsRecord (record_len R) (key R t b l) bytes
      × (t.dirty b l ≡ false → bytes ≡ record_of R t b l)
  InFlight t (written b l e) = IsCounter t.heap t.blocks (b, l) × (e ≡ eok → IsKept t b l)

  pub record Inv (s : System R V) : Type 0 where
    pub sound : IsSound s.tallies
    pub good : S.IsGood s.room s.tallies.vol
    pub flies : InFlight s.tallies s.flight
    pub kept :
        (b l : ℕ)
        → IsCounter s.tallies.heap s.tallies.blocks (b, l)
        → IsOther s.flight b l
        → IsKept s.tallies b l
