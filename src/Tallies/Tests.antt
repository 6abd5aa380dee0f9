-- ===== src/Tallies/Tests.antt =====
-- The witnesses of the counters' theorems.
use qoraal_flash.Common.{
  ℕ, ◌+◌, ◌≡◌, refl, true, false, some, List, [], ◌∷◌, ◌==◌, ◌&&◌, ◌⊎◌, if◌then◌else◌, min, arith,
}
use qoraal_flash.Common.Word.{pos}
use qoraal_flash.Common.Run.{eok, e_parm}
use qoraal_flash.Tallies.{rounds, locals, record_of, name_canonical}
use qoraal_flash.Tallies.Register.{block_find}
use qoraal_flash.Tallies.Register.Apart.{AreApart}
use qoraal_flash.Tallies.Register.Runs.{Call, register, unregister, run_calls, run_calls-AreApart}
use qoraal_flash.Tallies.Count.{
  update, tallies_inc, tallies_add, tallies_ready, tallies_get_value, add, inc, change,
}
use qoraal_flash.Tallies.Count.Refine.{expected, change-get_value}
use qoraal_flash.Tallies.Persist.{
  is_eok, claim, write_out, hand_back, write_claimed, tallies_persist_bounded,
}
use qoraal_flash.Tallies.Persist.Steps.{
  at, System, claimed, written, Reach, here, later, counts, claims, writes, hands_back, stored,
}
use qoraal_flash.Tallies.Persist.Kept.{Reach-IsKept}
use qoraal_flash.Tallies.Persist.Drain.{dirty_in, persist_bounded-dirty_in, cb_runs, cb_runs-stored}
use qoraal_flash.Tallies.Counters.{IsCounter}
use qoraal_flash.Tallies.Load.{blocks_load}
use qoraal_flash.Tallies.Load.Restore.{blocks_load-stored}
use qoraal_flash.Tallies.Samples.{
  rtc, codec, Records, calls, store, sure, counting, unregistered, counting-IsSound,
  counting-IsReady,
}

-- Two registrations that are apart, one that is refused, and one after the first block is gone.
abbrev some_calls : List Call
some_calls =
    register (some 1) (pos 0)
    ∷ register (some 2) (pos 2)
    ∷ register (some 3) (pos 1)
    ∷ unregister (some 1)
    ∷ register (some 3) (pos 1)
    ∷ []

run_calls-AreApart_example :
    AreApart
      (run_calls calls some_calls unregistered).heap
      (run_calls calls some_calls unregistered).blocks
run_calls-AreApart_example =
    run_calls-AreApart calls some_calls unregistered (omega arith) refl (λ b. ground arith)

-- A sum that wraps around.
abbrev large : ℕ
large = 0xFFFF_FFFE

change-get_value_example :
    ((change (add true false large) (some 1) 0 counting).0
      ≡ (if tallies_ready (some 1) 0 counting then eok else e_parm))
    × (tallies_get_value (some 1) 0 (change (add true false large) (some 1) 0 counting).1
        ≡ expected (add true false large) 1 0 counting 1 0)
    × ((change (add true false large) (some 1) 0 counting).1.dirty 1 0 ≡ (
        if tallies_ready (some 1) 0 counting && ((1 == 1) && (0 == 0))
        then true
        else counting.dirty 1 0))
change-get_value_example = change-get_value (add true false large) 1 0 counting 1 0

counter : IsCounter counting.heap counting.blocks (1, 0)
unfolding block_find
counter = (refl, omega arith)

-- The counter is raised while its record is in flight.
abbrev flying : List ℕ
flying = record_of rtc counting 1 0

abbrev system_1 : System rtc Records
system_1 = record { tallies = claim 1 0 counting; room = 2; flight = claimed 1 0 flying }

abbrev system_2 : System rtc Records
system_2 = record system_1 { tallies = (change (inc true true) (some 1) 0 system_1.tallies).1 }

abbrev system_3 : System rtc Records
system_3 = record {
  tallies = (write_out calls flying system_2.tallies).1;
  room = 1;
  flight = written 1 0 (write_out calls flying system_2.tallies).0;
}

abbrev system_4 : System rtc Records
system_4 = at (hand_back 1 0 (write_out calls flying system_2.tallies).0 system_3.tallies) 1

raised : Reach calls (at counting 2) system_4
raised =
    later
      (later
        (later (later here (claims 1 0 refl counter refl))
          (counts (inc true true) (some 1) 0 tt refl))
        (writes 1 0 1 flying refl refl refl))
      (hands_back 1 0 _ refl refl)

-- It is dirty again then, and is written a second time.
abbrev system_5 : System rtc Records
system_5 = at (write_claimed calls 1 0 system_4.tallies) 0

raised-IsCounter : IsCounter system_4.tallies.heap system_4.tallies.blocks (1, 0)
unfolding block_find write_claimed hand_back write_out claim is_eok record_of change tallies_inc
    tallies_add update tallies_ready name_canonical
raised-IsCounter = (refl, omega arith)

written_again : Reach calls (at counting 2) system_5
unfolding write_claimed
written_again =
    later
      (later (later raised (claims 1 0 refl raised-IsCounter refl)) (writes 1 0 0 _ refl refl refl))
      (hands_back 1 0 _ refl refl)

written-IsCounter : IsCounter system_5.tallies.heap system_5.tallies.blocks (1, 0)
unfolding block_find write_claimed hand_back write_out claim is_eok record_of change tallies_inc
    tallies_add update tallies_ready name_canonical
written-IsCounter = (refl, omega arith)

last_clean : system_5.tallies.dirty 1 0 ≡ false
unfolding block_find write_claimed hand_back write_out claim is_eok record_of change tallies_inc
    tallies_add update tallies_ready name_canonical
last_clean = refl

Reach-IsKept_example : stored store system_5.tallies 1 0 ≡ system_5.tallies.entry 1 0
Reach-IsKept_example =
    Reach-IsKept codec store (at counting 2) system_5 written_again refl refl counting-IsSound refl
      (λ b l i h. cc) 1 0 written-IsCounter last_clean

persist_bounded-dirty_in_example :
    ((tallies_persist_bounded calls 2 counting).0
      ≡ dirty_in (tallies_persist_bounded calls 2 counting).1)
    × (dirty_in (tallies_persist_bounded calls 2 counting).1
          + (if 2 == 0 then dirty_in counting else min (dirty_in counting) 2)
        ≡ dirty_in counting)
    × ((tallies_persist_bounded calls 2 counting).1.entry ≡ counting.entry)
    × (((tallies_persist_bounded calls 2 counting).1.dirty 1 0 ≡ true)
        ⊎ (stored store (tallies_persist_bounded calls 2 counting).1 1 0 ≡ counting.entry 1 0))
unfolding rounds locals
persist_bounded-dirty_in_example =
    persist_bounded-dirty_in codec store sure 2 counting 3 (counting-IsReady 3) (omega arith) 1 0
      counter

cb_runs-stored_example :
    ((cb_runs codec store sure 60 1 counting).dirty 1 0 ≡ false)
    × ((cb_runs codec store sure 60 1 counting).entry 1 0 ≡ counting.entry 1 0)
    × (stored store (cb_runs codec store sure 60 1 counting) 1 0 ≡ counting.entry 1 0)
unfolding rounds locals
cb_runs-stored_example =
    cb_runs-stored codec store sure 60 1 counting 3 (counting-IsReady 3) refl (omega arith)
      (omega arith) 1 0 counter

blocks_load-stored_example :
    ((blocks_load calls counting).entry 1 0 ≡ stored store counting 1 0)
    × ((blocks_load calls counting).dirty 1 0 ≡ false)
    × (stored store (blocks_load calls counting) 1 0 ≡ stored store counting 1 0)
blocks_load-stored_example =
    blocks_load-stored store counting 0 counting-IsSound.apart refl refl 1 0 counter
