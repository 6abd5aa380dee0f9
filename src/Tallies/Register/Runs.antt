-- ===== src/Tallies/Register/Runs.antt =====
-- Sequences of registrations.
use qoraal_flash.Common.{ℕ, ◌<◌, ◌≡◌, Option, List, [], ◌∷◌, All}
use qoraal_flash.Common.Word.{ℤ}
use qoraal_flash.Tallies.{Rtc, Calls, Tallies}
use qoraal_flash.Tallies.Register.{tallies_register, tallies_unregister}
use qoraal_flash.Tallies.Register.Apart.{AreApart}
use qoraal_flash.Tallies.Register.Registry.{
  IsInt32, IsRegistry, tallies_register-IsRegistry, tallies_unregister-IsRegistry,
}

-- A call of tallies_register or tallies_unregister.
pub data Call : Type 0 where
  register : Option ℕ → ℤ → Call
  unregister : Option ℕ → Call

-- The base that a call is given is an `int32_t`.
abbrev pub IsCall : Call → Type 0
IsCall (register b base) = IsInt32 base
IsCall (unregister b) = Unit

module _ {R : Rtc} {V : Type 0} (O : Calls V) where
  abbrev pub run_calls : List Call → Tallies R V → Tallies R V
  run_calls [] t = t
  run_calls (register b base ∷ cs) t = run_calls cs (tallies_register O b base t).1
  run_calls (unregister b ∷ cs) t = run_calls cs (tallies_unregister b t).1

  run_calls-IsRegistry :
      (cs : List Call) (t : Tallies R V)
      → All IsCall cs
      → IsRegistry O t
      → IsRegistry O (run_calls cs t)
  run_calls-IsRegistry [] t h inv = inv
  run_calls-IsRegistry (register b base ∷ cs) t (small, h) inv =
      run_calls-IsRegistry cs (tallies_register O b base t).1 h
        (tallies_register-IsRegistry O b base t small inv)
  run_calls-IsRegistry (unregister b ∷ cs) t (_, h) inv =
      run_calls-IsRegistry cs (tallies_unregister b t).1 h (tallies_unregister-IsRegistry O b t inv)

  -- Whatever calls of tallies_register and tallies_unregister are made, whether they succeed or not:
  -- from counters without registered blocks they lead to registered blocks that are all different, each
  -- with a counter and with its ids below 0xFFFF, of which no two share an id. The counts of the blocks
  -- are of 16 bits and the bases of 32.
  pub run_calls-AreApart :
      (cs : List Call) (t : Tallies R V)
      → All IsCall cs
      → t.blocks ≡ []
      → ((b : ℕ) → (t.heap b).count < 65536)
      → AreApart (run_calls cs t).heap (run_calls cs t).blocks
  run_calls-AreApart cs t h none counts =
      (run_calls-IsRegistry cs t h (record { counts = counts; apart = rw none tt })).apart
