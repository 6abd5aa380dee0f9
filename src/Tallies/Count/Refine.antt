-- ===== src/Tallies/Count/Refine.antt =====
-- The calls that count against a map from counters to numbers.
use qoraal_flash.Common.{
  ℕ, ◌+◌, ◌%◌, ◌≡◌, refl, ◌∙◌, ◌⊎◌, inl, inr, true, false, Option, none, some, ◌==◌, ◌&&◌,
  if◌then◌else◌, arith, Bool-cases,
}
use qoraal_flash.Common.Word.{IsWord, u32_mod}
use qoraal_flash.Common.Run.{eok, e_parm}
use qoraal_flash.Tallies.{Rtc, Entry, Tallies}
use qoraal_flash.Tallies.Count.{
  tallies_ready, put_entry, update, tallies_inc, tallies_add, tallies_set, tallies_clear,
  tallies_get_value, Change, inc, add, set, clear, change, changed, IsChange,
}

change-update :
    {R : Rtc} {V : Type 0} (x : Change R) (blk : Option ℕ) (l : ℕ) (t : Tallies R V)
    → change x blk l t ≡ update blk l (changed x) t
unfolding change changed tallies_inc tallies_add tallies_set tallies_clear
change-update (inc d h) blk l t = refl
change-update (add d h n) blk l t = refl
change-update (set d h n) blk l t = refl
change-update clear blk l t = refl

-- A call that counts is refused and changes nothing, or changes one entry, which it leaves dirty.
pub change-cases :
    {R : Rtc} {V : Type 0} (x : Change R) (b l : ℕ) (t : Tallies R V)
    → ((tallies_ready (some b) l t ≡ false) × (change x (some b) l t ≡ (e_parm, t)))
      ⊎ ((tallies_ready (some b) l t ≡ true)
          × (change x (some b) l t ≡ (eok, put_entry b l (changed x (t.entry b l)) t)))
unfolding update
change-cases x b l t = elim (Bool-cases (tallies_ready (some b) l t)) [
  | inl e ↦ inr (e, change-update x (some b) l t ∙ rw (update, e) refl)
  | inr e ↦ inl (e, change-update x (some b) l t ∙ rw (update, e) refl)
]

pub change-none :
    {R : Rtc} {V : Type 0} (x : Change R) (l : ℕ) (t : Tallies R V)
    → change x none l t ≡ (e_parm, t)
unfolding update
change-none x l t = change-update x none l t

pub changed-IsWord :
    {R : Rtc} (x : Change R) (e : Entry R)
    → IsChange x
    → IsWord e.value
    → IsWord (changed x e).value
unfolding changed
changed-IsWord (inc d h) e k w = omega arith
changed-IsWord (add d h n) e k w = omega arith
changed-IsWord (set d h n) e k w = k
changed-IsWord clear e k w = omega arith

-- What a call does to a number.
abbrev pub apply : {R : Rtc} → Change R → ℕ → ℕ
apply (inc d h) n = (n + 1) % u32_mod
apply (add d h k) n = (n + k) % u32_mod
apply (set d h k) n = k
apply clear n = 0

changed-value : {R : Rtc} (x : Change R) (e : Entry R) → (changed x e).value ≡ apply x e.value
unfolding changed
changed-value (inc d h) e = refl
changed-value (add d h k) e = refl
changed-value (set d h k) e = refl
changed-value clear e = refl

-- What tallies_get_value is to return after a call on counter `l` of block `b`.
abbrev pub expected : {R : Rtc} {V : Type 0} → Change R → ℕ → ℕ → Tallies R V → ℕ → ℕ → ℕ
expected x b l t c m =
    if tallies_ready (some b) l t && ((b == c) && (l == m))
    then apply x (tallies_get_value (some b) l t)
    else tallies_get_value (some c) m t

get_value-put_entry :
    {R : Rtc} {V : Type 0} (x : Change R) (b l : ℕ) (t : Tallies R V)
    → tallies_ready (some b) l t ≡ true
    → (c m : ℕ)
    → tallies_get_value (some c) m (put_entry b l (changed x (t.entry b l)) t) ≡ (
        if (b == c) && (l == m)
        then apply x (tallies_get_value (some b) l t)
        else tallies_get_value (some c) m t)
unfolding tallies_get_value tallies_ready
get_value-put_entry x b l t ready c m = elim (Bool-cases ((b == c) && (l == m))) [
  | inr e ↦ rw e refl
  | inl e ↦
      let block : c ≡ b = ground (arith, e) in
      let place : m ≡ l = ground (arith, e) in
      rw (e, block, place, ready) (changed-value x (t.entry b l))
]

-- tallies_inc, tallies_add, tallies_set and tallies_clear return E_PARM exactly where the counter is
-- not ready. Otherwise tallies_get_value returns for the counter what the call makes of the number
-- that it returned before, where the sum wraps around at 2 ^ 32, and the entry is to be written; for
-- every other counter of every block, and for all of them where the call is refused, it returns what
-- it returned before, and what is to be written is the same.
pub change-get_value :
    {R : Rtc} {V : Type 0} (x : Change R) (b l : ℕ) (t : Tallies R V) (c m : ℕ)
    → ((change x (some b) l t).0 ≡ (if tallies_ready (some b) l t then eok else e_parm))
      × (tallies_get_value (some c) m (change x (some b) l t).1 ≡ expected x b l t c m)
      × ((change x (some b) l t).1.dirty c m
          ≡ (if tallies_ready (some b) l t && ((b == c) && (l == m)) then true else t.dirty c m))
change-get_value x b l t c m = elim (change-cases x b l t) [
  | inl (nr, eq) ↦ rw (eq, nr) (refl, refl, refl)
  | inr (r, eq) ↦ rw (eq, r) (refl, get_value-put_entry x b l t r c m, refl)
]
