-- ===== src/Tallies/Persist/Drain.antt =====
-- What tallies_persist_bounded leaves dirty, and that the passes of tallies_cb come to an end.
use qoraal_flash.Common.{
  ℕ, zero, suc, ◌+◌, ◌-◌, ◌*◌, ◌≤◌, ◌<◌, ◌≡◌, refl, sym, ap, subst, ◌∙◌, ◌⊎◌, inl, inr, min, Bool,
  true, false, Option, none, some, List, [], ◌∷◌, ◌==◌, length, if◌then◌else◌, arith, Bool-cases,
}
use qoraal_flash.Common.Word.{u32_mod}
use qoraal_flash.Tallies.{Rtc, Calls, Tallies, record_len, rounds, max_per_pass, persist_resume}
use qoraal_flash.Tallies.Persist.{Pass, can_write, visit_all, tallies_persist_bounded, tallies_cb}
use qoraal_flash.Tallies.Persist.Steps.{at, IsSound, Inv, IsKept, stored}
use qoraal_flash.Tallies.Persist.Rounds.{dirty_count, attempts, IsQuiet, quiet, IsQuiet-trans}
use qoraal_flash.Tallies.Persist.Passes.{IsPassed, visit_all-IsPassed}
use qoraal_flash.Tallies.Counters.{IsCounter, IsIn, rounds-IsIn, of_rounds, rounds-AreDistinct}
use qoraal_flash.Tallies.Stored.{IsCodec, IsStore, IsSure}

module _ {R : Rtc} {V : Type 0} where
  -- The number of counters that have to be written.
  abbrev pub dirty_in : Tallies R V → ℕ
  dirty_in t = dirty_count t.dirty (rounds t.heap t.blocks)

  abbrev pub start_pass : Tallies R V → Pass R V
  start_pass t = record { written = 0; remaining = 0; state = t }

module _ {R : Rtc} {V : Type 0} {O : Calls V} (S : IsStore O (record_len R)) where
  -- Counters on a volume with room for `n` writes, where what is clean is stored.
  pub record IsReady (t : Tallies R V) (n : ℕ) : Type 0 where
    pub scratch : t.scratch ≡ true
    pub inst : t.inst ≡ true
    pub sound : IsSound t
    pub good : S.IsGood n t.vol
    pub kept : (b l : ℕ) → IsCounter t.heap t.blocks (b, l) → IsKept S t b l
    pub small : length (rounds t.heap t.blocks) < u32_mod

  IsReady-Inv : (t : Tallies R V) (n : ℕ) → IsReady t n → Inv S (at t n)
  IsReady-Inv t n r = record {
    sound = r.sound;
    good = r.good;
    flies = tt;
    kept = λ b l i o. r.kept b l i;
  }

attempts-zero : (max d : ℕ) → attempts max 0 d ≡ (if max == 0 then d else min d max)
attempts-zero max d = ground arith

-- A list without dirty entries.
pub none_dirty :
    (f : ℕ → ℕ → Bool) (cs : List (ℕ × ℕ)) (c : ℕ × ℕ)
    → dirty_count f cs ≡ 0
    → IsIn c cs
    → f c.0 c.1 ≡ false
none_dirty f [] c e h = absurd h
none_dirty f (d ∷ cs) c e (inl q) = elim (Bool-cases (f d.0 d.1)) [
  | inl x ↦ absurd (ground (arith, e, x))
  | inr x ↦ rw q x
]
none_dirty f (d ∷ cs) c e (inr h) = none_dirty f cs c (omega (arith, e)) h

module _ {R : Rtc} (C : IsCodec R) {V : Type 0} {O : Calls V} (S : IsStore O (record_len R))
    (sure : IsSure S) where
  -- What a pass leaves: the counters and their blocks, less to write, and room for as many writes less.
  pub record IsLess (max : ℕ) (t : Tallies R V) (n : ℕ) (r : ℕ × Tallies R V) : Type 0 where
    pub quiet : IsQuiet t r.1
    pub room : ℕ
    pub ready : IsReady S r.1 room
    pub used : room + attempts max 0 (dirty_in t) ≡ n
    pub less : dirty_in r.1 + attempts max 0 (dirty_in t) ≡ dirty_in t
    pub returned : r.0 ≡ dirty_in r.1

  passed-IsLess :
      (max : ℕ) (t : Tallies R V) (n : ℕ) (s' : Pass R V)
      → IsReady S t n
      → IsPassed C S sure max (rounds t.heap t.blocks) (start_pass t) s' n
      → IsLess max t n (s'.remaining, s'.state)
  passed-IsLess max t n s' r p =
      let same : dirty_in s'.state ≡ dirty_count s'.state.dirty (rounds t.heap t.blocks) =
        rw (p.quiet.heap, p.quiet.blocks) refl in
      record {
        quiet = p.quiet;
        room = p.room;
        ready = record {
          scratch = p.quiet.scratch ∙ r.scratch;
          inst = p.quiet.inst ∙ r.inst;
          sound = p.inv.sound;
          good = p.inv.good;
          kept = λ b l i. p.inv.kept b l i tt;
          small = rw (p.quiet.heap, p.quiet.blocks) r.small;
        };
        used = p.writes_made;
        less = omega (arith, same, p.left);
        returned = omega (arith, same, p.left, p.counted);
      }

  pub persist-IsLess :
      (max : ℕ) (t : Tallies R V) (n : ℕ)
      → IsReady S t n
      → attempts max 0 (dirty_in t) ≤ n
      → IsLess max t n (tallies_persist_bounded O max t)
  unfolding tallies_persist_bounded
  persist-IsLess max t n r enough =
      let writes : can_write O t ≡ true =
        ground (arith, S.loaded n t.vol r.good, r.scratch, r.inst) in
      let s = visit_all O max (rounds t.heap t.blocks) (start_pass t) in
      let p =
        visit_all-IsPassed C S sure max (rounds t.heap t.blocks) (start_pass t) n
          (rounds-AreDistinct t.heap t.blocks r.sound.apart)
          (λ c. of_rounds t.heap t.blocks c r.sound.apart)
          (record {
            inv = IsReady-Inv S t n r;
            enough = enough;
            small_written = omega (arith, r.small);
            small_remaining = omega (arith, r.small);
          }) in
      subst (IsLess max t n) (ap (λ x. if x then (s.remaining, s.state) else (0, t)) (sym writes))
        (passed-IsLess max t n s r p)

  -- A pass writes as many of the dirty entries as its bound allows, all of them where the bound is 0,
  -- and returns how many are left; no entry changes, and every counter is dirty or stored afterwards. It
  -- is supposed that writes succeed and that the volume has room for those of the pass.
  pub persist_bounded-dirty_in :
      (max : ℕ) (t : Tallies R V) (n : ℕ)
      → IsReady S t n
      → (if max == 0 then dirty_in t else min (dirty_in t) max) ≤ n
      → (b l : ℕ) → IsCounter t.heap t.blocks (b, l)
      → ((tallies_persist_bounded O max t).0 ≡ dirty_in (tallies_persist_bounded O max t).1)
        × (dirty_in (tallies_persist_bounded O max t).1
              + (if max == 0 then dirty_in t else min (dirty_in t) max)
            ≡ dirty_in t)
        × ((tallies_persist_bounded O max t).1.entry ≡ t.entry)
        × (((tallies_persist_bounded O max t).1.dirty b l ≡ true)
            ⊎ (stored S (tallies_persist_bounded O max t).1 b l ≡ t.entry b l))
  persist_bounded-dirty_in max t n r enough b l i =
      let p = persist-IsLess max t n r (rw (attempts-zero max (dirty_in t)) enough) in
      (
        p.returned,
        rw (← attempts-zero max (dirty_in t)) p.less,
        p.quiet.entry,
        elim (Bool-cases ((tallies_persist_bounded O max t).1.dirty b l)) [
          | inl d ↦ inl d
          | inr d ↦ inr (
              p.ready.kept b l (rw (p.quiet.heap, p.quiet.blocks) i) d
              ∙ ap (λ f. f b l) p.quiet.entry)
        ],
      )

  -- `k` runs of tallies_cb, one after the other.
  abbrev pub cb_runs : ℕ → ℕ → Tallies R V → Tallies R V
  cb_runs interval zero t = t
  cb_runs interval (suc k) t = cb_runs interval k (tallies_cb O interval true t).1

  cb-pass :
      (interval : ℕ) (t : Tallies R V)
      → t.started ≡ true
      → (tallies_cb O interval true t).1 ≡ (tallies_persist_bounded O max_per_pass t).1
  unfolding tallies_cb
  cb-pass interval t h =
      let r = tallies_persist_bounded O max_per_pass t in
      let ran : Option ℕ × Tallies R V =
        (some (if r.0 == 0 then interval else persist_resume), r.1) in
      let idle_run : Option ℕ × Tallies R V = (none, t) in
      ap (λ x. (if◌then◌else◌ {A = Option ℕ × Tallies R V} x ran idle_run).1) h

  pub cb_runs-IsReady :
      (interval k : ℕ) (t : Tallies R V) (n : ℕ)
      → IsReady S t n
      → t.started ≡ true
      → dirty_in t ≤ n
      → (room : ℕ) × IsReady S (cb_runs interval k t) room
        × IsQuiet t (cb_runs interval k t)
        × (dirty_in (cb_runs interval k t) ≡ dirty_in t - max_per_pass * k)
  cb_runs-IsReady interval zero t n r h enough = (n, r, quiet t, omega arith)
  cb_runs-IsReady interval (suc k) t n r h enough =
      let p = persist-IsLess max_per_pass t n r (omega arith) in
      let same = cb-pass interval t h in
      let (room, ready, q, left) =
        cb_runs-IsReady interval k (tallies_cb O interval true t).1 p.room (rw same p.ready)
          (rw same (p.quiet.started ∙ h)) (rw same (omega (arith, p.used, p.less))) in
      (
        room,
        ready,
        IsQuiet-trans t (tallies_cb O interval true t).1 _ (rw same p.quiet) q,
        omega (arith, left, ap dirty_in same, p.less),
      )

  -- The runs of tallies_cb come to an end: once there were enough of them for the dirty entries at 16
  -- each, every counter is clean and stored, and has the entry that it had at the start. It is supposed
  -- that the counters are started, that nobody counts meanwhile, that writes succeed and that the volume
  -- has room for them.
  pub cb_runs-stored :
      (interval k : ℕ) (t : Tallies R V) (n : ℕ)
      → IsReady S t n
      → t.started ≡ true
      → dirty_in t ≤ n
      → dirty_in t ≤ max_per_pass * k
      → (b l : ℕ) → IsCounter t.heap t.blocks (b, l)
      → ((cb_runs interval k t).dirty b l ≡ false)
        × ((cb_runs interval k t).entry b l ≡ t.entry b l)
        × (stored S (cb_runs interval k t) b l ≡ t.entry b l)
  cb_runs-stored interval k t n r h enough runs b l i =
      let (room, ready, q, left) = cb_runs-IsReady interval k t n r h enough in
      let u = cb_runs interval k t in
      let j : IsCounter u.heap u.blocks (b, l) = rw (q.heap, q.blocks) i in
      let clean : u.dirty b l ≡ false =
        none_dirty u.dirty (rounds u.heap u.blocks) (b, l) (omega (arith, left, runs))
          (rounds-IsIn u.heap u.blocks (b, l) ready.sound.apart j) in
      let same : u.entry b l ≡ t.entry b l = ap (λ f. f b l) q.entry in
      (clean, same, ready.kept b l j clean ∙ same)
