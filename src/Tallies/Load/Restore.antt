-- ===== src/Tallies/Load/Restore.antt =====
-- What block_load makes of the counters, against the entry that is stored for each.
use qoraal_flash.Common.{ℕ, ◌≡◌, refl, ◌∙◌, inl, inr, true, false, List, [], ◌∷◌}
use qoraal_flash.Tallies.{Rtc, Calls, Tallies, record_len, rounds}
use qoraal_flash.Tallies.Load.{load_one, load_all, blocks_load}
use qoraal_flash.Tallies.Load.Frame.{after}
use qoraal_flash.Tallies.Counters.{
  IsCounter, IsIn, AreDistinct, rounds-IsIn, of_rounds, rounds-AreDistinct, IsIn-cons,
}
use qoraal_flash.Tallies.Stored.{IsStore}
use qoraal_flash.Tallies.Persist.Steps.{stored}
use qoraal_flash.Tallies.Register.Apart.{AreApart}
use qoraal_flash.Tallies.Load.Filled.{IsFilled, load_one-IsFilled}

module _ {R : Rtc} {V : Type 0} {O : Calls V} (S : IsStore O (record_len R)) where
  IsFilled-cons :
      (c : ℕ × ℕ) (cs : List (ℕ × ℕ)) (t t' t'' : Tallies R V) (n : ℕ)
      → ¬ IsIn c cs
      → ((d : ℕ × ℕ) → IsIn d cs → IsCounter t.heap t.blocks d)
      → IsFilled S (c ∷ []) t t' n
      → IsFilled S cs t' t'' n
      → IsFilled S (c ∷ cs) t t'' n
  IsFilled-cons c cs t t' t'' n new are p q = record {
    frame = after O p.frame q.frame;
    good = q.good;
    filled = λ d h. elim h [
      | inl e ↦ rw e (
        q.entry_outside c new ∙ (p.filled c (inl refl)).0,
        q.dirty_outside c new ∙ (p.filled c (inl refl)).1,
      )
      | inr i ↦ ((q.filled d i).0 ∙ p.same_stored d (are d i), (q.filled d i).1)
    ];
    entry_outside =
        λ d h. q.entry_outside d (λ i. h (inr i)) ∙ p.entry_outside d (λ i. h (IsIn-cons c cs d i));
    dirty_outside =
        λ d h. q.dirty_outside d (λ i. h (inr i)) ∙ p.dirty_outside d (λ i. h (IsIn-cons c cs d i));
    same_stored = λ d i. q.same_stored d (rw (p.frame.heap, p.frame.blocks) i) ∙ p.same_stored d i;
  }

  load_all-IsFilled :
      (cs : List (ℕ × ℕ)) (t : Tallies R V) (n : ℕ)
      → AreApart t.heap t.blocks
      → S.IsGood n t.vol
      → t.scratch ≡ true
      → AreDistinct cs
      → ((c : ℕ × ℕ) → IsIn c cs → IsCounter t.heap t.blocks c)
      → IsFilled S cs t (load_all O cs t) n
  unfolding load_all
  load_all-IsFilled [] t n apart good scratch distinct are = record {
    frame = record { heap = refl; blocks = refl; inst = refl; scratch = refl };
    good = good;
    filled = λ c h. absurd h;
    entry_outside = λ c h. refl;
    dirty_outside = λ c h. refl;
    same_stored = λ c h. refl;
  }
  load_all-IsFilled ((b, l) ∷ cs) t n apart good scratch (new, distinct) are =
      let p = load_one-IsFilled S t n b l apart good (are (b, l) (inl refl)) scratch in
      IsFilled-cons (b, l) cs t (load_one O (b, l) t) (load_all O cs (load_one O (b, l) t)) n new
        (λ d i. are d (inr i)) p
        (load_all-IsFilled cs (load_one O (b, l) t) n (rw (p.frame.heap, p.frame.blocks) apart)
          p.good (p.frame.scratch ∙ scratch) distinct
          (λ d i. rw (p.frame.heap, p.frame.blocks) (are d (inr i))))

  -- On a loaded volume, filling the registered blocks makes of every counter the entry that is stored
  -- for it, whatever the counter was before, and clean: what the volume holds under its id if the
  -- record is long enough and carries its name, and zero otherwise. The same is stored afterwards, so
  -- that the records of other names that were dropped change nothing for another counter.
  pub blocks_load-stored :
      (t : Tallies R V) (n : ℕ)
      → AreApart t.heap t.blocks
      → S.IsGood n t.vol
      → t.scratch ≡ true
      → (b l : ℕ) → IsCounter t.heap t.blocks (b, l)
      → ((blocks_load O t).entry b l ≡ stored S t b l)
        × ((blocks_load O t).dirty b l ≡ false)
        × (stored S (blocks_load O t) b l ≡ stored S t b l)
  unfolding blocks_load
  blocks_load-stored t n apart good scratch b l i =
      let p =
        load_all-IsFilled (rounds t.heap t.blocks) t n apart good scratch
          (rounds-AreDistinct t.heap t.blocks apart) (λ c. of_rounds t.heap t.blocks c apart) in
      let here = rounds-IsIn t.heap t.blocks (b, l) apart i in
      ((p.filled (b, l) here).0, (p.filled (b, l) here).1, p.same_stored (b, l) i)
