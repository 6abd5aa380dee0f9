-- ===== src/Tallies/Persist/Rounds.antt =====
-- One round of tallies_persist_bounded over a volume on which writes succeed.
use qoraal_flash.Common.{
  ℕ, suc, ◌+◌, ◌-◌, ◌≤◌, ◌<◌, ◌≡◌, refl, ap, subst, ◌∙◌, inl, inr, min, Bool, true, false, List, [],
  ◌∷◌, ◌==◌, length, if◌then◌else◌, arith, Bool-cases,
}
use qoraal_flash.Common.Word.{add32, u32_mod}
use qoraal_flash.Tallies.{Rtc, Calls, Tallies, put, key, record_len, record_of}
use qoraal_flash.Tallies.Persist.{
  Pass, bounded, claim, write_out, hand_back, is_eok, write_claimed, entry_write, visit,
}
use qoraal_flash.Tallies.Persist.Steps.{claims, writes, hands_back, Reach, here, later, Inv, at}
use qoraal_flash.Tallies.Persist.Kept.{Reach-Inv}
use qoraal_flash.Tallies.Counters.{counter_id, IsCounter, IsIn}
use qoraal_flash.Tallies.Stored.{IsCodec, IsStore, IsSure, record_of-IsRecord}

-- How many entries of a list are dirty.
abbrev pub dirty_count : (ℕ → ℕ → Bool) → List (ℕ × ℕ) → ℕ
dirty_count dirty [] = 0
dirty_count dirty (c ∷ cs) = (if dirty c.0 c.1 then 1 else 0) + dirty_count dirty cs

-- How many of `d` dirty entries a pass writes that has written `w`.
abbrev pub attempts : ℕ → ℕ → ℕ → ℕ
attempts max w d = if max == 0 then d else min d (max - w)

-- A counter outside of a list.
pub dirty_count-eq :
    (f g : ℕ → ℕ → Bool) (cs : List (ℕ × ℕ))
    → ((c : ℕ × ℕ) → IsIn c cs → g c.0 c.1 ≡ f c.0 c.1)
    → dirty_count g cs ≡ dirty_count f cs
dirty_count-eq f g [] h = refl
dirty_count-eq f g (c ∷ cs) h = rw (h c (inl refl), dirty_count-eq f g cs (λ d i. h d (inr i))) refl

module _ {R : Rtc} {V : Type 0} where
  -- What a pass leaves as it is.
  pub record IsQuiet (t t' : Tallies R V) : Type 0 where
    pub heap : t'.heap ≡ t.heap
    pub blocks : t'.blocks ≡ t.blocks
    pub entry : t'.entry ≡ t.entry
    pub started : t'.started ≡ t.started
    pub inst : t'.inst ≡ t.inst
    pub scratch : t'.scratch ≡ t.scratch

  pub quiet : (t : Tallies R V) → IsQuiet t t
  quiet t = record {
    heap = refl;
    blocks = refl;
    entry = refl;
    started = refl;
    inst = refl;
    scratch = refl;
  }

  pub IsQuiet-trans : (t t' t'' : Tallies R V) → IsQuiet t t' → IsQuiet t' t'' → IsQuiet t t''
  IsQuiet-trans t t' t'' q r = record {
    heap = r.heap ∙ q.heap;
    blocks = r.blocks ∙ q.blocks;
    entry = r.entry ∙ q.entry;
    started = r.started ∙ q.started;
    inst = r.inst ∙ q.inst;
    scratch = r.scratch ∙ q.scratch;
  }

module _ {R : Rtc} (C : IsCodec R) {V : Type 0} {O : Calls V} (S : IsStore O (record_len R)) where
  -- entry_write of a dirty entry takes the three steps.
  pub write_claimed-Reach :
      (b l n : ℕ) (t : Tallies R V)
      → IsCounter t.heap t.blocks (b, l)
      → Reach O (at t (suc n)) (at (write_claimed O b l t) n)
  unfolding write_claimed
  write_claimed-Reach b l n t i =
      later (later (later here (claims b l refl i refl)) (writes b l n _ refl refl refl))
        (hands_back b l _ refl refl)

  module _ (sure : IsSure S) where
    -- The entry is clean then, and nothing else changes its flag.
    write_claimed-clean :
        (b l n : ℕ) (t : Tallies R V)
        → Inv S (at t (suc n))
        → IsCounter t.heap t.blocks (b, l)
        → (write_claimed O b l t).dirty ≡ put b l false t.dirty
    unfolding write_claimed write_out hand_back claim is_eok
    write_claimed-clean b l n t inv i =
        let small = counter_id t.heap t.blocks (b, l) inv.sound.apart i in
        let e =
          sure n t.vol (key R t b l) (record_of R t b l) inv.good
            (record_of-IsRecord R C t b l (inv.sound.texts b l i) (omega arith)) in
        rw e refl

    write_claimed-IsQuiet : (b l : ℕ) (t : Tallies R V) → IsQuiet t (write_claimed O b l t)
    unfolding write_claimed write_out hand_back claim
    write_claimed-IsQuiet b l t =
        elim (Bool-cases (is_eok (O.nvol3_record_set (record_of R t b l) (record_len R) t.vol).0)) [
          | inl e ↦ rw e (record {
            heap = refl;
            blocks = refl;
            entry = refl;
            started = refl;
            inst = refl;
            scratch = refl;
          })
          | inr e ↦ rw e (record {
            heap = refl;
            blocks = refl;
            entry = refl;
            started = refl;
            inst = refl;
            scratch = refl;
          })
        ]

    -- The room for writes, for counters that a pass can still need.
    pub record CanPass (max : ℕ) (cs : List (ℕ × ℕ)) (s : Pass R V) (n : ℕ) : Type 0 where
      pub inv : Inv S (at s.state n)
      pub enough : attempts max s.written (dirty_count s.state.dirty cs) ≤ n
      pub small_written : s.written + length cs < u32_mod
      pub small_remaining : s.remaining + length cs < u32_mod

    -- One round: a clean entry, an entry that is left to the next pass, an entry that is written.
    pub data Round (max b l : ℕ) (s s' : Pass R V) (n : ℕ) : Type 0 where
      was_clean : s.state.dirty b l ≡ false → s' ≡ s → Round max b l s s' n
      is_left :
          s.state.dirty b l ≡ true
          → bounded max s.written ≡ true
          → s' ≡ record s { remaining = s.remaining + 1 }
          → Round max b l s s' n
      is_written :
          (k : ℕ)
          → s.state.dirty b l ≡ true
          → bounded max s.written ≡ false
          → n ≡ suc k
          → Inv S (at s'.state k)
          → IsQuiet s.state s'.state
          → s'.state.dirty ≡ put b l false s.state.dirty
          → s'.written ≡ s.written + 1
          → s'.remaining ≡ s.remaining
          → Round max b l s s' n

    some_room :
        (max w d n : ℕ) → bounded max w ≡ false → attempts max w (1 + d) ≤ n → n ≡ suc (n - 1)
    some_room max w d n h e = ground arith

    one_room :
        (max b l : ℕ) (cs : List (ℕ × ℕ)) (s : Pass R V) (n : ℕ)
        → s.state.dirty b l ≡ true
        → bounded max s.written ≡ false
        → CanPass max ((b, l) ∷ cs) s n
        → n ≡ suc (n - 1)
    one_room max b l cs s n d w can =
        let many : dirty_count s.state.dirty ((b, l) ∷ cs) ≡ 1 + dirty_count s.state.dirty cs =
          rw d refl in
        some_room max s.written (dirty_count s.state.dirty cs) n w
          (subst (λ k. attempts max s.written k ≤ n) many can.enough)

    pub visit-Round :
        (max b l : ℕ) (cs : List (ℕ × ℕ)) (s : Pass R V) (n : ℕ)
        → IsCounter s.state.heap s.state.blocks (b, l)
        → CanPass max ((b, l) ∷ cs) s n
        → Round max b l s (visit O max (b, l) s) n
    unfolding visit entry_write
    visit-Round max b l cs s n i can = elim (Bool-cases (bounded max s.written)) [
      | inl w ↦ elim (Bool-cases (s.state.dirty b l)) [
        | inl d ↦
            let sum : add32 s.remaining 1 ≡ s.remaining + 1 = omega (arith, can.small_remaining) in
            is_left d w (rw (w, d) (ap (λ x. record s { remaining = x }) sum))
        | inr d ↦ was_clean d (rw (w, d) refl)
      ]
      | inr w ↦ elim (Bool-cases (s.state.dirty b l)) [
        | inl d ↦
            let sum : add32 s.written 1 ≡ s.written + 1 = omega (arith, can.small_written) in
            let some : n ≡ suc (n - 1) = one_room max b l cs s n d w can in
            let inv : Inv S (at s.state (suc (n - 1))) =
              subst (λ k. Inv S (at s.state k)) some can.inv in
            is_written (n - 1) d w some
              (rw (w, d) (Reach-Inv C S _ _ (write_claimed-Reach b l (n - 1) s.state i) inv))
              (rw (w, d) (write_claimed-IsQuiet b l s.state))
              (rw (w, d) (write_claimed-clean b l (n - 1) s.state inv i)) (rw (w, d) sum)
              (rw w refl)
        | inr d ↦
            let sum : add32 s.written 0 ≡ s.written = omega (arith, can.small_written) in
            was_clean d (rw (w, d) (ap (λ x. record s { written = x }) sum))
      ]
    ]
