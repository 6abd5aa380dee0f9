-- ===== src/Tallies/Persist/Passes.antt =====
-- The passes of tallies_persist_bounded over a volume on which writes succeed.
use qoraal_flash.Common.{
  ℕ, ◌+◌, ◌≤◌, ◌≡◌, refl, ap, subst, ◌∙◌, inl, inr, Bool, true, false, List, [], ◌∷◌, if◌then◌else◌,
  arith,
}
use qoraal_flash.Tallies.{Rtc, Calls, put-here, put-other, record_len}
use qoraal_flash.Tallies.Persist.{Pass, bounded, visit, visit_all}
use qoraal_flash.Tallies.Persist.Steps.{Inv, at}
use qoraal_flash.Tallies.Counters.{IsIn-cons, not_place, IsCounter, IsIn, AreDistinct}
use qoraal_flash.Tallies.Stored.{IsCodec, IsStore, IsSure}
use qoraal_flash.Tallies.Persist.Rounds.{
  dirty_count, attempts, dirty_count-eq, IsQuiet, quiet, IsQuiet-trans, CanPass, Round, was_clean,
  is_left, is_written, visit-Round,
}

module _ {R : Rtc} (C : IsCodec R) {V : Type 0} {O : Calls V} (S : IsStore O (record_len R)) where
  module _ (sure : IsSure S) where
    -- What a pass over a list leaves behind, from a state with room for `n` writes.
    pub record IsPassed (max : ℕ) (cs : List (ℕ × ℕ)) (s s' : Pass R V) (n : ℕ) : Type 0 where
      pub quiet : IsQuiet s.state s'.state
      pub room : ℕ
      pub inv : Inv S (at s'.state room)
      pub writes_made : room + attempts max s.written (dirty_count s.state.dirty cs) ≡ n
      pub left :
          dirty_count s'.state.dirty cs + attempts max s.written (dirty_count s.state.dirty cs)
          ≡ dirty_count s.state.dirty cs
      pub counted :
          s'.remaining + attempts max s.written (dirty_count s.state.dirty cs)
          ≡ s.remaining + dirty_count s.state.dirty cs
      pub written_then :
          s'.written ≡ s.written + attempts max s.written (dirty_count s.state.dirty cs)
      pub outside : (c : ℕ × ℕ) → ¬ IsIn c cs → s'.state.dirty c.0 c.1 ≡ s.state.dirty c.0 c.1

    no_attempt : (max w : ℕ) → attempts max w 0 ≡ 0
    no_attempt max w = ground arith

    one_attempt : (max w : ℕ) → bounded max w ≡ false → attempts max w 1 ≡ 1
    one_attempt max w h = ground arith

    bounded_attempt : (max w : ℕ) → bounded max w ≡ true → attempts max w 1 ≡ 0
    bounded_attempt max w h = ground arith

    -- A round is a pass over one entry.
    Round-IsPassed :
        (max b l : ℕ) (s s' : Pass R V) (n : ℕ)
        → Inv S (at s.state n)
        → Round C S sure max b l s s' n
        → IsPassed max ((b, l) ∷ []) s s' n
    Round-IsPassed max b l s s' n inv (was_clean d e) =
        let before : dirty_count s.state.dirty ((b, l) ∷ []) ≡ 0 = rw d refl in
        let made : attempts max s.written (dirty_count s.state.dirty ((b, l) ∷ [])) ≡ 0 =
          ap (attempts max s.written) before ∙ no_attempt max s.written in
        rw e (record {
          quiet = quiet s.state;
          room = n;
          inv = inv;
          writes_made = omega (arith, made);
          left = omega (arith, made);
          counted = omega (arith, made, before);
          written_then = omega (arith, made);
          outside = λ c h. refl;
        })
    Round-IsPassed max b l s s' n inv (is_left d w e) =
        let before : dirty_count s.state.dirty ((b, l) ∷ []) ≡ 1 = rw d refl in
        let made : attempts max s.written (dirty_count s.state.dirty ((b, l) ∷ [])) ≡ 0 =
          ap (attempts max s.written) before ∙ bounded_attempt max s.written w in
        rw e (record {
          quiet = quiet s.state;
          room = n;
          inv = inv;
          writes_made = omega (arith, made);
          left = omega (arith, made);
          counted = omega (arith, made, before);
          written_then = omega (arith, made);
          outside = λ c h. refl;
        })
    Round-IsPassed max b l s s' n inv (is_written k d w m inv' q f a r) =
        let before : dirty_count s.state.dirty ((b, l) ∷ []) ≡ 1 = rw d refl in
        let made : attempts max s.written (dirty_count s.state.dirty ((b, l) ∷ [])) ≡ 1 =
          ap (attempts max s.written) before ∙ one_attempt max s.written w in
        let after : dirty_count s'.state.dirty ((b, l) ∷ []) ≡ 0 =
          rw (f, put-here b l false s.state.dirty) refl in
        record {
          quiet = q;
          room = k;
          inv = inv';
          writes_made = omega (arith, made, m);
          left = omega (arith, made, after, before);
          counted = omega (arith, made, before, r);
          written_then = omega (arith, made, a);
          outside = λ c h.
              ap (λ g. g c.0 c.1) f ∙ put-other b l false s.state.dirty c.0 c.1 (not_place b l c h);
        }

    attempts-add :
        (max w d e : ℕ)
        → attempts max w (d + e) ≡ attempts max w d + attempts max (w + attempts max w d) e
    attempts-add max w d e = ground arith

    rest_dirty :
        (max : ℕ) (c : ℕ × ℕ) (cs : List (ℕ × ℕ)) (s s' : Pass R V) (n : ℕ)
        → ¬ IsIn c cs
        → IsPassed max (c ∷ []) s s' n
        → dirty_count s'.state.dirty cs ≡ dirty_count s.state.dirty cs
    rest_dirty max c cs s s' n new p =
        dirty_count-eq s.state.dirty s'.state.dirty cs (λ d i. p.outside d (λ j. new (only d j i)))
      where
        only : (d : ℕ × ℕ) → IsIn d (c ∷ []) → IsIn d cs → IsIn c cs
        only d (inl e) i = subst (λ x. IsIn x cs) e i
        only d (inr h) i = absurd h

    -- The writes of a pass over a list are those of its first round and those of the rest.
    split_attempts :
        (max : ℕ) (c : ℕ × ℕ) (cs : List (ℕ × ℕ)) (s s' : Pass R V) (n : ℕ)
        → ¬ IsIn c cs
        → IsPassed max (c ∷ []) s s' n
        → attempts max s.written (dirty_count s.state.dirty (c ∷ cs))
          ≡ attempts max s.written (dirty_count s.state.dirty (c ∷ []))
            + attempts max s'.written (dirty_count s'.state.dirty cs)
    split_attempts max c cs s s' n new p =
        let rest = rest_dirty max c cs s s' n new p in
        let both : dirty_count s.state.dirty (c ∷ cs)
            ≡ dirty_count s.state.dirty (c ∷ []) + dirty_count s.state.dirty cs =
          omega arith in
        ap (attempts max s.written) both
        ∙ attempts-add max s.written (dirty_count s.state.dirty (c ∷ []))
            (dirty_count s.state.dirty cs)
        ∙ cc (p.written_then, rest)

    attempts-le : (max w d : ℕ) → attempts max w d ≤ d
    attempts-le max w d = ground arith

    one-le : (f : ℕ → ℕ → Bool) (c : ℕ × ℕ) → dirty_count f (c ∷ []) ≤ 1
    one-le f c = ground arith

    CanPass-rest :
        (max : ℕ) (c : ℕ × ℕ) (cs : List (ℕ × ℕ)) (s s' : Pass R V) (n : ℕ)
        → ¬ IsIn c cs
        → CanPass C S sure max (c ∷ cs) s n
        → (p : IsPassed max (c ∷ []) s s' n) → CanPass C S sure max cs s' p.room
    CanPass-rest max c cs s s' n new can p =
        let made = split_attempts max c cs s s' n new p in
        let few = attempts-le max s.written (dirty_count s.state.dirty (c ∷ [])) in
        let one = one-le s.state.dirty c in
        record {
          inv = p.inv;
          enough = omega (arith, made, can.enough, p.writes_made);
          small_written = omega (arith, few, one, can.small_written, p.written_then);
          small_remaining = omega (arith, few, one, can.small_remaining, p.counted);
        }

    IsPassed-cons :
        (max : ℕ) (c : ℕ × ℕ) (cs : List (ℕ × ℕ)) (s s' s'' : Pass R V) (n : ℕ)
        → ¬ IsIn c cs
        → (p : IsPassed max (c ∷ []) s s' n) → IsPassed max cs s' s'' p.room
        → IsPassed max (c ∷ cs) s s'' n
    IsPassed-cons max c cs s s' s'' n new p q =
        let rest = rest_dirty max c cs s s' n new p in
        let made = split_attempts max c cs s s' n new p in
        let head : dirty_count s''.state.dirty (c ∷ []) ≡ dirty_count s'.state.dirty (c ∷ []) =
          ap (λ x. (if x then 1 else 0) + 0) (q.outside c new) in
        let both : dirty_count s.state.dirty (c ∷ cs)
            ≡ dirty_count s.state.dirty (c ∷ []) + dirty_count s.state.dirty cs =
          omega arith in
        let split : dirty_count s''.state.dirty (c ∷ cs)
            ≡ dirty_count s''.state.dirty (c ∷ []) + dirty_count s''.state.dirty cs =
          omega arith in
        record {
          quiet = IsQuiet-trans s.state s'.state s''.state p.quiet q.quiet;
          room = q.room;
          inv = q.inv;
          writes_made = omega (arith, made, p.writes_made, q.writes_made);
          left = omega (arith, made, both, split, head, rest, p.left, q.left);
          counted = omega (arith, made, both, rest, p.counted, q.counted);
          written_then = omega (arith, made, p.written_then, q.written_then);
          outside = λ d h. q.outside d (λ i. h (inr i)) ∙ p.outside d (λ i. h (IsIn-cons c cs d i));
        }

    -- What a pass over a list does, of which every entry is a counter and stands once.
    pub visit_all-IsPassed :
        (max : ℕ) (cs : List (ℕ × ℕ)) (s : Pass R V) (n : ℕ)
        → AreDistinct cs
        → ((c : ℕ × ℕ) → IsIn c cs → IsCounter s.state.heap s.state.blocks c)
        → CanPass C S sure max cs s n
        → IsPassed max cs s (visit_all O max cs s) n
    unfolding visit_all
    visit_all-IsPassed max [] s n distinct are can =
        let none_made : attempts max s.written 0 ≡ 0 = no_attempt max s.written in
        record {
          quiet = quiet s.state;
          room = n;
          inv = can.inv;
          writes_made = omega (arith, none_made);
          left = omega (arith, none_made);
          counted = omega (arith, none_made);
          written_then = omega (arith, none_made);
          outside = λ c h. refl;
        }
    visit_all-IsPassed max ((b, l) ∷ cs) s n (new, distinct) are can =
        let p =
          Round-IsPassed max b l s (visit O max (b, l) s) n can.inv
            (visit-Round C S sure max b l cs s n (are (b, l) (inl refl)) can) in
        IsPassed-cons max (b, l) cs s (visit O max (b, l) s)
          (visit_all O max cs (visit O max (b, l) s)) n new p
          (visit_all-IsPassed max cs (visit O max (b, l) s) p.room distinct
            (λ c i. rw (p.quiet.heap, p.quiet.blocks) (are c (inr i)))
            (CanPass-rest max (b, l) cs s (visit O max (b, l) s) n new can p))
