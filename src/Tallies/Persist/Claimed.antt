-- ===== src/Tallies/Persist/Claimed.antt =====
-- A call that counts, and the claim of an entry.
use qoraal_flash.Common.{
  ℕ, ◌≡◌, refl, sym, subst, ◌∙◌, inl, inr, true, false, ◌==◌, ◌&&◌, arith, Bool-cases,
}
use qoraal_flash.Common.Word.{IsWord}
use qoraal_flash.Tallies.{Rtc, Entry, Calls, Tallies, put-other, record_len, record_of}
use qoraal_flash.Tallies.Persist.{claim}
use qoraal_flash.Tallies.Persist.Steps.{
  Flight, idle, claimed, written, System, IsSound, IsOther, InFlight, Inv, IsKept,
}
use qoraal_flash.Tallies.Counters.{IsCounter, counter_id, same_place}
use qoraal_flash.Tallies.Stored.{IsCodec, IsStore, record_of-IsRecord}
use qoraal_flash.Tallies.Count.{put_entry}

module _ {R : Rtc} {V : Type 0} where
  -- An entry that is clean after a call that counts was so before, and is the same.
  put_entry-clean :
      (b l c m : ℕ) (e : Entry R) (t : Tallies R V)
      → (put_entry b l e t).dirty c m ≡ false
      → (t.dirty c m ≡ false) × ((put_entry b l e t).entry c m ≡ t.entry c m)
  put_entry-clean b l c m e t h = elim (Bool-cases ((b == c) && (l == m))) [
    | inl s ↦ absurd (ground (arith, h, s))
    | inr s ↦ (sym (put-other b l true t.dirty c m s) ∙ h, put-other b l e t.entry c m s)
  ]

  put_entry-IsSound :
      (b l : ℕ) (e : Entry R) (t : Tallies R V)
      → (IsCounter t.heap t.blocks (b, l) → IsWord e.value)
      → IsSound t
      → IsSound (put_entry b l e t)
  put_entry-IsSound b l e t word s = record {
    apart = s.apart;
    words = λ c m i. elim (Bool-cases ((b == c) && (l == m))) [
      | inl q ↦
          let (x, y) = same_place b l c m q in
          rw q (word (subst (λ (z : ℕ × ℕ). IsCounter t.heap t.blocks z) (cc (x, y)) i))
      | inr q ↦ rw q (s.words c m i)
    ];
    texts = s.texts;
  }

  pub record_of-eq :
      (t t' : Tallies R V) (b l : ℕ)
      → t'.heap ≡ t.heap
      → t'.entry b l ≡ t.entry b l
      → record_of R t' b l ≡ record_of R t b l
  unfolding record_of
  record_of-eq t t' b l h e = rw (h, e) refl

module _ {R : Rtc} (C : IsCodec R) {V : Type 0} {O : Calls V} (S : IsStore O (record_len R)) where
  pub counts-Inv :
      (s : System R V) (b l : ℕ) (e : Entry R)
      → (IsCounter s.tallies.heap s.tallies.blocks (b, l) → IsWord e.value)
      → Inv S s
      → Inv S (record s { tallies = put_entry b l e s.tallies })
  counts-Inv s b l e word inv = record {
    sound = put_entry-IsSound b l e s.tallies word inv.sound;
    good = inv.good;
    flies = fly s.flight inv.flies;
    kept = λ c m i o. keep c m (inv.kept c m i o);
  }
    where
      keep : (c m : ℕ) → IsKept S s.tallies c m → IsKept S (put_entry b l e s.tallies) c m
      keep c m k h =
          let (before, same) = put_entry-clean b l c m e s.tallies h in k before ∙ sym same

      fly : (f : Flight) → InFlight S s.tallies f → InFlight S (put_entry b l e s.tallies) f
      fly idle h = tt
      fly (claimed c m bytes) (i, r, h) = (
        i,
        r,
        λ q.
            let (before, same) = put_entry-clean b l c m e s.tallies q in
            h before ∙ sym (record_of-eq s.tallies (put_entry b l e s.tallies) c m refl same),
      )
      fly (written c m st) (i, h) = (i, λ q. keep c m (h q))

  pub claims-Inv :
      (s : System R V) (b l : ℕ)
      → s.flight ≡ idle
      → IsCounter s.tallies.heap s.tallies.blocks (b, l)
      → Inv S s
      → Inv S (record s {
        tallies = claim b l s.tallies;
        flight = claimed b l (record_of R s.tallies b l);
      })
  unfolding claim
  claims-Inv s b l f i inv = record {
    sound = record { apart = inv.sound.apart; words = inv.sound.words; texts = inv.sound.texts };
    good = inv.good;
    flies = (
      i,
      record_of-IsRecord R C s.tallies b l (inv.sound.texts b l i)
          (omega (arith, counter_id s.tallies.heap s.tallies.blocks (b, l) inv.sound.apart i)),
      λ h. sym (record_of-eq s.tallies (claim b l s.tallies) b l refl refl),
    );
    kept = λ c m j o h.
        inv.kept c m j (subst (λ x. IsOther x c m) (sym f) tt)
          (sym (put-other b l false s.tallies.dirty c m o) ∙ h);
  }
