-- ===== src/Tallies/Persist/Kept.antt =====
-- What is clean is stored, whatever counts while an entry is written.
use qoraal_flash.Common.{
  ℕ, suc, ◌≡◌, refl, sym, ap, subst, ◌∙◌, inl, inr, true, false, none, some, List, ◌==◌, ◌&&◌,
  arith, Bool-cases,
}
use qoraal_flash.Common.Run.{Status, eok}
use qoraal_flash.Tallies.{Rtc, Calls, Tallies, put-other, key, record_len, record_of}
use qoraal_flash.Tallies.Persist.{write_out, hand_back, is_eok}
use qoraal_flash.Tallies.Persist.Steps.{
  idle, claimed, written, System, Step, counts, claims, writes, hands_back, Reach, here, later,
  IsSound, IsOther, InFlight, Inv, IsKept, stored,
}
use qoraal_flash.Tallies.Counters.{IsCounter, counter_id, counter_unique, same_place}
use qoraal_flash.Tallies.Stored.{IsCodec, IsStore, IsRecord, restore, restore-record_of}
use qoraal_flash.Tallies.Count.{changed}
use qoraal_flash.Tallies.Count.Refine.{change-cases, change-none, changed-IsWord}
use qoraal_flash.Tallies.Persist.Claimed.{counts-Inv, claims-Inv}

is_eok-eq : (e : Status) → is_eok e ≡ true → e ≡ eok
unfolding is_eok
is_eok-eq eok h = refl
is_eok-eq e h = cc

module _ {R : Rtc} (C : IsCodec R) {V : Type 0} {O : Calls V} (S : IsStore O (record_len R)) where
  -- The write changes what is held for its counter only.
  stored-other :
      (t : Tallies R V) (n b l c m : ℕ) (bytes : List ℕ)
      → IsSound t
      → S.IsGood (suc n) t.vol
      → IsRecord (record_len R) (key R t b l) bytes
      → IsCounter t.heap t.blocks (b, l)
      → IsCounter t.heap t.blocks (c, m)
      → ((b == c) && (l == m)) ≡ false
      → stored S (write_out O bytes t).1 c m ≡ stored S t c m
  unfolding write_out
  stored-other t n b l c m bytes s g r i j o = ap (restore R ((t.heap c).defs m)) (
      S.set_other n t.vol (key R t b l) bytes g r (key R t c m)
        (omega (arith, counter_id t.heap t.blocks (c, m) s.apart j))
        (λ e.
          let (x, y) = counter_unique t.heap t.blocks c b m l s.apart j i e in
          absurd (ground (arith, x, y, o))))

  -- Where the write succeeds, the entry that was claimed is stored.
  stored-written :
      (t : Tallies R V) (n b l : ℕ) (bytes : List ℕ)
      → IsSound t
      → S.IsGood (suc n) t.vol
      → IsRecord (record_len R) (key R t b l) bytes
      → IsCounter t.heap t.blocks (b, l)
      → (t.dirty b l ≡ false → bytes ≡ record_of R t b l)
      → (write_out O bytes t).0 ≡ eok
      → IsKept S (write_out O bytes t).1 b l
  unfolding write_out
  stored-written t n b l bytes s g r i same e h =
      ap (restore R ((t.heap b).defs l))
        (S.set_held n t.vol (key R t b l) bytes g r e ∙ ap some (same h))
      ∙ restore-record_of R C t b l (s.words b l i)

  writes-Inv :
      (s : System R V) (b l n : ℕ) (bytes : List ℕ)
      → s.flight ≡ claimed b l bytes
      → s.room ≡ suc n
      → Inv S s
      → Inv S (record {
        tallies = (write_out O bytes s.tallies).1;
        room = n;
        flight = written b l (write_out O bytes s.tallies).0;
      })
  unfolding write_out
  writes-Inv s b l n bytes f r inv =
      let (i, rec, same) = subst (InFlight S s.tallies) f inv.flies in
      let good : S.IsGood (suc n) s.tallies.vol =
        subst (λ k. S.IsGood k s.tallies.vol) r inv.good in
      record {
        sound = record {
          apart = inv.sound.apart;
          words = inv.sound.words;
          texts = inv.sound.texts;
        };
        good = S.set_good n s.tallies.vol (key R s.tallies b l) bytes good rec;
        flies = (i, stored-written s.tallies n b l bytes inv.sound good rec i same);
        kept = λ c m j o h.
            stored-other s.tallies n b l c m bytes inv.sound good rec i j o
            ∙ inv.kept c m j (subst (λ x. IsOther x c m) (sym f) o) h;
      }

  hands_back-Inv :
      (s : System R V) (b l : ℕ) (e : Status)
      → s.flight ≡ written b l e
      → Inv S s
      → Inv S (record s { tallies = hand_back b l e s.tallies; flight = idle })
  unfolding hand_back
  hands_back-Inv s b l e f inv =
      let (i, landed) = subst (InFlight S s.tallies) f inv.flies in
      elim (Bool-cases (is_eok e)) [
        | inl q ↦ rw q (record {
          sound = inv.sound;
          good = inv.good;
          flies = tt;
          kept = λ c m j o. elim (Bool-cases ((b == c) && (l == m))) [
            | inl same ↦ let (x, y) = same_place b l c m same in rw (x, y) (landed (is_eok-eq e q))
            | inr other ↦ inv.kept c m j (subst (λ x. IsOther x c m) (sym f) other)
          ];
        })
        | inr q ↦ rw q (record {
          sound = record {
            apart = inv.sound.apart;
            words = inv.sound.words;
            texts = inv.sound.texts;
          };
          good = inv.good;
          flies = tt;
          kept = λ c m j o h. elim (Bool-cases ((b == c) && (l == m))) [
            | inl same ↦ absurd (ground (arith, h, same))
            | inr other ↦
                inv.kept c m j (subst (λ x. IsOther x c m) (sym f) other)
                  (sym (put-other b l true s.tallies.dirty c m other) ∙ h)
          ];
        })
      ]

  pub Step-Inv : (s u : System R V) → Step O s u → Inv S s → Inv S u
  Step-Inv s u (counts x none l word e) inv =
      subst (Inv S) (sym (e ∙ ap (λ r. record s { tallies = r.1 }) (change-none x l s.tallies))) inv
  Step-Inv s u (counts x (some b) l word e) inv = elim (change-cases x b l s.tallies) [
    | inl (nr, eq) ↦ subst (Inv S) (sym (e ∙ ap (λ r. record s { tallies = r.1 }) eq)) inv
    | inr (r, eq) ↦ subst (Inv S) (sym (e ∙ ap (λ r. record s { tallies = r.1 }) eq)) (
        counts-Inv C S s b l (changed x (s.tallies.entry b l))
          (λ i. changed-IsWord x (s.tallies.entry b l) word (inv.sound.words b l i)) inv)
  ]
  Step-Inv s u (claims b l f i e) inv = subst (Inv S) (sym e) (claims-Inv C S s b l f i inv)
  Step-Inv s u (writes b l n bytes f r e) inv =
      subst (Inv S) (sym e) (writes-Inv s b l n bytes f r inv)
  Step-Inv s u (hands_back b l e f q) inv = subst (Inv S) (sym q) (hands_back-Inv s b l e f inv)

  pub Reach-Inv : (s u : System R V) → Reach O s u → Inv S s → Inv S u
  Reach-Inv s u here inv = inv
  Reach-Inv s u (later {u = v} r st) inv = Step-Inv v u st (Reach-Inv s v r inv)

  -- However other threads count while entries are written, and whether a write succeeds or fails: if
  -- at the start every clean counter is stored, so is every clean counter at each time between two
  -- writes, that is, block_load would make of what the volume holds for it the entry that it has. It is
  -- supposed that one thread writes at a time, and that the volume keeps its records and stays loaded
  -- for as many writes as there are.
  pub Reach-IsKept :
      (s u : System R V)
      → Reach O s u
      → s.flight ≡ idle
      → u.flight ≡ idle
      → IsSound s.tallies
      → S.IsGood s.room s.tallies.vol
      → ((b l : ℕ) → IsCounter s.tallies.heap s.tallies.blocks (b, l) → IsKept S s.tallies b l)
      → (b l : ℕ) → IsCounter u.tallies.heap u.tallies.blocks (b, l)
      → u.tallies.dirty b l ≡ false
      → stored S u.tallies b l ≡ u.tallies.entry b l
  Reach-IsKept s u r f g sound good kept b l i clean =
      let inv = Reach-Inv s u r (record {
        sound = sound;
        good = good;
        flies = subst (InFlight S s.tallies) (sym f) tt;
        kept = λ c m j o. kept c m j;
      }) in
      inv.kept b l i (subst (λ x. IsOther x b l) (sym g) tt) clean
