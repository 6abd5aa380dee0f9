-- ===== src/Tallies/Load/Filled.antt =====
-- One round of block_load, by what is held for the counter.
use qoraal_flash.Common.{
  ℕ, ◌≡◌, refl, sym, ap, subst, ◌∙◌, inl, inr, true, false, none, some, List, [], ◌∷◌, ◌++◌, ◌==◌,
  ◌&&◌, if◌then◌else◌, arith, take, drop, ltb, length, Bool-cases, Option-cases,
}
use qoraal_flash.Common.Word.{u32_bytes}
use qoraal_flash.Nvol3.Loaded.Get.{answer}
use qoraal_flash.Tallies.{
  Rtc, Entry, Calls, Tallies, put, put-here, put-other, key, record_len, no_entry, entry_of,
  name_canonical, max_name_len,
}
use qoraal_flash.Tallies.Load.{
  cleared, dropped, take_over, read_back, load_one, same_name, is_short,
}
use qoraal_flash.Tallies.Load.Frame.{IsFrame}
use qoraal_flash.Tallies.Counters.{IsCounter, IsIn, counter_id, counter_unique, not_place}
use qoraal_flash.Tallies.Stored.{IsStore, restore}
use qoraal_flash.Tallies.Persist.Steps.{stored}
use qoraal_flash.Tallies.Register.Apart.{AreApart}

module _ {R : Rtc} {V : Type 0} {O : Calls V} (S : IsStore O (record_len R)) where
  -- What filling the counters of a list leaves, with room for `n` writes.
  pub record IsFilled (cs : List (ℕ × ℕ)) (t t' : Tallies R V) (n : ℕ) : Type 0 where
    pub frame : IsFrame O t t'
    pub good : S.IsGood n t'.vol
    pub filled :
        (c : ℕ × ℕ)
        → IsIn c cs
        → (t'.entry c.0 c.1 ≡ stored S t c.0 c.1) × (t'.dirty c.0 c.1 ≡ false)
    pub entry_outside : (c : ℕ × ℕ) → ¬ IsIn c cs → t'.entry c.0 c.1 ≡ t.entry c.0 c.1
    pub dirty_outside : (c : ℕ × ℕ) → ¬ IsIn c cs → t'.dirty c.0 c.1 ≡ t.dirty c.0 c.1
    pub same_stored :
        (c : ℕ × ℕ) → IsCounter t.heap t.blocks c → stored S t' c.0 c.1 ≡ stored S t c.0 c.1

  module _ (t : Tallies R V) (n b l : ℕ) (apart : AreApart t.heap t.blocks)
      (good : S.IsGood n t.vol) (i : IsCounter t.heap t.blocks (b, l)) where
    abbrev t0 : Tallies R V
    t0 = cleared O b l t

    -- Nothing that is of use is held: the counter is zero.
    IsFilled-cleared : stored S t b l ≡ no_entry R → IsFilled ((b, l) ∷ []) t t0 n
    unfolding cleared
    IsFilled-cleared e = record {
      frame = record { heap = refl; blocks = refl; inst = refl; scratch = refl };
      good = good;
      filled = λ c h. elim h [
        | inl q ↦ rw q (put-here b l (no_entry R) t.entry ∙ sym e, put-here b l false t.dirty)
        | inr q ↦ absurd q
      ];
      entry_outside = λ c h. put-other b l (no_entry R) t.entry c.0 c.1 (not_place b l c h);
      dirty_outside = λ c h. put-other b l false t.dirty c.0 c.1 (not_place b l c h);
      same_stored = λ c h. refl;
    }

    -- The record of somebody else is deleted: nothing is held for the counter then.
    stored-dropped :
        (rest : List ℕ) (c : ℕ × ℕ)
        → stored S t b l ≡ no_entry R
        → IsCounter t.heap t.blocks c
        → restore R ((t.heap c.0).defs c.1) (
            S.held
              (O.nvol3_record_delete (u32_bytes (key R t b l) ++ rest) t.vol).1
              (key R t c.0 c.1))
          ≡ stored S t c.0 c.1
    unfolding restore
    stored-dropped rest c e j =
        let small = counter_id t.heap t.blocks (b, l) apart i in
        let held =
          S.delete_held n t.vol (key R t b l) rest good (omega arith) (key R t c.0 c.1)
            (omega (arith, counter_id t.heap t.blocks c apart j)) in
        elim (Bool-cases (key R t b l == key R t c.0 c.1)) [
          | inr other ↦ ap (restore R ((t.heap c.0).defs c.1)) (held ∙ rw other refl)
          | inl this ↦
              let (x, y) = counter_unique t.heap t.blocks b c.0 l c.1 apart i j (ground arith) in
              let gone : S.held (O.nvol3_record_delete (u32_bytes (key R t b l) ++ rest) t.vol).1
                    (key R t c.0 c.1)
                  ≡ none =
                held ∙ rw this refl in
              ap (restore R ((t.heap c.0).defs c.1)) gone
              ∙ sym e
              ∙ ap (λ (z : ℕ × ℕ). stored S t z.0 z.1) (cc (x, y))
        ]

    IsFilled-dropped :
        (bytes : List ℕ)
        → stored S t b l ≡ no_entry R
        → IsFilled ((b, l) ∷ []) t (dropped O b l bytes t0) n
    unfolding cleared dropped
    IsFilled-dropped bytes e =
        let zero = IsFilled-cleared e in
        record {
          frame = record { heap = refl; blocks = refl; inst = refl; scratch = refl };
          good =
              S.delete_good n t.vol (key R t b l) (drop 4 bytes) good
                (omega (arith, counter_id t.heap t.blocks (b, l) apart i));
          filled = zero.filled;
          entry_outside = zero.entry_outside;
          dirty_outside = zero.dirty_outside;
          same_stored = λ c j. stored-dropped (drop 4 bytes) c e j;
        }

    IsFilled-taken :
        (e : Entry R)
        → stored S t b l ≡ e
        → IsFilled
            ((b, l) ∷ [])
            t
            (record t0 { entry = put b l e t0.entry; dirty = put b l false t0.dirty })
            n
    unfolding cleared
    IsFilled-taken e q = record {
      frame = record { heap = refl; blocks = refl; inst = refl; scratch = refl };
      good = good;
      filled = λ c h. elim h [
        | inl r ↦ rw r (put-here b l e t0.entry ∙ sym q, put-here b l false t0.dirty)
        | inr r ↦ absurd r
      ];
      entry_outside = λ c h.
          put-other b l e t0.entry c.0 c.1 (not_place b l c h)
          ∙ put-other b l (no_entry R) t.entry c.0 c.1 (not_place b l c h);
      dirty_outside = λ c h.
          put-other b l false t0.dirty c.0 c.1 (not_place b l c h)
          ∙ put-other b l false t.dirty c.0 c.1 (not_place b l c h);
      same_stored = λ c h. refl;
    }

    -- What follows a record that is held.
    some-IsFilled :
        (bytes : List ℕ)
        → S.held t.vol (key R t b l) ≡ some bytes
        → IsFilled ((b, l) ∷ []) t (read_back O b l (answer (some bytes)) t0) n
    unfolding read_back take_over is_short restore cleared
    some-IsFilled bytes h =
        let name = (t.heap b).defs l in
        let at : stored S t b l ≡ restore R name (some bytes) = ap (restore R name) h in
        elim (Bool-cases (ltb (length bytes) (record_len R))) [
          | inl short ↦ rw short (IsFilled-cleared (at ∙ rw short refl))
          | inr long ↦
              elim (Bool-cases
                (same_name (take max_name_len (drop 4 bytes)) (name_canonical name))) [
                  | inl ours ↦
                      rw (long, ours)
                        (IsFilled-taken (entry_of R (drop max_name_len (drop 4 bytes)))
                          (at ∙ rw (long, ours) refl))
                  | inr theirs ↦
                      rw (long, theirs) (IsFilled-dropped bytes (at ∙ rw (long, theirs) refl))
                ]
        ]

    load_one-eq :
        t.scratch ≡ true
        → load_one O (b, l) t ≡ read_back O b l (answer (S.held t.vol (key R t b l))) t0
    unfolding load_one
    load_one-eq scratch =
        let open_volume : O.has_dict t.vol && t.scratch ≡ true =
          ground (arith, S.loaded n t.vol good, scratch) in
        let read =
          S.get n t.vol (key R t b l) good
            (omega (arith, counter_id t.heap t.blocks (b, l) apart i)) in
        ap
          (λ x.
            if x
            then read_back O b l (O.nvol3_record_get (u32_bytes (key R t b l)) t.vol) t0
            else t0)
          open_volume
        ∙ ap (λ r. read_back O b l r t0) read

    pub load_one-IsFilled : t.scratch ≡ true → IsFilled ((b, l) ∷ []) t (load_one O (b, l) t) n
    unfolding restore read_back
    load_one-IsFilled scratch =
        subst (λ x. IsFilled ((b, l) ∷ []) t x n) (sym (load_one-eq scratch))
          (elim (Option-cases (S.held t.vol (key R t b l))) [
            | inr (bytes, e) ↦ rw e (some-IsFilled bytes e)
            | inl e ↦ rw e (IsFilled-cleared (ap (restore R ((t.heap b).defs l)) e))
          ])
