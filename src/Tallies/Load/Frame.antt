-- ===== src/Tallies/Load/Frame.antt =====
-- What filling the counters leaves as it is.
use qoraal_flash.Common.{ℕ, ◌≡◌, refl, ◌∙◌, inl, inr, List, [], ◌∷◌, ◌&&◌, take, drop, Bool-cases}
use qoraal_flash.Common.Run.{Result, ok, err}
use qoraal_flash.Common.Word.{ℤ}
use qoraal_flash.Tallies.{Rtc, Calls, Tallies, name_canonical, max_name_len, record_len, locals}
use qoraal_flash.Tallies.Load.{
  cleared, dropped, take_over, read_back, load_one, load_all, block_load, same_name, is_short,
}

module _ {R : Rtc} {V : Type 0} (O : Calls V) where
  -- The list of the blocks, the blocks, and what says whether the counters run.
  pub record IsFrame (t t' : Tallies R V) : Type 0 where
    pub heap : t'.heap ≡ t.heap
    pub blocks : t'.blocks ≡ t.blocks
    pub inst : t'.inst ≡ t.inst
    pub scratch : t'.scratch ≡ t.scratch

  same : (t : Tallies R V) → IsFrame t t
  same t = record { heap = refl; blocks = refl; inst = refl; scratch = refl }

  pub after : {t t' t'' : Tallies R V} → IsFrame t t' → IsFrame t' t'' → IsFrame t t''
  after f g = record {
    heap = g.heap ∙ f.heap;
    blocks = g.blocks ∙ f.blocks;
    inst = g.inst ∙ f.inst;
    scratch = g.scratch ∙ f.scratch;
  }

  take_over-IsFrame :
      (b l : ℕ) (bytes : List ℕ) (t : Tallies R V) → IsFrame t (take_over O b l bytes t)
  unfolding take_over dropped
  take_over-IsFrame b l bytes t =
      elim (Bool-cases
        (same_name (take max_name_len (drop 4 bytes)) (name_canonical ((t.heap b).defs l)))) [
          | inl e ↦ rw e (record { heap = refl; blocks = refl; inst = refl; scratch = refl })
          | inr e ↦ rw e (record { heap = refl; blocks = refl; inst = refl; scratch = refl })
        ]

  read_back-IsFrame :
      (b l : ℕ) (r : Result (ℤ × List ℕ)) (t : Tallies R V) → IsFrame t (read_back O b l r t)
  unfolding read_back
  read_back-IsFrame b l (err e) t = same t
  read_back-IsFrame b l (ok (n, bytes)) t = elim (Bool-cases (is_short (record_len R) n)) [
    | inl e ↦ rw e (same t)
    | inr e ↦ rw e (take_over-IsFrame b l bytes t)
  ]

  cleared-IsFrame : (b l : ℕ) (t : Tallies R V) → IsFrame t (cleared O b l t)
  unfolding cleared
  cleared-IsFrame b l t = record { heap = refl; blocks = refl; inst = refl; scratch = refl }

  pub load_one-IsFrame : (c : ℕ × ℕ) (t : Tallies R V) → IsFrame t (load_one O c t)
  unfolding load_one
  load_one-IsFrame (b, l) t = elim (Bool-cases (O.has_dict t.vol && t.scratch)) [
    | inl e ↦ rw e (after (cleared-IsFrame b l t) (read_back-IsFrame b l _ (cleared O b l t)))
    | inr e ↦ rw e (cleared-IsFrame b l t)
  ]

  pub load_all-IsFrame : (cs : List (ℕ × ℕ)) (t : Tallies R V) → IsFrame t (load_all O cs t)
  unfolding load_all
  load_all-IsFrame [] t = same t
  load_all-IsFrame (c ∷ cs) t = after (load_one-IsFrame c t) (load_all-IsFrame cs (load_one O c t))

  pub block_load-IsFrame : (b : ℕ) (t : Tallies R V) → IsFrame t (block_load O b t)
  unfolding block_load
  block_load-IsFrame b t = load_all-IsFrame (locals b 0 (t.heap b).count) t
