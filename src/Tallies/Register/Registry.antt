-- ===== src/Tallies/Register/Registry.antt =====
-- tallies_register and tallies_unregister keep the blocks apart.
use qoraal_flash.Common.{
  ℕ, ◌+◌, ◌≤◌, ◌<◌, ◌≡◌, refl, inl, inr, true, false, Option, none, some, [], ◌∷◌, ◌++◌, ◌==◌, ◌&&◌,
  if◌then◌else◌, arith, leb, ◌%◌, ◌^◌, ==_refl, Bool-cases, Option-cases,
}
use qoraal_flash.Common.Word.{ℤ, pos, negsuc, add32}
use qoraal_flash.Tallies.{Rtc, Block, Calls, Tallies, base_none}
use qoraal_flash.Tallies.Load.{block_load}
use qoraal_flash.Tallies.Load.Frame.{IsFrame, block_load-IsFrame}
use qoraal_flash.Tallies.Register.{
  is_whole, names_fit, block_find, block_find_overlap, unlink, set_base, link_block, register_at,
  tallies_register, tallies_unregister,
}
use qoraal_flash.Tallies.Register.Apart.{
  AreApart, AreApart-Agree, set_base-Agree, AreApart-append, set_base-IsApart, unlink-found,
}

set_base-count : (b base c : ℕ) (heap : ℕ → Block) → (set_base b base heap c).count ≡ (heap c).count
set_base-count b base c heap = elim (Bool-cases (b == c)) [ inl e ↦ rw e refl | inr e ↦ rw e refl ]

abbrev pub IsInt32 : ℤ → Type 0
IsInt32 (pos n) = n < 2 ^ 31
IsInt32 (negsuc n) = n < 2 ^ 31

module _ {R : Rtc} {V : Type 0} (O : Calls V) where
  -- The counts are of 16 bits, and the ranges of the registered blocks are apart.
  pub record IsRegistry (t : Tallies R V) : Type 0 where
    pub counts : (b : ℕ) → (t.heap b).count < 65536
    pub apart : AreApart t.heap t.blocks

  frame-IsRegistry : (t t' : Tallies R V) → IsRegistry t → IsFrame O t t' → IsRegistry t'
  frame-IsRegistry t t' inv f = record {
    counts = rw f.heap inv.counts;
    apart = rw (f.heap, f.blocks) inv.apart;
  }

  link_block-IsRegistry :
      (b base : ℕ) (t : Tallies R V)
      → IsRegistry t
      → 0 < (t.heap b).count
      → base + (t.heap b).count ≤ base_none
      → block_find b t.blocks ≡ false
      → block_find_overlap t.heap t.blocks b base ≡ none
      → IsRegistry (link_block O b base t)
  unfolding link_block
  link_block-IsRegistry b base t inv some_count fits f o =
      let small : base % 65536 ≡ base = omega (arith, some_count, fits) in
      let here : (b == b) ≡ true = ==_refl b in
      let linked : Tallies R V = record t {
        heap = set_base b base t.heap;
        blocks = t.blocks ++ (b ∷ []);
      } in
      let linked_inv : IsRegistry linked = record {
        counts = λ c. rw (set_base-count b base c t.heap) (inv.counts c);
        apart =
            AreApart-append (set_base b base t.heap) t.blocks b
              (AreApart-Agree t.heap (set_base b base t.heap) t.blocks
                (set_base-Agree t.heap b base t.blocks f) inv.apart)
              (rw here (some_count, fits))
              (set_base-IsApart t.heap t.blocks b base fits inv.apart f o);
      } in
      rw small (elim t.started as (λ x. IsRegistry (if x then block_load O b linked else linked)) [
        | true ↦ frame-IsRegistry linked _ linked_inv (block_load-IsFrame O b linked)
        | false ↦ linked_inv
      ])

  register_at-IsRegistry :
      (b base : ℕ) (t : Tallies R V)
      → IsRegistry t
      → 0 < (t.heap b).count
      → base + (t.heap b).count ≤ base_none
      → IsRegistry (register_at O b base t).1
  unfolding register_at
  register_at-IsRegistry b base t inv some_count fits = elim (Bool-cases (block_find b t.blocks)) [
    | inl e ↦ rw e inv
    | inr e ↦ elim (Option-cases (block_find_overlap t.heap t.blocks b base)) [
      | inl o ↦ rw (e, o) (link_block-IsRegistry b base t inv some_count fits e o)
      | inr (c, o) ↦ rw (e, o) inv
    ]
  ]

  pub tallies_register-IsRegistry :
      (b : Option ℕ) (base : ℤ) (t : Tallies R V)
      → IsInt32 base
      → IsRegistry t
      → IsRegistry (tallies_register O b base t).1
  unfolding tallies_register is_whole
  tallies_register-IsRegistry none base t small inv = inv
  tallies_register-IsRegistry (some b) (negsuc n) t small inv = inv
  tallies_register-IsRegistry (some b) (pos base) t small inv =
      let blk = t.heap b in
      let sound =
        is_whole blk && leb (add32 base blk.count) base_none && names_fit blk.defs 0 blk.count in
      elim (Bool-cases sound) [
        | inr e ↦ rw e inv
        | inl e ↦ rw e (
            register_at-IsRegistry b base t inv (ground (arith, e))
              (ground (arith, e, inv.counts b)))
      ]

  pub tallies_unregister-IsRegistry :
      (b : Option ℕ) (t : Tallies R V) → IsRegistry t → IsRegistry (tallies_unregister b t).1
  unfolding tallies_unregister
  tallies_unregister-IsRegistry none t inv = inv
  tallies_unregister-IsRegistry (some b) t inv = elim (Bool-cases (block_find b t.blocks)) [
    | inr e ↦ rw e inv
    | inl e ↦
        let (f, a) = unlink-found t.heap b t.blocks inv.apart in
        rw e (record {
          counts = λ c. rw (set_base-count b base_none c t.heap) (inv.counts c);
          apart =
              AreApart-Agree t.heap (set_base b base_none t.heap) (unlink b t.blocks)
                (set_base-Agree t.heap b base_none (unlink b t.blocks) f) a;
        })
  ]
