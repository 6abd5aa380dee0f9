-- ===== src/Tallies/Register/Apart.antt =====
-- What tallies_register and tallies_unregister keep of the ranges of ids.
use qoraal_flash.Common.{
  ℕ, ◌+◌, ◌≤◌, ◌<◌, ◌≡◌, ◌≢◌, refl, ◌⊎◌, inl, inr, true, false, none, List, [], ◌∷◌, ◌++◌, ◌==◌,
  All, arith, Bool-cases,
}
use qoraal_flash.Tallies.{Block, base_none}
use qoraal_flash.Tallies.Register.{block_find, overlaps, block_find_overlap, unlink, set_base}

-- A range of ids below the base of an unregistered block, with a counter in it.
abbrev pub InRange : Block → Type 0
InRange blk = (0 < blk.count) × (blk.base + blk.count ≤ base_none)

-- Two blocks without a common id.
abbrev pub IsApart : (ℕ → Block) → ℕ → ℕ → Type 0
IsApart heap b c =
    (b ≢ c)
    × (((heap b).base + (heap b).count ≤ (heap c).base)
        ⊎ ((heap c).base + (heap c).count ≤ (heap b).base))

-- Every block in the list has a range, and no two share an id or are the same.
abbrev pub AreApart : (ℕ → Block) → List ℕ → Type 0
AreApart heap [] = Unit
AreApart heap (b ∷ bs) = InRange (heap b) × All (IsApart heap b) bs × AreApart heap bs

-- Two heaps that agree on the blocks of a list.
abbrev pub Agree : (ℕ → Block) → (ℕ → Block) → List ℕ → Type 0
Agree heap heap' = All (λ b. heap' b ≡ heap b)

IsApart-Agree :
    (heap heap' : ℕ → Block) (b : ℕ) (bs : List ℕ)
    → heap' b ≡ heap b
    → Agree heap heap' bs
    → All (IsApart heap b) bs
    → All (IsApart heap' b) bs
IsApart-Agree heap heap' b [] e h a = tt
IsApart-Agree heap heap' b (c ∷ bs) e (e', h) (p, a) =
    (rw (e, e') p, IsApart-Agree heap heap' b bs e h a)

pub AreApart-Agree :
    (heap heap' : ℕ → Block) (bs : List ℕ)
    → Agree heap heap' bs
    → AreApart heap bs
    → AreApart heap' bs
AreApart-Agree heap heap' [] h a = tt
AreApart-Agree heap heap' (b ∷ bs) (e, h) (r, p, a) =
    (rw e r, IsApart-Agree heap heap' b bs e h p, AreApart-Agree heap heap' bs h a)

-- A block that is not found in a list is none of the list.
pub set_base-Agree :
    (heap : ℕ → Block) (b base : ℕ) (bs : List ℕ)
    → block_find b bs ≡ false
    → Agree heap (set_base b base heap) bs
unfolding block_find
set_base-Agree heap b base [] h = tt
set_base-Agree heap b base (c ∷ bs) h =
    let other : (b == c) ≡ false = ground (arith, h) in
    (rw other refl, set_base-Agree heap b base bs (ground (arith, h)))

All-append :
    {A : Type 0} (P : A → Type 0) (xs : List A) (y : A) → All P xs → P y → All P (xs ++ (y ∷ []))
All-append P [] y h q = (q, tt)
All-append P (x ∷ xs) y (p, h) q = (p, All-append P xs y h q)

pub AreApart-append :
    (heap : ℕ → Block) (bs : List ℕ) (b : ℕ)
    → AreApart heap bs
    → InRange (heap b)
    → All (λ c. IsApart heap c b) bs
    → AreApart heap (bs ++ (b ∷ []))
AreApart-append heap [] b a r h = (r, tt, tt)
AreApart-append heap (c ∷ bs) b (rc, p, a) r (q, h) =
    (rc, All-append (IsApart heap c) bs b p q, AreApart-append heap bs b a r h)

overlaps_lem :
    (base n : ℕ) (blk : Block)
    → InRange blk
    → base + n ≤ base_none
    → overlaps base n blk ≡ false
    → (blk.base + blk.count ≤ base) ⊎ (base + n ≤ blk.base)
unfolding overlaps
overlaps_lem base n blk r fits o = ground arith

-- Where block_find and block_find_overlap find nothing, the new range is apart from each.
pub set_base-IsApart :
    (heap : ℕ → Block) (bs : List ℕ) (b base : ℕ)
    → base + (heap b).count ≤ base_none
    → AreApart heap bs
    → block_find b bs ≡ false
    → block_find_overlap heap bs b base ≡ none
    → All (λ c. IsApart (set_base b base heap) c b) bs
unfolding block_find block_find_overlap
set_base-IsApart heap [] b base fits a f o = tt
set_base-IsApart heap (c ∷ bs) b base fits (r, p, a) f o =
    let other : (c == b) ≡ false = ground (arith, f) in
    let other' : (b == c) ≡ false = ground (arith, f) in
    let here : (b == b) ≡ true = ground arith in
    let has_base : ((heap c).base == base_none) ≡ false = ground arith in
    let clear : overlaps base (heap b).count (heap c) ≡ false =
      ground (arith, o, other, has_base) in
    let rest : block_find_overlap heap bs b base ≡ none =
      ground (arith, o, other, has_base, clear) in
    let rest_found : block_find b bs ≡ false = ground (arith, f) in
    (
      (
        λ e. absurd (ground (arith, e, other)),
        rw (other', here) (overlaps_lem base (heap b).count (heap c) r fits clear),
      ),
      set_base-IsApart heap bs b base fits a rest_found rest,
    )

unlink-IsApart :
    (heap : ℕ → Block) (x b : ℕ) (bs : List ℕ)
    → All (IsApart heap x) bs
    → All (IsApart heap x) (unlink b bs)
unfolding unlink
unlink-IsApart heap x b [] a = tt
unlink-IsApart heap x b (c ∷ bs) (p, a) = elim (Bool-cases (c == b)) [
  | inl e ↦ rw e a
  | inr e ↦ rw e (p, unlink-IsApart heap x b bs a)
]

-- The block that is taken out is none of what is left.
pub unlink-found :
    (heap : ℕ → Block) (b : ℕ) (bs : List ℕ)
    → AreApart heap bs
    → (block_find b (unlink b bs) ≡ false) × AreApart heap (unlink b bs)
unfolding unlink block_find
unlink-found heap b [] a = (refl, tt)
unlink-found heap b (c ∷ bs) (r, p, a) = elim (Bool-cases (c == b)) [
  | inl e ↦ rw e (apart-found heap c b bs (ground arith) p, a)
  | inr e ↦
      let (f, rest) = unlink-found heap b bs a in
      rw e (rw (e, f) refl, (r, unlink-IsApart heap c b bs p, rest))
]
  where
    apart-found :
        (heap : ℕ → Block) (c b : ℕ) (bs : List ℕ)
        → c ≡ b
        → All (IsApart heap c) bs
        → block_find b bs ≡ false
    apart-found heap c b [] e h = refl
    apart-found heap c b (x ∷ bs) e (p, h) =
        let other : (x == b) ≡ false = ground (arith, p.0) in
        rw (other, apart-found heap c b bs e h) refl
