-- ===== src/Tallies/Counters.antt =====
-- The counters of the registered blocks: the rounds of the loops visit each of them once, and no two
-- have the same id.
use qoraal_flash.Common.{
  ℕ, zero, suc, ◌+◌, ◌≤◌, ◌<◌, ◌≡◌, refl, sym, ap, subst, ◌⊎◌, inl, inr, true, false, List, [], ◌∷◌,
  ◌++◌, ◌==◌, ◌&&◌, All, arith, Bool-cases, if◌then◌else◌,
}
use qoraal_flash.Tallies.{Block, base_none, locals, rounds}
use qoraal_flash.Tallies.Register.{block_find}
use qoraal_flash.Tallies.Register.Apart.{InRange, IsApart, AreApart}

-- An entry of a registered block.
abbrev pub IsCounter : (ℕ → Block) → List ℕ → ℕ × ℕ → Type 0
IsCounter heap bs c = (block_find c.0 bs ≡ true) × (c.1 < (heap c.0).count)

-- The places of a list.
abbrev pub IsIn : ℕ × ℕ → List (ℕ × ℕ) → Type 0
IsIn c [] = ⊥
IsIn c (d ∷ ds) = (c ≡ d) ⊎ IsIn c ds

abbrev pub AreDistinct : List (ℕ × ℕ) → Type 0
AreDistinct [] = Unit
AreDistinct (c ∷ cs) = ¬ IsIn c cs × AreDistinct cs

abbrev id : (ℕ → Block) → ℕ × ℕ → ℕ
id heap c = (heap c.0).base + c.1

registered_range :
    (heap : ℕ → Block) (bs : List ℕ) (b : ℕ)
    → AreApart heap bs
    → block_find b bs ≡ true
    → InRange (heap b)
unfolding block_find
registered_range heap [] b a f = cc
registered_range heap (c ∷ bs) b (r, p, a) f = elim (Bool-cases (c == b)) [
  | inl e ↦ let same : c ≡ b = ground (arith, e) in rw (← same) r
  | inr e ↦ registered_range heap bs b a (ground (arith, e, f))
]

pub counter_id :
    (heap : ℕ → Block) (bs : List ℕ) (c : ℕ × ℕ)
    → AreApart heap bs
    → IsCounter heap bs c
    → id heap c < base_none
counter_id heap bs c a (f, l) = omega (arith, registered_range heap bs c.0 a f)

found-IsApart :
    (heap : ℕ → Block) (x : ℕ) (bs : List ℕ) (b : ℕ)
    → All (IsApart heap x) bs
    → block_find b bs ≡ true
    → IsApart heap x b
unfolding block_find
found-IsApart heap x [] b a f = cc
found-IsApart heap x (c ∷ bs) b (p, a) f = elim (Bool-cases (c == b)) [
  | inl e ↦ let same : c ≡ b = ground (arith, e) in rw (← same) p
  | inr e ↦ found-IsApart heap x bs b a (ground (arith, e, f))
]

-- The ids of two blocks differ.
blocks_differ :
    (heap : ℕ → Block) (bs : List ℕ) (b c l m : ℕ)
    → AreApart heap bs
    → IsCounter heap bs (b, l)
    → IsCounter heap bs (c, m)
    → id heap (b, l) ≡ id heap (c, m)
    → b ≡ c
unfolding block_find
blocks_differ heap [] b c l m a (f, i) (g, j) e = cc
blocks_differ heap (x ∷ bs) b c l m (r, p, a) (f, i) (g, j) e = elim (Bool-cases (x == b)) [
  | inl xb ↦ elim (Bool-cases (x == c)) [
    | inl xc ↦ ground (arith, xb, xc)
    | inr xc ↦
        let q = found-IsApart heap x bs c p (ground (arith, xc, g)) in
        let same : x ≡ b = ground (arith, xb) in absurd (ground (arith, ap heap same, q.1))
  ]
  | inr xb ↦ elim (Bool-cases (x == c)) [
    | inl xc ↦
        let q = found-IsApart heap x bs b p (ground (arith, xb, f)) in
        let same : x ≡ c = ground (arith, xc) in absurd (ground (arith, ap heap same, q.1))
    | inr xc ↦
        blocks_differ heap bs b c l m a (ground (arith, xb, f), i) (ground (arith, xc, g), j) e
  ]
]

-- Counters of the same id are the same.
pub counter_unique :
    (heap : ℕ → Block) (bs : List ℕ) (b c l m : ℕ)
    → AreApart heap bs
    → IsCounter heap bs (b, l)
    → IsCounter heap bs (c, m)
    → id heap (b, l) ≡ id heap (c, m)
    → (b ≡ c) × (l ≡ m)
counter_unique heap bs b c l m a x y e =
    let same : b ≡ c = blocks_differ heap bs b c l m a x y e in
    (same, omega (arith, e, ap (λ z. (heap z).base) same))

locals-IsIn : (b l n m : ℕ) → l ≤ m → m < l + n → IsIn (b, m) (locals b l n)
unfolding locals
locals-IsIn b l zero m lo hi = absurd (omega arith)
locals-IsIn b l (suc n) m lo hi = elim (Bool-cases (l == m)) [
  | inl e ↦ let same : m ≡ l = ground (arith, e) in inl (ap (λ z. (b, z)) same)
  | inr e ↦ inr (locals-IsIn b (suc l) n m (ground (arith, e)) (omega arith))
]

of_locals : (b l n : ℕ) (c : ℕ × ℕ) → IsIn c (locals b l n) → (c.0 ≡ b) × (l ≤ c.1) × (c.1 < l + n)
unfolding locals
of_locals b l zero c h = absurd h
of_locals b l (suc n) c (inl e) =
    let first : c.0 ≡ b = ap (λ z. z.0) e in
    let second : c.1 ≡ l = ap (λ z. z.1) e in (first, omega arith, omega arith)
of_locals b l (suc n) c (inr h) =
    let (e, lo, hi) = of_locals b (suc l) n c h in (e, omega arith, omega arith)

append-IsIn : (c : ℕ × ℕ) (xs ys : List (ℕ × ℕ)) → IsIn c xs ⊎ IsIn c ys → IsIn c (xs ++ ys)
append-IsIn c [] ys (inl h) = absurd h
append-IsIn c [] ys (inr h) = h
append-IsIn c (x ∷ xs) ys (inl (inl e)) = inl e
append-IsIn c (x ∷ xs) ys (inl (inr h)) = inr (append-IsIn c xs ys (inl h))
append-IsIn c (x ∷ xs) ys (inr h) = inr (append-IsIn c xs ys (inr h))

of_append : (c : ℕ × ℕ) (xs ys : List (ℕ × ℕ)) → IsIn c (xs ++ ys) → IsIn c xs ⊎ IsIn c ys
of_append c [] ys h = inr h
of_append c (x ∷ xs) ys (inl e) = inl (inl e)
of_append c (x ∷ xs) ys (inr h) = elim (of_append c xs ys h) [ inl i ↦ inl (inr i) | inr i ↦ inr i ]

has_base : (heap : ℕ → Block) (b : ℕ) → InRange (heap b) → ((heap b).base == base_none) ≡ false
has_base heap b r = ground arith

-- The loops visit every counter.
pub rounds-IsIn :
    (heap : ℕ → Block) (bs : List ℕ) (c : ℕ × ℕ)
    → AreApart heap bs
    → IsCounter heap bs c
    → IsIn c (rounds heap bs)
unfolding rounds block_find
rounds-IsIn heap [] c a (f, l) = cc
rounds-IsIn heap (b ∷ bs) c (r, p, a) (f, l) = rw (has_base heap b r) (
    append-IsIn c (locals b 0 (heap b).count) (rounds heap bs) (elim (Bool-cases (b == c.0)) [
      | inl e ↦
          let same : c.0 ≡ b = ground (arith, e) in
          let below : c.1 < (heap b).count = rw (← same) l in
          inl (
            subst (λ z. IsIn (z, c.1) (locals b 0 (heap b).count)) (sym same)
              (locals-IsIn b 0 (heap b).count c.1 (omega arith) (omega arith)))
      | inr e ↦ inr (rounds-IsIn heap bs c a (ground (arith, e, f), l))
    ]))

-- The loops visit nothing else.
pub of_rounds :
    (heap : ℕ → Block) (bs : List ℕ) (c : ℕ × ℕ)
    → AreApart heap bs
    → IsIn c (rounds heap bs)
    → IsCounter heap bs c
unfolding rounds block_find
of_rounds heap [] c a h = absurd h
of_rounds heap (b ∷ bs) c (r, p, a) h =
    let both : IsIn c (locals b 0 (heap b).count ++ rounds heap bs) =
      subst
        (λ x. IsIn c (if x then rounds heap bs else locals b 0 (heap b).count ++ rounds heap bs))
        (has_base heap b r) h in
    elim (of_append c (locals b 0 (heap b).count) (rounds heap bs) both) [
      | inl i ↦
          let (e, lo, hi) = of_locals b 0 (heap b).count c i in
          let here : (b == c.0) ≡ true = ground (arith, e) in (rw here refl, rw e (omega arith))
      | inr i ↦
          let (f, l) = of_rounds heap bs c a i in
          elim (Bool-cases (b == c.0)) [ inl e ↦ (rw e refl, l) | inr e ↦ (rw (e, f) refl, l) ]
    ]

locals-AreDistinct : (b l n : ℕ) → AreDistinct (locals b l n)
unfolding locals
locals-AreDistinct b l zero = tt
locals-AreDistinct b l (suc n) = (
  λ h. let late = of_locals b (suc l) n (b, l) h in absurd (omega (arith, late.1)),
  locals-AreDistinct b (suc l) n,
)

append-AreDistinct :
    (xs ys : List (ℕ × ℕ))
    → AreDistinct xs
    → AreDistinct ys
    → ((c : ℕ × ℕ) → IsIn c xs → ¬ IsIn c ys)
    → AreDistinct (xs ++ ys)
append-AreDistinct [] ys h k apart = k
append-AreDistinct (x ∷ xs) ys (new, h) k apart = (
  λ i. elim (of_append x xs ys i) [
    | inl j ↦ absurd (new j)
    | inr j ↦ absurd (apart x (inl refl) j)
  ],
  append-AreDistinct xs ys h k (λ c i. apart c (inr i)),
)

-- They visit no counter twice.
pub rounds-AreDistinct :
    (heap : ℕ → Block) (bs : List ℕ) → AreApart heap bs → AreDistinct (rounds heap bs)
unfolding rounds
rounds-AreDistinct heap [] a = tt
rounds-AreDistinct heap (b ∷ bs) (r, p, a) = rw (has_base heap b r) (
    append-AreDistinct (locals b 0 (heap b).count) (rounds heap bs)
      (locals-AreDistinct b 0 (heap b).count) (rounds-AreDistinct heap bs a)
      (λ c i j.
        let here = of_locals b 0 (heap b).count c i in
        let there = of_rounds heap bs c a j in
        absurd ((found-IsApart heap b bs c.0 p there.0).0 (sym here.0))))

-- The same place of two arrays.
pub same_place : (b l c m : ℕ) → ((b == c) && (l == m)) ≡ true → (c ≡ b) × (m ≡ l)
same_place b l c m e = (ground (arith, e), ground (arith, e))

pub not_place : (b l : ℕ) (c : ℕ × ℕ) → ¬ IsIn c ((b, l) ∷ []) → ((b == c.0) && (l == c.1)) ≡ false
not_place b l c h = elim (Bool-cases ((b == c.0) && (l == c.1))) [
  | inr e ↦ e
  | inl e ↦ let (x, y) = same_place b l c.0 c.1 e in absurd (h (inl (cc (x, y))))
]

pub IsIn-cons : (c : ℕ × ℕ) (cs : List (ℕ × ℕ)) (d : ℕ × ℕ) → IsIn d (c ∷ []) → IsIn d (c ∷ cs)
IsIn-cons c cs d (inl e) = inl e
IsIn-cons c cs d (inr h) = absurd h
