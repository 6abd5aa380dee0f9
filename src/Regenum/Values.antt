-- ===== src/Regenum/Values.antt =====
-- The values of one enum type: lookups by name, value and index, and the cycle of regenum_get_next
-- and regenum_get_prev.
use qoraal_flash.Common.{
  ℕ, zero, suc, ◌-◌, ◌<◌, ◌≡◌, refl, subst, ap, ◌∙◌, true, false, some, List, [], ◌∷◌, length, ◌==◌,
  if◌then◌else◌, All, arith, get_elem?,
}
use qoraal_flash.Common.Word.{ℤ, pos, negsuc}
use qoraal_flash.Common.Run.{ok}
use qoraal_flash.Regenum.{EnumValue, same_int, by_inx, position, value_at, next_value, prev_value}

same_int_refl : (v : ℤ) → same_int v v ≡ true
unfolding same_int
same_int_refl (pos n) = ground arith
same_int_refl (negsuc n) = ground arith

same_int_eq : (v w : ℤ) → same_int v w ≡ true → v ≡ w
unfolding same_int
same_int_eq (pos m) (pos n) h = ap pos (ground arith)
same_int_eq (negsuc m) (negsuc n) h = ap negsuc (ground arith)
same_int_eq (pos m) (negsuc n) h = cc
same_int_eq (negsuc m) (pos n) h = cc

-- No two entries of a type have the same value.
abbrev pub DistinctValues : List EnumValue → Type 0
DistinctValues [] = Unit
DistinctValues (v ∷ vs) = All (λ u. same_int v.value u.value ≡ false) vs × DistinctValues vs

All-get_elem? :
    {A : Type 0} (P : A → Type 0) (xs : List A) (i : ℕ) {a : A}
    → All P xs
    → get_elem? xs i ≡ some a
    → P a
All-get_elem? P [] i h e = cc
All-get_elem? P (x ∷ xs) zero {a} h e = let same : x ≡ a = cc in subst P same h.0
All-get_elem? P (x ∷ xs) (suc i) h e = All-get_elem? P xs i h.1 e

get_elem?-lt :
    {A : Type 0} (xs : List A) (i : ℕ) → i < length xs → (a : A) × (get_elem? xs i ≡ some a)
get_elem?-lt [] i h = ground arith
get_elem?-lt (x ∷ xs) zero h = (x, refl)
get_elem?-lt (x ∷ xs) (suc i) h = get_elem?-lt xs i (omega arith)

lt-get_elem? : {A : Type 0} (xs : List A) (i : ℕ) {a : A} → get_elem? xs i ≡ some a → i < length xs
lt-get_elem? [] i e = cc
lt-get_elem? (x ∷ xs) zero e = omega arith
lt-get_elem? (x ∷ xs) (suc i) e = omega (arith, lt-get_elem? xs i e)

-- The search for the value of the i-th entry stops at this entry.
position_lem :
    (vs : List EnumValue) (i : ℕ) {v : EnumValue}
    → DistinctValues vs
    → get_elem? vs i ≡ some v
    → position v.value vs ≡ i
unfolding position
position_lem [] i d e = cc
position_lem (u ∷ vs) zero {v} d e = let same : u ≡ v = cc in rw (same, same_int_refl v.value) refl
position_lem (u ∷ vs) (suc i) {v} (du, d) e =
    let differ : same_int u.value v.value ≡ false =
      All-get_elem? (λ w. same_int u.value w.value ≡ false) vs i du e in
    rw (differ, position_lem vs i d e) refl

-- Where the values of a type differ, regenum_get_next goes on to the entry behind the one with the
-- given value, and from the last entry to the first.
pub next_value_lem :
    (vs : List EnumValue) (i : ℕ) (v : EnumValue)
    → DistinctValues vs
    → get_elem? vs i ≡ some v
    → next_value v.value vs ≡ value_at vs (if suc i == length vs then 0 else suc i)
unfolding next_value
next_value_lem vs i v d e = ground (arith, position_lem vs i d e, lt-get_elem? vs i e)

pub prev_value_lem :
    (vs : List EnumValue) (i : ℕ) (v : EnumValue)
    → DistinctValues vs
    → get_elem? vs i ≡ some v
    → prev_value v.value vs ≡ value_at vs (if i == 0 then length vs - 1 else i - 1)
unfolding prev_value
prev_value_lem vs i v d e = ground (arith, position_lem vs i d e, lt-get_elem? vs i e)

value_at_lem :
    (vs : List EnumValue) (i : ℕ) (v : EnumValue)
    → get_elem? vs i ≡ some v
    → value_at vs i ≡ ok v.value
unfolding value_at by_inx
value_at_lem vs i v e = ground (arith, e)

-- Where the values of a type differ, regenum_get_next and regenum_get_prev are inverse to each other on
-- the values of the type: each of them succeeds, and the other leads back.
pub next-prev :
    (vs : List EnumValue) (i : ℕ) (v : EnumValue)
    → DistinctValues vs
    → get_elem? vs i ≡ some v
    → ((w : ℤ) × (next_value v.value vs ≡ ok w) × (prev_value w vs ≡ ok v.value))
      × ((w : ℤ) × (prev_value v.value vs ≡ ok w) × (next_value w vs ≡ ok v.value))
next-prev vs i v d e =
    let below = lt-get_elem? vs i e in
    let j = if suc i == length vs then 0 else suc i in
    let k = if i == 0 then length vs - 1 else i - 1 in
    let (after, at_j) = get_elem?-lt vs j (ground arith) in
    let (before, at_k) = get_elem?-lt vs k (ground arith) in
    let back : (if j == 0 then length vs - 1 else j - 1) ≡ i = ground arith in
    let forth : (if suc k == length vs then 0 else suc k) ≡ i = ground arith in
    (
      (
        after.value,
        next_value_lem vs i v d e ∙ value_at_lem vs j after at_j,
        prev_value_lem vs j after d at_j ∙ rw back (value_at_lem vs i v e),
      ),
      (
        before.value,
        prev_value_lem vs i v d e ∙ value_at_lem vs k before at_k,
        next_value_lem vs k before d at_k ∙ rw forth (value_at_lem vs i v e),
      ),
    )
