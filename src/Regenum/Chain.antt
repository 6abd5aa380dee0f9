-- ===== src/Regenum/Chain.antt =====
-- The list of regenum.c as a chain of objects, and what the walks along it find.
use qoraal_flash.Common.{
  ℕ, zero, suc, ◌<◌, ◌≡◌, ◌≢◌, refl, sym, ap, ◌∙◌, Bool, Option, none, some, List, [], ◌∷◌, ◌++◌,
  length, if◌then◌else◌, All, arith,
}
use qoraal_flash.Common.Run.{ok}
use qoraal_flash.Regenum.{EnumType, walk, find_tail, type_count}

-- From `cur` on, the `next` pointers lead through the objects of the list, and then to NULL.
abbrev pub Linked : (ℕ → EnumType) → Option ℕ → List ℕ → Type 0
Linked cell cur [] = cur ≡ none
Linked cell cur (a ∷ xs) = (cur ≡ some a) × Linked cell (cell a).next xs

abbrev pub Distinct : List ℕ → Type 0
Distinct [] = Unit
Distinct (x ∷ xs) = All (λ y. y ≢ x) xs × Distinct xs

-- The first object that passes the test.
abbrev pub first_such : (EnumType → Bool) → (ℕ → EnumType) → List ℕ → Option ℕ
first_such test cell [] = none
first_such test cell (a ∷ xs) = if test (cell a) then some a else first_such test cell xs

abbrev pub last_from : ℕ → List ℕ → ℕ
last_from x [] = x
last_from x (y ∷ ys) = last_from y ys

abbrev pub last_of : Option ℕ → List ℕ → Option ℕ
last_of t [] = t
last_of t (x ∷ xs) = last_of (some x) xs

-- With a round for every object and one more, a walk along a chain ends, at the first object of the
-- chain that passes the test.
pub walk_lem :
    (test : EnumType → Bool) (cell : ℕ → EnumType) (cur : Option ℕ) (xs : List ℕ) (n : ℕ)
    → Linked cell cur xs
    → length xs < n
    → walk test n cell cur ≡ ok (first_such test cell xs)
unfolding walk
walk_lem test cell cur xs zero l h = ground arith
walk_lem test cell cur [] (suc n) l h = rw l refl
walk_lem test cell cur (a ∷ xs) (suc n) l h =
    rw (l.0) (ground (arith, walk_lem test cell (cell a).next xs n l.1 (omega arith)))

pub find_tail_lem :
    (cell : ℕ → EnumType) (cur t : Option ℕ) (xs : List ℕ) (n : ℕ)
    → Linked cell cur xs
    → length xs < n
    → find_tail n cell cur t ≡ ok (last_of t xs)
unfolding find_tail
find_tail_lem cell cur t xs zero l h = ground arith
find_tail_lem cell cur t [] (suc n) l h = rw l refl
find_tail_lem cell cur t (a ∷ xs) (suc n) l h =
    rw (l.0) (find_tail_lem cell (cell a).next (some a) xs n l.1 (omega arith))

-- regenum_type_list_get counts the objects of the chain.
pub type_count_lem :
    (cell : ℕ → EnumType) (cur : Option ℕ) (xs : List ℕ) (n : ℕ)
    → Linked cell cur xs
    → length xs < n
    → type_count n cell cur ≡ ok (length xs)
unfolding type_count
type_count_lem cell cur xs zero l h = ground arith
type_count_lem cell cur [] (suc n) l h = rw l refl
type_count_lem cell cur (a ∷ xs) (suc n) l h =
    rw (l.0, type_count_lem cell (cell a).next xs n l.1 (omega arith)) refl

-- A chain depends on its own objects alone.
pub Linked-kept :
    (cell cell' : ℕ → EnumType) (cur : Option ℕ) (xs : List ℕ)
    → All (λ x. cell' x ≡ cell x) xs
    → Linked cell cur xs
    → Linked cell' cur xs
Linked-kept cell cell' cur [] same l = l
Linked-kept cell cell' cur (a ∷ xs) (e, same) (at, l) =
    (at, rw e (Linked-kept cell cell' (cell a).next xs same l))

pub last_of-some : (x : ℕ) (xs : List ℕ) → last_of (some x) xs ≡ some (last_from x xs)
last_of-some x [] = refl
last_of-some x (y ∷ ys) = last_of-some y ys

pub last_from-All : (P : ℕ → Type 0) (x : ℕ) (xs : List ℕ) → P x → All P xs → P (last_from x xs)
last_from-All P x [] h hs = h
last_from-All P x (y ∷ ys) h hs = last_from-All P y ys hs.0 hs.1

-- The last object is set to point to a new one.
pub Linked-append :
    (cell cell' : ℕ → EnumType) (x : ℕ) (xs : List ℕ) (a : ℕ)
    → Linked cell (some x) (x ∷ xs)
    → Distinct (x ∷ xs)
    → ((y : ℕ) → y ≢ last_from x xs → y ≢ a → cell' y ≡ cell y)
    → All (λ y. y ≢ a) (x ∷ xs)
    → (cell' (last_from x xs)).next ≡ some a
    → (cell' a).next ≡ none
    → Linked cell' (some x) (x ∷ (xs ++ (a ∷ [])))
Linked-append cell cell' x [] a l d same fresh to end = (refl, (to, end))
Linked-append cell cell' x (y ∷ ys) a (at, l) (dx, d) same (fx, fresh) to end =
    let after = Linked-append cell cell' y ys a (refl, l.1) d same fresh to end in
    let apart : x ≢ last_from y ys = λ e. last_from-All (λ z. z ≢ x) y ys dx.0 dx.1 (sym e) in
    (refl, (ap EnumType.next (same x apart fx) ∙ l.0, after.1))
