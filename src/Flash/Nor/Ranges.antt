-- ===== src/Flash/Nor/Ranges.antt =====
-- The bytes of a range after a write or an erase.
use qoraal_flash.Common.{
  ℕ, zero, suc, ◌+◌, ◌-◌, ◌≤◌, ◌<◌, ◌≡◌, refl, ap, ◌∙◌, ◌⊎◌, List, [], ◌∷◌, ◌++◌, arith, All, take,
  drop, bit_and, length,
}
use native.Mathlib.Nat.{zero-add, add-zero}
use mathlib.Core.Path.{fun_ext}
use qoraal_flash.Common.Bits.{erased-bit_and}
use qoraal_flash.Flash.Nor.{bytes_at, programmed}

-- Each byte anded with the one written over it.
unfoldable pub and_bytes : List ℕ → List ℕ → List ℕ
and_bytes [] bs = []
and_bytes (c ∷ cs) [] = c ∷ cs
and_bytes (c ∷ cs) (b ∷ bs) = bit_and c b ∷ and_bytes cs bs

pub length-bytes_at : (c : ℕ → ℕ) (a n : ℕ) → length (bytes_at c a n) ≡ n
unfolding bytes_at
length-bytes_at c a zero = refl
length-bytes_at c a (suc n) = ap suc (length-bytes_at c (suc a) n)

-- Two memories that agree on a range hold the same bytes there.
pub bytes_at-eq :
    (c d : ℕ → ℕ) (a n : ℕ)
    → ((x : ℕ) → a ≤ x → x < a + n → c x ≡ d x)
    → bytes_at c a n ≡ bytes_at d a n
unfolding bytes_at
bytes_at-eq c d a zero same = refl
bytes_at-eq c d a (suc n) same = cc (
  same a (omega arith) (omega arith),
  bytes_at-eq c d (suc a) n (λ x lo hi. same x (omega arith) (omega arith)),
)

pub bytes_at-append :
    (c : ℕ → ℕ) (a n m : ℕ) → bytes_at c a (n + m) ≡ bytes_at c a n ++ bytes_at c (a + n) m
unfolding bytes_at
bytes_at-append c a zero m = cc (zero-add m, add-zero a)
bytes_at-append c a (suc n) m =
    let sum : suc n + m ≡ suc (n + m) = omega arith in
    let start : a + suc n ≡ suc a + n = omega arith in
    rw (sum, start) (ap (λ bs. c a ∷ bs) (bytes_at-append c (suc a) n m))

-- The beginning and the end of a range.
pub take-bytes_at : (c : ℕ → ℕ) (a n m : ℕ) → take n (bytes_at c a (n + m)) ≡ bytes_at c a n
unfolding bytes_at
take-bytes_at c a zero m = refl
take-bytes_at c a (suc n) m =
    let sum : suc n + m ≡ suc (n + m) = omega arith in
    rw sum (ap (λ bs. c a ∷ bs) (take-bytes_at c (suc a) n m))

pub drop-bytes_at : (c : ℕ → ℕ) (a n m : ℕ) → drop n (bytes_at c a (n + m)) ≡ bytes_at c (a + n) m
unfolding bytes_at
drop-bytes_at c a zero m = cc (zero-add m, add-zero a)
drop-bytes_at c a (suc n) m =
    let sum : suc n + m ≡ suc (n + m) = omega arith in
    let start : a + suc n ≡ suc a + n = omega arith in rw (sum, start) (drop-bytes_at c (suc a) n m)

-- Erased bytes.
abbrev pub Erased : (ℕ → ℕ) → ℕ → ℕ → Type 0
Erased c a n = (x : ℕ) → a ≤ x → x < a + n → c x ≡ 255

programmed-tail :
    (c : ℕ → ℕ) (a b : ℕ) (bs : List ℕ) (x : ℕ)
    → suc a ≤ x
    → programmed c a (b ∷ bs) x ≡ programmed c (suc a) bs x
unfolding programmed
programmed-tail c a b bs x h =
    let step : x - a ≡ suc (x - suc a) = omega arith in rw step (ground arith)

programmed_head : (c : ℕ → ℕ) (a b : ℕ) (bs : List ℕ) → programmed c a (b ∷ bs) a ≡ bit_and (c a) b
unfolding programmed
programmed_head c a b bs = let start : a - a ≡ 0 = omega arith in rw start (ground arith)

-- A write changes a byte of its range to the conjunction with what is written.
pub bytes_at-programmed :
    (c : ℕ → ℕ) (a : ℕ) (bs : List ℕ)
    → bytes_at (programmed c a bs) a (length bs) ≡ and_bytes (bytes_at c a (length bs)) bs
unfolding bytes_at and_bytes
bytes_at-programmed c a [] = refl
bytes_at-programmed c a (b ∷ bs) = cc (
  programmed_head c a b bs,
  bytes_at-eq (programmed c a (b ∷ bs)) (programmed c (suc a) bs) (suc a) (length bs)
      (λ x lo hi. programmed-tail c a b bs x lo),
  bytes_at-programmed c (suc a) bs,
)

-- A write into erased bytes stores what is written.
pub bytes_at-programmed-Erased :
    (c : ℕ → ℕ) (a : ℕ) (bs : List ℕ)
    → Erased c a (length bs)
    → All (λ b. b < 256) bs
    → bytes_at (programmed c a bs) a (length bs) ≡ bs
unfolding bytes_at
bytes_at-programmed-Erased c a [] e h = refl
bytes_at-programmed-Erased c a (b ∷ bs) e (hb, hs) = cc (
  programmed_head c a b bs,
  e a (omega arith) (omega arith),
  erased-bit_and b hb,
  bytes_at-eq (programmed c a (b ∷ bs)) (programmed c (suc a) bs) (suc a) (length bs)
      (λ x lo hi. programmed-tail c a b bs x lo),
  bytes_at-programmed-Erased c (suc a) bs (λ x lo hi. e x (omega arith) (omega arith)) hs,
)

-- A write leaves every byte outside its range alone.
pub programmed_outside :
    (c : ℕ → ℕ) (a : ℕ) (bs : List ℕ) (x : ℕ)
    → (x < a) ⊎ (a + length bs ≤ x)
    → programmed c a bs x ≡ c x
unfolding programmed
programmed_outside c a bs x h = ground arith

-- A write of nothing.
pub programmed-nil : (c : ℕ → ℕ) (a : ℕ) → programmed c a [] ≡ c
programmed-nil c a = fun_ext λ x. programmed_outside c a [] x (ground arith)

-- A range that a write does not meet keeps its bytes.
pub bytes_at-programmed_apart :
    (c : ℕ → ℕ) (a : ℕ) (bs : List ℕ) (b n : ℕ)
    → (b + n ≤ a) ⊎ (a + length bs ≤ b)
    → bytes_at (programmed c a bs) b n ≡ bytes_at c b n
bytes_at-programmed_apart c a bs b n apart =
    bytes_at-eq (programmed c a bs) c b n (λ x lo hi. programmed_outside c a bs x (ground arith))

pub Erased-programmed_apart :
    (c : ℕ → ℕ) (a : ℕ) (bs : List ℕ) (b n : ℕ)
    → (b + n ≤ a) ⊎ (a + length bs ≤ b)
    → Erased c b n
    → Erased (programmed c a bs) b n
Erased-programmed_apart c a bs b n apart e x lo hi =
    programmed_outside c a bs x (ground arith) ∙ e x lo hi
