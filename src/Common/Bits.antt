-- ===== src/Common/Bits.antt =====
-- Laws of the binary operations at variables, by induction on the digits that they are defined by.
use Prim.Native.Nat.{
  ℕ, zero, suc, ◌+◌, ◌*◌, ◌/◌, ◌%◌, ◌^◌, ◌≤◌, ◌<◌, min, bit_and, bit_xor, digits, differ,
  bit_and-bitwise, bit_xor-bitwise,
}
use mathlib.Core.Path.{◌≡◌, refl, ap, ◌∙◌}
use native.Mathlib.Omega.{arith}

-- The number of `k` ones in binary.
abbrev pub ones : ℕ → ℕ
ones zero = 0
ones (suc k) = 2 * ones k + 1

abbrev and_digits : ℕ → ℕ → ℕ → ℕ
and_digits = digits (λ b. 0) min

abbrev xor_digits : ℕ → ℕ → ℕ → ℕ
xor_digits = digits (λ b. b) differ

-- The digits of `a` under a mask of `k` ones.
and_digits-ones : (k n a : ℕ) → a ≤ n → a ≤ ones k → and_digits n a (ones k) ≡ a
and_digits-ones k zero zero p q = refl
and_digits-ones k zero (suc a) p q = absurd (omega arith)
and_digits-ones k (suc n) zero p q = refl
and_digits-ones zero (suc n) (suc a) p q = absurd (omega arith)
and_digits-ones (suc k) (suc n) (suc a) p q =
    let half : (2 * ones k + 1) / 2 ≡ ones k = omega arith in
    rw half (omega (arith, and_digits-ones k n (suc a / 2) (omega arith) (omega arith)))

zero-and_digits : (n b : ℕ) → and_digits n 0 b ≡ 0
zero-and_digits zero b = refl
zero-and_digits (suc n) b = refl

-- More rounds than digits change nothing.
and_digits-suc : (n a b : ℕ) → a ≤ n → and_digits (suc n) a b ≡ and_digits n a b
and_digits-suc zero zero b p = refl
and_digits-suc zero (suc a) b p = absurd (omega arith)
and_digits-suc (suc n) zero b p = refl
and_digits-suc (suc n) (suc a) b p =
    ap (λ t. t * 2 + min (suc a % 2) (b % 2)) (and_digits-suc n (suc a / 2) (b / 2) (omega arith))

and_digits-double : (n a m : ℕ) → and_digits (suc n) a (2 * m) ≡ and_digits n (a / 2) m * 2
and_digits-double n zero m = omega (arith, zero-and_digits n m)
and_digits-double n (suc a) m =
    let half : (2 * m) / 2 ≡ m = omega arith in
    let even : (2 * m) % 2 ≡ 0 = omega arith in rw (half, even) (omega arith)

and_digits-zero : (n a : ℕ) → and_digits n a 0 ≡ 0
and_digits-zero zero a = refl
and_digits-zero (suc n) zero = refl
and_digits-zero (suc n) (suc a) = omega (arith, and_digits-zero n (suc a / 2))

and_digits-odd : (n a m : ℕ) → and_digits (suc n) a (2 * m + 1) ≡ and_digits n (a / 2) m * 2 + a % 2
and_digits-odd n zero m = omega (arith, zero-and_digits n m)
and_digits-odd n (suc a) m =
    let half : (2 * m + 1) / 2 ≡ m = omega arith in
    let odd : (2 * m + 1) % 2 ≡ 1 = omega arith in rw (half, odd) (omega arith)

-- Three zeros below the `k` ones clear the three lowest digits.
and_digits-eight :
    (k n a : ℕ)
    → a ≤ n
    → a / 2 / 2 / 2 ≤ ones k
    → and_digits n a (2 * (2 * (2 * ones k))) ≡ a / 2 / 2 / 2 * 2 * 2 * 2
and_digits-eight k n a p q = omega (
  arith,
  and_digits-suc n a (2 * (2 * (2 * ones k))) p,
  and_digits-suc (suc n) a (2 * (2 * (2 * ones k))) (omega arith),
  and_digits-suc (suc (suc n)) a (2 * (2 * (2 * ones k))) (omega arith),
  and_digits-double (suc (suc n)) a (2 * (2 * ones k)),
  and_digits-double (suc n) (a / 2) (2 * ones k),
  and_digits-double n (a / 2 / 2) (ones k),
  and_digits-ones k n (a / 2 / 2 / 2) (omega arith) q,
)

ones-and_digits : (k n a : ℕ) → ones k ≤ n → a ≤ ones k → and_digits n (ones k) a ≡ a
ones-and_digits zero n a p q = zero-and_digits n a ∙ omega arith
ones-and_digits (suc k) zero a p q = absurd (omega arith)
ones-and_digits (suc k) (suc n) a p q = omega (
  arith,
  ap (λ t. and_digits (suc n) t a) top,
  ap (λ t. and_digits n t (a / 2)) half,
  ones-and_digits k n (a / 2) (omega arith) (omega arith),
)
  where
    top : 2 * ones k + 1 ≡ suc (2 * ones k)
    top = omega arith

    half : suc (2 * ones k) / 2 ≡ ones k
    half = omega arith

and_digits-le : (n a b : ℕ) → and_digits n a b ≤ a
and_digits-le zero a b = omega arith
and_digits-le (suc n) zero b = omega arith
and_digits-le (suc n) (suc a) b = omega (arith, and_digits-le n (suc a / 2) (b / 2))

differ-le : (x y : ℕ) → x < 2 → y < 2 → differ x y ≤ 1
differ-le zero y p q = omega arith
differ-le (suc zero) zero p q = omega arith
differ-le (suc zero) (suc zero) p q = omega arith
differ-le (suc zero) (suc (suc y)) p q = absurd (omega arith)
differ-le (suc (suc x)) y p q = absurd (omega arith)

xor_digits-le : (k n a b : ℕ) → a ≤ ones k → b ≤ ones k → xor_digits n a b ≤ ones k
xor_digits-le k zero a b p q = q
xor_digits-le k (suc n) zero b p q = q
xor_digits-le zero (suc n) (suc a) b p q = absurd (omega arith)
xor_digits-le (suc k) (suc n) (suc a) b p q = omega (
  arith,
  xor_digits-le k n (suc a / 2) (b / 2) (omega arith) (omega arith),
  differ-le (suc a % 2) (b % 2) (omega arith) (omega arith),
)

-- The laws of the operations themselves.
pub bit_and-le : (a b : ℕ) → bit_and a b ≤ a
bit_and-le a b = rw bit_and-bitwise (and_digits-le a a b)

pub bit_xor-le : (k a b : ℕ) → a ≤ ones k → b ≤ ones k → bit_xor a b ≤ ones k
bit_xor-le k a b p q = rw bit_xor-bitwise (xor_digits-le k a a b p q)

pub bit_and-zero : (a : ℕ) → bit_and a 0 ≡ 0
bit_and-zero a = rw bit_and-bitwise (and_digits-zero a a)

-- An erased byte takes the value that is written to it.
pub erased-bit_and : (b : ℕ) → b < 256 → bit_and 255 b ≡ b
erased-bit_and b h = rw bit_and-bitwise (ones-and_digits 8 255 b (omega arith) (omega arith))

-- `x & ~7` for a 32-bit `x`.
pub bit_and-clear : (a : ℕ) → a < 2 ^ 32 → bit_and a 0xffff_fff8 ≡ a / 8 * 8
bit_and-clear a h =
    rw bit_and-bitwise (omega (arith, and_digits-eight 29 a a (omega arith) (omega arith)))

-- `x & 7`
pub bit_and_seven : (a : ℕ) → bit_and a 7 ≡ a % 8
bit_and_seven a = rw bit_and-bitwise (
    omega (
      arith,
      and_digits-suc a a 7 (omega arith),
      and_digits-suc (suc a) a 7 (omega arith),
      and_digits-suc (suc (suc a)) a 7 (omega arith),
      and_digits-odd (suc (suc a)) a 3,
      and_digits-odd (suc a) (a / 2) 1,
      and_digits-odd a (a / 2 / 2) 0,
      and_digits-zero a (a / 2 / 2 / 2),
    ))
