-- ===== src/Nlog3/Crc/Laws.antt =====
-- The CRC of a sequence of chunks is the CRC of the whole, and it is a 32-bit word.
use qoraal_flash.Common.{
  ℕ, zero, suc, ◌/◌, ◌%◌, ◌≤◌, ◌<◌, ◌≡◌, refl, List, [], ◌∷◌, ◌++◌, arith, All, bit_and, bit_xor,
}
use qoraal_flash.Common.Bits.{bit_and-le, bit_xor-le}
use qoraal_flash.Common.Word.{IsWord, sub32, uint32_max}
use qoraal_flash.Nlog3.Crc.{crc32, crc32_update, crc32_round, crc32_rounds, crc32_poly}

-- The update over a whole is the updates over its parts, one after the other.
pub crc32_update-append :
    (crc : ℕ) (xs ys : List ℕ) → crc32_update crc (xs ++ ys) ≡ crc32_update (crc32_update crc xs) ys
unfolding crc32_update
crc32_update-append crc [] ys = refl
crc32_update-append crc (x ∷ xs) ys = crc32_update-append (crc32_rounds 8 (bit_xor crc x)) xs ys

crc32_round-le : (crc : ℕ) → crc ≤ uint32_max → crc32_round crc ≤ uint32_max
unfolding crc32_round
crc32_round-le crc h =
    bit_xor-le 32 (crc / 2) (bit_and crc32_poly (sub32 0 (crc % 2))) (omega arith)
      (omega (arith, bit_and-le crc32_poly (sub32 0 (crc % 2))))

crc32_rounds-le : (i crc : ℕ) → crc ≤ uint32_max → crc32_rounds i crc ≤ uint32_max
unfolding crc32_rounds
crc32_rounds-le zero crc h = h
crc32_rounds-le (suc i) crc h = crc32_rounds-le i (crc32_round crc) (crc32_round-le crc h)

crc32_update-le :
    (crc : ℕ) (bs : List ℕ)
    → crc ≤ uint32_max
    → All (λ b. b < 256) bs
    → crc32_update crc bs ≤ uint32_max
unfolding crc32_update
crc32_update-le crc [] h k = h
crc32_update-le crc (b ∷ bs) h (kb, ks) =
    crc32_update-le (crc32_rounds 8 (bit_xor crc b)) bs
      (crc32_rounds-le 8 (bit_xor crc b) (bit_xor-le 32 crc b h (omega arith))) ks

pub crc32-IsWord : (bs : List ℕ) → IsWord (crc32 bs)
unfolding crc32
crc32-IsWord bs = omega arith
