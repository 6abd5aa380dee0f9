-- ===== src/Nlog3/Crc.antt =====
-- The CRC-32 of nlog3.c: nlog3_crc32_begin, nlog3_crc32_update, nlog3_crc32_finish, nlog3_crc32.
pub mod Laws
use qoraal_flash.Common.{ℕ, zero, suc, ◌-◌, ◌/◌, ◌%◌, List, [], ◌∷◌, bit_and, bit_xor}
use qoraal_flash.Common.Word.{sub32, uint32_max}

abbrev pub crc32_poly : ℕ
crc32_poly = 0xEDB88320

abbrev pub crc32_begin : ℕ
crc32_begin = 0xFFFFFFFF

-- One round of the inner loop: the lowest bit selects the polynomial by a mask of ones.
unfoldable pub crc32_round : ℕ → ℕ
crc32_round crc = bit_xor (crc / 2) (bit_and crc32_poly (sub32 0 (crc % 2)))

unfoldable pub crc32_rounds : ℕ → ℕ → ℕ
crc32_rounds zero crc = crc
crc32_rounds (suc i) crc = crc32_rounds i (crc32_round crc)

unfoldable pub crc32_update : ℕ → List ℕ → ℕ
unfolding crc32_round crc32_rounds
crc32_update crc [] = crc
crc32_update crc (b ∷ bs) = crc32_update (crc32_rounds 8 (bit_xor crc b)) bs

-- `~crc` for 32 bits.
abbrev pub crc32_finish : ℕ → ℕ
crc32_finish crc = uint32_max - crc

unfoldable pub crc32 : List ℕ → ℕ
unfolding crc32_update
crc32 bs = crc32_finish (crc32_update crc32_begin bs)
