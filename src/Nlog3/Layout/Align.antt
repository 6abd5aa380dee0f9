-- ===== src/Nlog3/Layout/Align.antt =====
-- nlog3_align_up and nlog3_record_alloc_size in plain arithmetic.
use qoraal_flash.Common.{ℕ, ◌+◌, ◌*◌, ◌/◌, ◌%◌, ◌≤◌, ◌<◌, ◌≡◌, ◌⊎◌, Bool, true, false, arith}
use qoraal_flash.Common.Bits.{bit_and-clear}
use qoraal_flash.Common.Word.{u32_mod}
use qoraal_flash.Nlog3.Format.{record_header_size}
use qoraal_flash.Nlog3.Layout.{align_up, record_alloc_size}

-- The next multiple of 8, where it fits 32 bits.
pub align_up_lem : (v : ℕ) → v + 7 < u32_mod → align_up v ≡ (v + 7) / 8 * 8
unfolding align_up
align_up_lem v h = omega (arith, bit_and-clear ((v + 7) % u32_mod) (omega arith))

-- The space that a record takes is 0 exactly when its size cannot be rounded up within 32 bits;
-- otherwise it is the least multiple of 8 that holds the header and the payload.
pub record_alloc_size_lem :
    (crc : Bool) (size : ℕ)
    → (record_header_size crc + size + 7 < u32_mod)
        × (record_header_size crc + size ≤ record_alloc_size crc size)
        × (record_alloc_size crc size < record_header_size crc + size + 8)
        × (record_alloc_size crc size % 8 ≡ 0)
      ⊎ (u32_mod ≤ record_header_size crc + size + 7) × (record_alloc_size crc size ≡ 0)
unfolding record_alloc_size
record_alloc_size_lem true size = ground (arith, align_up_lem ((64 + size) % u32_mod))
record_alloc_size_lem false size = ground (arith, align_up_lem ((56 + size) % u32_mod))
