-- ===== src/Nvol3/Slot/Commit.antt =====
-- A record written to an erased slot: it counts once its flags are VALID, and not before.
use qoraal_flash.Common.{
  ℕ, suc, ◌+◌, ◌≤◌, ◌<◌, ◌≡◌, refl, sym, ap, subst, ◌∙◌, inl, inr, List, [], ◌∷◌, ◌++◌, arith,
  length, take, drop, All,
}
use qoraal_flash.Common.Run.{eok, e_unknown, ok, err, check, bind, check-cases}
use qoraal_flash.Flash.Nor.{bytes_at, programmed}
use qoraal_flash.Flash.Nor.Ranges.{
  Erased, and_bytes, take-bytes_at, drop-bytes_at, bytes_at-programmed, bytes_at-programmed-Erased,
  bytes_at-programmed_apart,
}
use qoraal_flash.Nvol3.Volume.{
  Config, Head, Record, u16, u16_bytes, head_bytes, record_valid, record_new,
}
use qoraal_flash.Nvol3.Slot.{head_of_bytes, head_status, flags_status, checksum_of}
use qoraal_flash.Nvol3.Slot.Read.{record_at}
use qoraal_flash.Nvol3.Slot.Write.{written, IsHead, head_of_bytes-head_bytes}
use qoraal_flash.Nvol3.Set.{stamped}

-- The record that `bytes` make under the given flags.
abbrev pub flagged : ℕ → List ℕ → Record
flagged flags bytes = record {
  head = record {
    flags = flags;
    length = length bytes;
    checksum = checksum_of (length bytes) bytes;
    reserved = 0xFFFF;
  };
  key_and_data = bytes;
}

-- The record that a committed write leaves.
abbrev pub committed : List ℕ → Record
committed = flagged record_valid

-- A buffer that record_set accepts: `length` counts it, and it fits into a slot.
pub record IsPayload (cfg : Config) (bytes : List ℕ) : Type 0 where
  pub is_bytes : All (λ b. b < 256) bytes
  pub fits : 8 + length bytes ≤ cfg.record_size
  pub has_key : cfg.key_size ≤ length bytes
  pub slot_fits : cfg.record_size < 65536

take-length : {A : Type 0} (xs : List A) → take (length xs) xs ≡ xs
take-length [] = refl
take-length (x ∷ xs) = ap (λ ys. x ∷ ys) (take-length xs)

-- The bytes of a slot with a head and data behind it.
record_at-bytes :
    (cfg : Config) (c : ℕ → ℕ) (a : ℕ) (h : Head) (bytes : List ℕ)
    → IsHead h
    → h.length ≡ length bytes
    → bytes_at c a (8 + length bytes) ≡ head_bytes h ++ bytes
    → record_at cfg c a
      ≡ bind (check (head_status cfg h) h) (λ h'. ok (record { head = h'; key_and_data = bytes }))
unfolding record_at head_bytes u16_bytes
record_at-bytes cfg c a h bytes fits same inside =
    let head_read : bytes_at c a 8 ≡ head_bytes h =
      sym (take-bytes_at c a 8 (length bytes)) ∙ ap (take 8) inside in
    let data_read : bytes_at c (a + 8) h.length ≡ bytes =
      ap (bytes_at c (a + 8)) same
      ∙ sym (drop-bytes_at c a 8 (length bytes))
      ∙ ap (drop 8) inside in
    let head_eq : head_of_bytes (bytes_at c a 8) ≡ h =
      ap head_of_bytes head_read ∙ head_of_bytes-head_bytes h [] fits in
    rw head_eq (elim (check-cases (head_status cfg h) h) [
      | inl fine ↦ rw (fine, data_read) refl
      | inr bad ↦ rw bad refl
    ])

-- The flags VALID over the flags NEW.
bytes_at-valid :
    (c : ℕ → ℕ) (a m : ℕ) (xs : List ℕ)
    → bytes_at c a (suc (suc m)) ≡ 255 ∷ 175 ∷ xs
    → bytes_at (programmed c a (u16_bytes record_valid)) a (suc (suc m)) ≡ 175 ∷ 170 ∷ xs
unfolding bytes_at and_bytes u16_bytes
bytes_at-valid c a m xs before = cc (
  bytes_at-programmed c a (175 ∷ 170 ∷ []),
  before,
  bytes_at-programmed_apart c a (175 ∷ 170 ∷ []) (suc (suc a)) m (inr (omega arith)),
)

module _ (cfg : Config) (c : ℕ → ℕ) (a : ℕ) (bytes : List ℕ) (pay : IsPayload cfg bytes) where
  written-stamped :
      written (stamped (length bytes) bytes) ≡ head_bytes (flagged record_new bytes).head ++ bytes
  unfolding stamped
  written-stamped =
      let small : u16 (length bytes) ≡ length bytes = omega (arith, pay.fits, pay.slot_fits) in
      rw (small, take-length bytes) refl

  pub length-written-stamped : length (written (stamped (length bytes) bytes)) ≤ cfg.record_size
  unfolding head_bytes u16_bytes
  length-written-stamped = omega (arith, ap length written-stamped, pay.fits)

  slot_bytes :
      Erased c a cfg.record_size
      → bytes_at (programmed c a (written (stamped (length bytes) bytes))) a (8 + length bytes)
        ≡ head_bytes (flagged record_new bytes).head ++ bytes
  unfolding stamped head_bytes u16_bytes checksum_of
  slot_bytes blank =
      let eight : 8 + length bytes ≡ suc (suc (suc (suc (suc (suc (suc (suc (length bytes)))))))) =
        omega arith in
      rw (written-stamped, eight)
        (bytes_at-programmed-Erased c a (head_bytes (flagged record_new bytes).head ++ bytes)
          (λ x lo hi. blank x lo (omega (arith, pay.fits, hi)))
          (
            omega arith,
            (
              omega arith,
              (
                omega arith,
                (
                  omega arith,
                  (omega arith, (omega arith, (omega arith, (omega arith, pay.is_bytes)))),
                ),
              ),
            ),
          ))

  committed-bytes :
      Erased c a cfg.record_size
      → bytes_at
          (programmed
            (programmed c a (written (stamped (length bytes) bytes)))
            a
            (u16_bytes record_valid))
          a
          (8 + length bytes)
        ≡ head_bytes (committed bytes).head ++ bytes
  unfolding stamped head_bytes u16_bytes checksum_of
  committed-bytes blank =
      let eight : 8 + length bytes ≡ suc (suc (6 + length bytes)) = omega arith in
      let c1 = programmed c a (written (stamped (length bytes) bytes)) in
      let before =
        subst (λ m. bytes_at c1 a m ≡ head_bytes (flagged record_new bytes).head ++ bytes) eight
          (slot_bytes blank) in
      rw eight (
        bytes_at-valid c1 a (6 + length bytes)
          (drop 2 (head_bytes (flagged record_new bytes).head ++ bytes)) before)

  flagged-IsHead : (flags : ℕ) → flags < 65536 → IsHead (flagged flags bytes).head
  unfolding checksum_of
  flagged-IsHead flags h = record {
    flags_fit = h;
    length_fits = omega (arith, pay.fits, pay.slot_fits);
    checksum_fits = omega arith;
    reserved_fits = omega arith;
  }

  -- A record that is written but not committed is not read.
  pub record_at-written :
      Erased c a cfg.record_size
      → record_at cfg (programmed c a (written (stamped (length bytes) bytes))) a ≡ err e_unknown
  unfolding head_status flags_status
  record_at-written blank =
      record_at-bytes cfg (programmed c a (written (stamped (length bytes) bytes))) a
        (flagged record_new bytes).head bytes (flagged-IsHead record_new (omega arith)) refl
        (slot_bytes blank)

  committed-eok : head_status cfg (committed bytes).head ≡ eok
  unfolding head_status flags_status
  committed-eok = ground (arith, pay.fits, pay.slot_fits, pay.has_key)

  pub record_at-committed :
      Erased c a cfg.record_size
      → record_at cfg
          (programmed
            (programmed c a (written (stamped (length bytes) bytes)))
            a
            (u16_bytes record_valid))
          a
        ≡ ok (committed bytes)
  record_at-committed blank =
      record_at-bytes cfg
        (programmed (programmed c a (written (stamped (length bytes) bytes))) a
          (u16_bytes record_valid))
        a (committed bytes).head bytes (flagged-IsHead record_valid (omega arith)) refl
        (committed-bytes blank)
      ∙ rw committed-eok refl
