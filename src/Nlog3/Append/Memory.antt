-- ===== src/Nlog3/Append/Memory.antt =====
-- The memory after each of the writes that nlog3_append makes for one record.
use qoraal_flash.Common.{
  ℕ, ◌+◌, ◌≤◌, ◌<◌, ◌≡◌, ap, ◌∙◌, ◌⊎◌, inl, inr, List, ◌++◌, arith, All, length,
}
use qoraal_flash.Common.Word.{u32_bytes}
use qoraal_flash.Flash.Nor.{bytes_at, programmed}
use qoraal_flash.Flash.Nor.Ranges.{
  Erased, and_bytes, bytes_at-append, bytes_at-programmed, bytes_at-programmed-Erased,
  bytes_at-programmed_apart, Erased-programmed_apart, programmed_outside,
}
use qoraal_flash.Nlog3.Format.{state_pending, state_valid}

-- The header's bytes behind its state word are `rest`, and `payload` follows them.
module _ (c : ℕ → ℕ) (a : ℕ) (rest payload : List ℕ) where
  abbrev pub marked : ℕ → ℕ
  marked = programmed c a (u32_bytes state_pending)

  abbrev pub described : ℕ → ℕ
  described = programmed marked (a + 4) rest

  abbrev pub filled : ℕ → ℕ
  filled = programmed described (a + 4 + length rest) payload

  abbrev pub committed : ℕ → ℕ
  committed = programmed filled a (u32_bytes state_valid)

  module _ (erased : Erased c a (4 + length rest + length payload))
      (rest_bytes : All (λ b. b < 256) rest) (payload_bytes : All (λ b. b < 256) payload) where
    pub state-marked : bytes_at marked a 4 ≡ u32_bytes state_pending
    state-marked =
        bytes_at-programmed-Erased c a (u32_bytes state_pending)
          (λ x lo hi. erased x lo (omega arith)) (omega arith)

    pub state-described : bytes_at described a 4 ≡ u32_bytes state_pending
    state-described =
        bytes_at-programmed_apart marked (a + 4) rest a 4 (inl (omega arith)) ∙ state-marked

    pub state-filled : bytes_at filled a 4 ≡ u32_bytes state_pending
    state-filled =
        bytes_at-programmed_apart described (a + 4 + length rest) payload a 4 (inl (omega arith))
        ∙ state-described

    pub state-committed : bytes_at committed a 4 ≡ u32_bytes state_valid
    unfolding and_bytes
    state-committed =
        bytes_at-programmed filled a (u32_bytes state_valid)
        ∙ ap (λ bs. and_bytes bs (u32_bytes state_valid)) state-filled

    rest-committed : bytes_at committed (a + 4) (length rest) ≡ rest
    rest-committed =
        bytes_at-programmed_apart filled a (u32_bytes state_valid) (a + 4) (length rest)
          (inr (omega arith))
        ∙ bytes_at-programmed_apart described (a + 4 + length rest) payload (a + 4) (length rest)
            (inl (omega arith))
        ∙ bytes_at-programmed-Erased marked (a + 4) rest
            (Erased-programmed_apart c a (u32_bytes state_pending) (a + 4) (length rest)
              (inr (omega arith)) (λ x lo hi. erased x (omega arith) (omega arith)))
            rest_bytes

    -- The header as it stands in memory once the record is committed.
    pub header-committed : bytes_at committed a (4 + length rest) ≡ u32_bytes state_valid ++ rest
    header-committed =
        bytes_at-append committed a 4 (length rest) ∙ cc (state-committed, rest-committed)

    pub payload-committed : bytes_at committed (a + 4 + length rest) (length payload) ≡ payload
    payload-committed =
        bytes_at-programmed_apart filled a (u32_bytes state_valid) (a + 4 + length rest)
          (length payload) (inr (omega arith))
        ∙ bytes_at-programmed-Erased described (a + 4 + length rest) payload
            (Erased-programmed_apart marked (a + 4) rest (a + 4 + length rest) (length payload)
              (inr (omega arith))
              (Erased-programmed_apart c a (u32_bytes state_pending) (a + 4 + length rest)
                (length payload) (inr (omega arith))
                (λ x lo hi. erased x (omega arith) (omega arith))))
            payload_bytes

  -- All four writes stay within the record.
  pub committed_outside :
      (x : ℕ) → (x < a) ⊎ (a + 4 + length rest + length payload ≤ x) → committed x ≡ c x
  committed_outside x out =
      programmed_outside filled a (u32_bytes state_valid) x (ground arith)
      ∙ programmed_outside described (a + 4 + length rest) payload x (ground arith)
      ∙ programmed_outside marked (a + 4) rest x (ground arith)
      ∙ programmed_outside c a (u32_bytes state_pending) x (ground arith)
