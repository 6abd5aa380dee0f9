-- ===== src/Nvol3/Slot/Frame.antt =====
-- The record in a slot depends on the bytes of the slot alone.
use qoraal_flash.Common.{
  ℕ, ◌+◌, ◌≤◌, ◌<◌, ◌≡◌, refl, ap, ◌∙◌, inl, inr, arith, ◌⊎◌, List, length, mul_room, sym, ◌==◌,
  Bool-cases,
}
use qoraal_flash.Common.Word.{sub32}
use qoraal_flash.Common.Run.{err, e_empty, ok, check, bind, check-cases}
use qoraal_flash.Flash.{Platform}
use qoraal_flash.Flash.Nor.{NorFlash, bytes_at, programmed}
use qoraal_flash.Flash.Nor.Ranges.{bytes_at-eq, programmed_outside, Erased}
use qoraal_flash.Nvol3.Volume.{Config, Head, Record, max_records, page_size}
use qoraal_flash.Nvol3.Slot.{head_of_bytes, head_status}
use qoraal_flash.Nvol3.Slot.Read.{Placed, record_at, slot_at, slot_room, head_status-eok}

-- The data behind a head that is checked.
data_at_eq :
    (cfg : Config) (c d : ℕ → ℕ) (a : ℕ) (h : Head)
    → ((n : ℕ) → n ≤ sub32 cfg.record_size 8 → bytes_at c (a + 8) n ≡ bytes_at d (a + 8) n)
    → bind {B = Record}
        (check (head_status cfg h) h)
        (λ h. ok (record { head = h; key_and_data = bytes_at c (a + 8) h.length }))
      ≡ bind {B = Record}
          (check (head_status cfg h) h)
          (λ h. ok (record { head = h; key_and_data = bytes_at d (a + 8) h.length }))
data_at_eq cfg c d a h same = elim (check-cases (head_status cfg h) h) [
  | inl fine ↦ rw (fine, same h.length (head_status-eok cfg h fine).0) refl
  | inr bad ↦ rw bad refl
]

pub record_at-eq :
    (cfg : Config) (c d : ℕ → ℕ) (a : ℕ)
    → 8 ≤ cfg.record_size
    → cfg.record_size < 65536
    → ((x : ℕ) → a ≤ x → x < a + cfg.record_size → c x ≡ d x)
    → record_at cfg c a ≡ record_at cfg d a
unfolding record_at
record_at-eq cfg c d a lo hi same =
    let heads = bytes_at-eq c d a 8 (λ x l h. same x l (omega arith)) in
    rw heads (
      data_at_eq cfg c d a (head_of_bytes (bytes_at d a 8))
        (λ n h. bytes_at-eq c d (a + 8) n (λ x l u. same x (omega arith) (omega arith))))

-- A slot lies apart from every other one.
slots_apart :
    (cfg : Config) (sector i j : ℕ)
    → (i < j) ⊎ (j < i)
    → (slot_at cfg sector i + cfg.record_size ≤ slot_at cfg sector j)
      ⊎ (slot_at cfg sector j + cfg.record_size ≤ slot_at cfg sector i)
slots_apart cfg sector i j (inl h) = inl (omega (arith, mul_room cfg.record_size i j h))
slots_apart cfg sector i j (inr h) = inr (omega (arith, mul_room cfg.record_size j i h))

-- A memory after a write of some bytes at the start of a slot.
pub record IsWrite (cfg : Config) (sector i : ℕ) (bytes : List ℕ) (c d : ℕ → ℕ) : Type 0 where
  pub within : length bytes ≤ cfg.record_size
  pub writes : d ≡ programmed c (slot_at cfg sector i) bytes

module _ {Store : Type 0} {p : Platform Store} {F : NorFlash p} {cfg : Config} {sector : ℕ}
    (pl : Placed F cfg sector) {i : ℕ} {bytes : List ℕ} {c d : ℕ → ℕ}
    (w : IsWrite cfg sector i bytes c d) where
  -- The other slots keep their bytes,
  pub IsWrite-other :
      (j x : ℕ)
      → (i < j) ⊎ (j < i)
      → slot_at cfg sector j ≤ x
      → x < slot_at cfg sector j + cfg.record_size
      → d x ≡ c x
  IsWrite-other j x differ lo hi =
      ap (λ m. m x) w.writes
      ∙ programmed_outside c (slot_at cfg sector i) bytes x
          (elim (slots_apart cfg sector i j differ) [
            | inl below ↦ inr (omega (arith, w.within, below, lo))
            | inr above ↦ inl (omega (arith, above, hi))
          ])

  -- and their records,
  pub record_at-other :
      (j : ℕ)
      → (i < j) ⊎ (j < i)
      → record_at cfg d (slot_at cfg sector j) ≡ record_at cfg c (slot_at cfg sector j)
  record_at-other j differ =
      record_at-eq cfg d c (slot_at cfg sector j) pl.head_fits pl.record_size_fits
        (λ x. IsWrite-other j x differ)

  -- and so does what is not in a slot.
  pub IsWrite-outside :
      i < max_records cfg
      → (x : ℕ) → (x < sector + page_size) ⊎ (sector + cfg.sector_size ≤ x)
      → d x ≡ c x
  IsWrite-outside h x (inl below) =
      ap (λ m. m x) w.writes
      ∙ programmed_outside c (slot_at cfg sector i) bytes x (inl (omega (arith, below)))
  IsWrite-outside h x (inr above) =
      ap (λ m. m x) w.writes
      ∙ programmed_outside c (slot_at cfg sector i) bytes x
          (inr (omega (arith, above, w.within, slot_room pl i h)))

  -- Where the written slot is not empty, empty slots are as erased as before.
  pub IsWrite-tidy :
      ¬ (record_at cfg d (slot_at cfg sector i) ≡ err e_empty)
      → ((j : ℕ)
          → j < max_records cfg
          → record_at cfg c (slot_at cfg sector j) ≡ err e_empty
          → Erased c (slot_at cfg sector j) cfg.record_size)
      → (j : ℕ) → j < max_records cfg
      → record_at cfg d (slot_at cfg sector j) ≡ err e_empty
      → Erased d (slot_at cfg sector j) cfg.record_size
  IsWrite-tidy full tidy j below e x lo hi = elim (Bool-cases (i == j)) [
    | inl same ↦
        let at : j ≡ i = ground arith in
        absurd (full (ap (λ k. record_at cfg d (slot_at cfg sector k)) (sym at) ∙ e))
    | inr apart ↦
        IsWrite-other j x (ground arith) lo hi
        ∙ tidy j below (sym (record_at-other j (ground arith)) ∙ e) x lo hi
  ]
