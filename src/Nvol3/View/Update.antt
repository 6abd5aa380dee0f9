-- ===== src/Nvol3/View/Update.antt =====
-- The view of a sector after one of its slots has changed.
use qoraal_flash.Common.{
  ℕ, zero, suc, ◌<◌, ◌≡◌, refl, sym, ap, subst, ◌∙◌, ◌⊎◌, inl, inr, false, Option, none, some,
  arith, ◌==◌, Bool-cases,
}
use qoraal_flash.Flash.{Platform}
use qoraal_flash.Nvol3.Dictionary.{same_key, Dictionary, Key}
use qoraal_flash.Nvol3.Volume.{Config, Record}
use qoraal_flash.Nvol3.Slot.Read.{record_at, slot_at}
use qoraal_flash.Nvol3.Table.{key_of}
use qoraal_flash.Nvol3.View.{same_key_refl, live, newest, prefer}

module _ {Store : Type 0} (p : Platform Store) (D : Dictionary) (cfg : Config) (sector : ℕ) where
  -- The record that counts in slot `i`.
  abbrev pub live_at : (ℕ → ℕ) → ℕ → Option Record
  live_at c i = live p D cfg (record_at cfg c (slot_at cfg sector i))

  -- No record, or one with another key.
  abbrev pub IsOther : Key → Option Record → Type 0
  IsOther k o = (rec : Record) → o ≡ some rec → same_key (key_of D cfg rec) k ≡ false

  pub none-IsOther : (k : Key) (o : Option Record) → o ≡ none → IsOther k o
  none-IsOther k o nothing rec h = cc (h, nothing)

  prefer-other :
      (n : ℕ) (k : Key) (o : Option Record) (rest : Option (ℕ × Record))
      → IsOther k o
      → prefer p D cfg n k o rest ≡ rest
  unfolding prefer
  prefer-other n k none rest h = refl
  prefer-other n k (some rec) rest h = rw (h rec refl) refl

  -- A slot that changes from a record with another key, or none, to such a record does not show.
  pub newest-other :
      (c d : ℕ → ℕ) (j n : ℕ) (k : Key)
      → ((i : ℕ) → i < n → (j < i) ⊎ (i < j) → live_at d i ≡ live_at c i)
      → IsOther k (live_at d j)
      → IsOther k (live_at c j)
      → newest p D cfg d sector n k ≡ newest p D cfg c sector n k
  unfolding newest
  newest-other c d j zero k same od oc = refl
  newest-other c d j (suc n) k same od oc = elim (Bool-cases (n == j)) [
    | inl at ↦
        let here : j ≡ n = ground arith in
        prefer-other n k (live_at d n) (newest p D cfg d sector n k)
          (subst (λ x. IsOther k (live_at d x)) here od)
        ∙ newest-other c d j n k (λ i h. same i (omega arith)) od oc
        ∙ sym (
            prefer-other n k (live_at c n) (newest p D cfg c sector n k)
              (subst (λ x. IsOther k (live_at c x)) here oc))
    | inr apart ↦ cc (
      same n (omega arith) (ground arith),
      newest-other c d j n k (λ i h. same i (omega arith)) od oc,
    )
  ]

  -- The last record that counts is found under its key.
  pub newest-top :
      (c : ℕ → ℕ) (m n : ℕ) (rec : Record)
      → m < n
      → live_at c m ≡ some rec
      → ((i : ℕ) → m < i → i < n → live_at c i ≡ none)
      → newest p D cfg c sector n (key_of D cfg rec) ≡ some (m, rec)
  unfolding newest prefer
  newest-top c m zero rec low found behind = absurd (omega arith)
  newest-top c m (suc n) rec low found behind = elim (Bool-cases (m == n)) [
    | inl at ↦
        let here : m ≡ n = ground arith in
        ap
          (λ o.
            prefer p D cfg n (key_of D cfg rec) o (newest p D cfg c sector n (key_of D cfg rec)))
          (subst (λ x. live_at c x ≡ some rec) here found)
        ∙ rw (same_key_refl (key_of D cfg rec)) (ap (λ x. some (x, rec)) (sym here))
    | inr below ↦
        ap
          (λ o.
            prefer p D cfg n (key_of D cfg rec) o (newest p D cfg c sector n (key_of D cfg rec)))
          (behind n (ground arith) (omega arith))
        ∙ newest-top c m n rec (ground arith) found (λ i lo hi. behind i lo (omega arith))
  ]

  prefer-none :
      (n : ℕ) (k : Key) (o : Option Record) (rest : Option (ℕ × Record))
      → prefer p D cfg n k o rest ≡ none
      → rest ≡ none
  unfolding prefer
  prefer-none n k none rest h = h
  prefer-none n k (some rec) rest h = elim (Bool-cases (same_key (key_of D cfg rec) k)) [
    | inl same ↦ cc (h, same)
    | inr other ↦ cc (h, other)
  ]

  -- Where nothing is found, no slot has the key.
  pub newest-none :
      (c : ℕ → ℕ) (n i : ℕ) (k : Key)
      → newest p D cfg c sector n k ≡ none
      → i < n
      → IsOther k (live_at c i)
  unfolding newest prefer
  newest-none c zero i k nothing h rec found = absurd (omega arith)
  newest-none c (suc n) i k nothing h rec found = elim (Bool-cases (i == n)) [
    | inl at ↦
        let here : i ≡ n = ground arith in
        elim (Bool-cases (same_key (key_of D cfg rec) k)) [
          | inr other ↦ other
          | inl same ↦ cc (nothing, here, found, same)
        ]
    | inr below ↦
        newest-none c n i k (prefer-none n k (live_at c n) (newest p D cfg c sector n k) nothing)
          (ground arith) rec found
  ]
