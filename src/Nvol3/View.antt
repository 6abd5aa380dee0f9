-- ===== src/Nvol3/View.antt =====
-- What a sector holds, as a map: for a key the last record with the flags VALID and the right checksum.
pub mod Insert
pub mod Update
use qoraal_flash.Common.{
  ℕ, zero, suc, ◌+◌, ◌-◌, ◌*◌, ◌≤◌, ◌<◌, ◌≡◌, ◌≢◌, refl, sym, ap, ◌∙◌, inl, inr, Bool, true, false,
  ◌&&◌, Option, none, some, List, [], ◌∷◌, arith, ◌==◌, if◌then◌else◌, Bool-cases, Option-cases,
  ==_refl, length,
}
use qoraal_flash.Common.Word.{sub32}
use qoraal_flash.Common.Run.{Status, eok, Result, ok, err, check, bind, check-cases, Result-cases}
use qoraal_flash.Flash.{Platform}
use qoraal_flash.Flash.Nor.{bytes_at}
use qoraal_flash.Flash.Nor.Ranges.{length-bytes_at}
use qoraal_flash.Nvol3.Dictionary.{same_key, Dictionary, Entry, Key}
use qoraal_flash.Nvol3.Volume.{Config, Record}
use qoraal_flash.Nvol3.Slot.{head_of_bytes, head_status, variable_record_valid}
use qoraal_flash.Nvol3.Slot.Read.{record_at, slot_at, head_status-eok}
use qoraal_flash.Nvol3.Table.{entry_of, key_of}

pub same_key_refl : (k : Key) → same_key k k ≡ true
unfolding same_key
same_key_refl [] = refl
same_key_refl (x ∷ xs) = rw (==_refl x) (same_key_refl xs)

pub same_key-eq : (k j : Key) → same_key k j ≡ true → k ≡ j
unfolding same_key
same_key-eq [] [] h = refl
same_key-eq [] (y ∷ ys) h = cc
same_key-eq (x ∷ xs) [] h = cc
same_key-eq (x ∷ xs) (y ∷ ys) h = elim (Bool-cases (x == y)) [
  | inl e ↦
      let first : x ≡ y = ground arith in
      let behind : same_key xs ys ≡ true = cc (e, h) in cc (first, same_key-eq xs ys behind)
  | inr e ↦ cc (e, h)
]

pub same_key-ne : (k j : Key) → same_key k j ≡ false → j ≢ k
same_key-ne k j h e = cc (h, ap (same_key k) e, same_key_refl k)

module _ {Store : Type 0} (p : Platform Store) (D : Dictionary) (cfg : Config) where
  -- The record that counts in a slot.
  unfoldable pub live : Result Record → Option Record
  live (err e) = none
  live (ok rec) = if variable_record_valid p cfg rec then some rec else none

  -- A record in slot `n`, where it counts and has the key, before what is found below.
  unfoldable pub prefer : ℕ → Key → Option Record → Option (ℕ × Record) → Option (ℕ × Record)
  prefer n k none rest = rest
  prefer n k (some rec) rest = if same_key (key_of D cfg rec) k then some (n, rec) else rest

  -- The last of the first `n` slots with a record that counts and the key `k`, and that record.
  unfoldable pub newest : (ℕ → ℕ) → ℕ → ℕ → Key → Option (ℕ × Record)
  newest c sector zero k = none
  newest c sector (suc n) k =
      prefer n k (live (record_at cfg c (slot_at cfg sector n))) (newest c sector n k)

  -- The entry of the lookup table for what `newest` finds.
  unfoldable pub listed : Option (ℕ × Record) → Option Entry
  listed none = none
  listed (some (i, rec)) = some (entry_of cfg rec i [])

  pub newest-eq :
      (c d : ℕ → ℕ) (sector n : ℕ) (k : Key)
      → ((i : ℕ)
          → i < n
          → live (record_at cfg c (slot_at cfg sector i))
            ≡ live (record_at cfg d (slot_at cfg sector i)))
      → newest c sector n k ≡ newest d sector n k
  unfolding newest
  newest-eq c d sector zero k same = refl
  newest-eq c d sector (suc n) k same =
      cc (same n (omega arith), newest-eq c d sector n k (λ i h. same i (omega arith)))

  -- What `newest` finds is in a slot, and passes the checks.
  pub newest-some :
      (c : ℕ → ℕ) (sector n : ℕ) (k : Key) {i : ℕ} {rec : Record}
      → newest c sector n k ≡ some (i, rec)
      → (i < n)
        × (live (record_at cfg c (slot_at cfg sector i)) ≡ some rec)
        × (key_of D cfg rec ≡ k)
  unfolding newest prefer
  newest-some c sector zero k h = cc
  newest-some c sector (suc n) k {i} {rec} h =
      let later : newest c sector n k ≡ some (i, rec)
          → (i < suc n)
            × (live (record_at cfg c (slot_at cfg sector i)) ≡ some rec)
            × (key_of D cfg rec ≡ k) =
        λ e. let found = newest-some c sector n k e in (omega (arith, found.0), found.1, found.2) in
      elim (Option-cases (live (record_at cfg c (slot_at cfg sector n)))) [
        | inl nothing ↦ later (cc (h, nothing))
        | inr (r, something) ↦ elim (Bool-cases (same_key (key_of D cfg r) k)) [
          | inr other ↦ later (cc (h, something, other))
          | inl same ↦
              let at : n ≡ i = cc (h, something, same) in
              let it : r ≡ rec = cc (h, something, same) in
              (
                omega (arith, at),
                cc (at, it, something),
                cc (it, same_key-eq (key_of D cfg r) k same),
              )
        ]
      ]

pub record_at-eok :
    (cfg : Config) (c : ℕ → ℕ) (a : ℕ) {rec : Record}
    → record_at cfg c a ≡ ok rec
    → head_status cfg rec.head ≡ eok
unfolding record_at
record_at-eok cfg c a {rec} h =
    let hd = head_of_bytes (bytes_at c a 8) in
    elim (check-cases (head_status cfg hd) hd) [ inl fine ↦ cc (h, fine) | inr bad ↦ cc (h, bad) ]

-- The lengths of a record that passes the checks.
pub record IsFitting (cfg : Config) (rec : Record) : Type 0 where
  pub has_key : cfg.key_size ≤ rec.head.length
  pub short : rec.head.length < 65536

pub record_at-IsFitting :
    (cfg : Config) (c : ℕ → ℕ) (a : ℕ) {rec : Record}
    → 8 ≤ cfg.record_size
    → cfg.record_size < 65536
    → record_at cfg c a ≡ ok rec
    → IsFitting cfg rec
record_at-IsFitting cfg c a {rec} lo hi h =
    let sizes = head_status-eok cfg rec.head (record_at-eok cfg c a h) in
    record { has_key = sizes.1; short = omega (arith, sizes.0) }

pub live-ok :
    {Store : Type 0} (p : Platform Store) (D : Dictionary) (cfg : Config) (r : Result Record)
    {rec : Record}
    → live p D cfg r ≡ some rec
    → (r ≡ ok rec) × (variable_record_valid p cfg rec ≡ true)
unfolding live
live-ok p D cfg (err e) h = cc
live-ok p D cfg (ok r) {rec} h = elim (Bool-cases (variable_record_valid p cfg r)) [
  | inl good ↦ let same : r ≡ rec = cc (h, good) in (ap ok same, cc (same, good))
  | inr bad ↦ cc (h, bad)
]

pub record_at-length :
    (cfg : Config) (c : ℕ → ℕ) (a : ℕ) {rec : Record}
    → record_at cfg c a ≡ ok rec
    → length rec.key_and_data ≡ rec.head.length
unfolding record_at
record_at-length cfg c a {rec} h =
    let hd = head_of_bytes (bytes_at c a 8) in
    elim (check-cases (head_status cfg hd) hd) [
      | inl fine ↦ cc (h, fine, length-bytes_at c (a + 8) hd.length)
      | inr bad ↦ cc (h, bad)
    ]
