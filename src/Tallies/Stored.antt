-- ===== src/Tallies/Stored.antt =====
-- What a volume has to do for the counters, as an interface, and the entry that a restart makes of what
-- a volume holds.
use qoraal_flash.Common.{
  ℕ, zero, suc, ◌+◌, ◌<◌, ◌≡◌, ◌≢◌, refl, ap, true, false, Option, none, some, List, [], ◌∷◌, ◌++◌,
  ◌==◌, if◌then◌else◌, All, arith, length, take, drop, replicate, length-append, length-take,
  ==_refl, ltb, take-All,
}
use qoraal_flash.Common.Word.{u32_bytes, IsWord}
use qoraal_flash.Common.Run.{eok}
use qoraal_flash.Tallies.{
  Rtc, Entry, Calls, Tallies, max_name_len, name_canonical, no_entry, entry_bytes, entry_of,
  record_len, record_of, key, word_of,
}
use qoraal_flash.Nvol3.Loaded.Get.{answer}
use qoraal_flash.Tallies.Load.{same_name}

-- Dates and times are read back from memory as they were written.
pub record IsCodec (R : Rtc) : Type 0 where
  pub date_length : (d : R.Date) → length (R.date_bytes d) ≡ R.date_size
  pub time_length : (d : R.Time) → length (R.time_bytes d) ≡ R.time_size
  pub date_back : (d : R.Date) → R.date_of (R.date_bytes d) ≡ d
  pub time_back : (d : R.Time) → R.time_of (R.time_bytes d) ≡ d
  pub date_are_bytes : (d : R.Date) → All (λ x. x < 256) (R.date_bytes d)
  pub time_are_bytes : (d : R.Time) → All (λ x. x < 256) (R.time_bytes d)

-- A buffer as the counters write it, under a key of 16 bits.
pub record IsRecord (len k : ℕ) (bytes : List ℕ) : Type 0 where
  pub tail : List ℕ
  pub keyed : bytes ≡ u32_bytes k ++ tail
  pub small : k < 65536
  pub sized : length bytes ≡ len
  pub are_bytes : All (λ x. x < 256) bytes

-- A volume that holds records under keys. `IsGood n v` says that the volume is loaded and stays so for
-- `n` more writes; a write may fail, and leaves the records under the other keys in any case.
pub record IsStore {V : Type 0} (O : Calls V) (len : ℕ) : Type 1 where
  pub IsGood : ℕ → V → Type 0
  pub held : V → ℕ → Option (List ℕ)
  pub loaded : (n : ℕ) (v : V) → IsGood n v → O.has_dict v ≡ true
  pub fewer : (n : ℕ) (v : V) → IsGood (suc n) v → IsGood n v
  pub get :
      (n : ℕ) (v : V) (k : ℕ)
      → IsGood n v
      → k < 65536
      → O.nvol3_record_get (u32_bytes k) v ≡ answer (held v k)
  pub set_good :
      (n : ℕ) (v : V) (k : ℕ) (bytes : List ℕ)
      → IsGood (suc n) v
      → IsRecord len k bytes
      → IsGood n (O.nvol3_record_set bytes len v).1
  pub set_held :
      (n : ℕ) (v : V) (k : ℕ) (bytes : List ℕ)
      → IsGood (suc n) v
      → IsRecord len k bytes
      → (O.nvol3_record_set bytes len v).0 ≡ eok
      → held (O.nvol3_record_set bytes len v).1 k ≡ some bytes
  pub set_other :
      (n : ℕ) (v : V) (k : ℕ) (bytes : List ℕ)
      → IsGood (suc n) v
      → IsRecord len k bytes
      → (j : ℕ) → j < 65536
      → j ≢ k
      → held (O.nvol3_record_set bytes len v).1 j ≡ held v j
  pub delete_good :
      (n : ℕ) (v : V) (k : ℕ) (rest : List ℕ)
      → IsGood n v
      → k < 65536
      → IsGood n (O.nvol3_record_delete (u32_bytes k ++ rest) v).1
  pub delete_held :
      (n : ℕ) (v : V) (k : ℕ) (rest : List ℕ)
      → IsGood n v
      → k < 65536
      → (j : ℕ) → j < 65536
      → held (O.nvol3_record_delete (u32_bytes k ++ rest) v).1 j
        ≡ (if k == j then none else held v j)

-- A volume on which every write succeeds.
abbrev pub IsSure : {V : Type 0} {O : Calls V} {len : ℕ} → IsStore O len → Type 0
IsSure {V} {O} {len} S =
    (n : ℕ) (v : V) (k : ℕ) (bytes : List ℕ)
    → S.IsGood (suc n) v
    → IsRecord len k bytes
    → (O.nvol3_record_set bytes len v).0 ≡ eok

pub length-name_canonical : (name : Option (List ℕ)) → length (name_canonical name) ≡ 12
unfolding name_canonical
length-name_canonical none = refl
length-name_canonical (some name) = omega (
  arith,
  length-take 12 (take 11 name ++ replicate 12 0),
  length-append (take 11 name) (replicate 12 0),
)

take-append : {A : Type 0} (n : ℕ) (xs ys : List A) → length xs ≡ n → take n (xs ++ ys) ≡ xs
take-append zero [] ys h = refl
take-append zero (x ∷ xs) ys h = absurd (omega arith)
take-append (suc n) [] ys h = absurd (omega arith)
take-append (suc n) (x ∷ xs) ys h = ap (λ zs. x ∷ zs) (take-append n xs ys (omega arith))

drop-append : {A : Type 0} (n : ℕ) (xs ys : List A) → length xs ≡ n → drop n (xs ++ ys) ≡ ys
drop-append zero [] ys h = refl
drop-append zero (x ∷ xs) ys h = absurd (omega arith)
drop-append (suc n) [] ys h = absurd (omega arith)
drop-append (suc n) (x ∷ xs) ys h = drop-append n xs ys (omega arith)

pub same_name_refl : (xs : List ℕ) → same_name xs xs ≡ true
unfolding same_name
same_name_refl [] = refl
same_name_refl (x ∷ xs) = rw (==_refl x, same_name_refl xs) refl

-- A name of bytes, if there is one.
abbrev pub IsText : Option (List ℕ) → Type 0
IsText none = Unit
IsText (some name) = All (λ x. x < 256) name

append-All :
    (xs ys : List ℕ) → All (λ x. x < 256) xs → All (λ x. x < 256) ys → All (λ x. x < 256) (xs ++ ys)
append-All [] ys h k = k
append-All (x ∷ xs) ys (p, h) k = (p, append-All xs ys h k)

name_canonical-All :
    (name : Option (List ℕ)) → IsText name → All (λ x. x < 256) (name_canonical name)
unfolding name_canonical
name_canonical-All none h = omega arith
name_canonical-All (some name) h =
    take-All (λ x. x < 256) 12 (take 11 name ++ replicate 12 0)
      (append-All (take 11 name) (replicate 12 0) (take-All (λ x. x < 256) 11 name h) (omega arith))

module _ (R : Rtc) where
  -- The entry that block_load makes of what is held for a counter of a name.
  unfoldable pub restore : Option (List ℕ) → Option (List ℕ) → Entry R
  restore name none = no_entry R
  restore name (some bytes) =
      if ltb (length bytes) (record_len R)
      then no_entry R
      else if same_name (take max_name_len (drop 4 bytes)) (name_canonical name)
      then entry_of R (drop max_name_len (drop 4 bytes))
      else no_entry R

  module _ (C : IsCodec R) where
    pub length-entry_bytes :
        (e : Entry R) → length (entry_bytes R e) ≡ R.date_size + (R.time_size + 4)
    length-entry_bytes e = omega (
      arith,
      length-append (R.date_bytes e.date) (R.time_bytes e.time ++ u32_bytes e.value),
      length-append (R.time_bytes e.time) (u32_bytes e.value),
      C.date_length e.date,
      C.time_length e.time,
    )

    pub entry_of-entry_bytes : (e : Entry R) → IsWord e.value → entry_of R (entry_bytes R e) ≡ e
    unfolding entry_of
    entry_of-entry_bytes e word =
        let dates : take R.date_size (entry_bytes R e) ≡ R.date_bytes e.date =
          take-append R.date_size (R.date_bytes e.date) _ (C.date_length e.date) in
        let rest : drop R.date_size (entry_bytes R e) ≡ R.time_bytes e.time ++ u32_bytes e.value =
          drop-append R.date_size (R.date_bytes e.date) _ (C.date_length e.date) in
        let times : take R.time_size (R.time_bytes e.time ++ u32_bytes e.value)
            ≡ R.time_bytes e.time =
          take-append R.time_size (R.time_bytes e.time) _ (C.time_length e.time) in
        let values : drop R.time_size (R.time_bytes e.time ++ u32_bytes e.value)
            ≡ u32_bytes e.value =
          drop-append R.time_size (R.time_bytes e.time) _ (C.time_length e.time) in
        let back : word_of (u32_bytes e.value) ≡ e.value = omega (arith, word) in
        rw (dates, rest, times, values) (cc (C.date_back e.date, C.time_back e.time, back))

    -- A record that was written is restored.
    pub restore-record_of :
        {V : Type 0} (t : Tallies R V) (b l : ℕ)
        → IsWord (t.entry b l).value
        → restore ((t.heap b).defs l) (some (record_of R t b l)) ≡ t.entry b l
    unfolding restore record_of
    restore-record_of t b l word =
        let name = name_canonical ((t.heap b).defs l) in
        let bytes = entry_bytes R (t.entry b l) in
        let size : ltb (length (record_of R t b l)) (record_len R) ≡ false = ground (
          arith,
          length-append name bytes,
          length-name_canonical ((t.heap b).defs l),
          length-entry_bytes (t.entry b l),
        ) in
        let front : take 12 (name ++ bytes) ≡ name =
          take-append 12 name bytes (length-name_canonical ((t.heap b).defs l)) in
        let back : drop 12 (name ++ bytes) ≡ bytes =
          drop-append 12 name bytes (length-name_canonical ((t.heap b).defs l)) in
        rw (size, front, back, same_name_refl name) (entry_of-entry_bytes (t.entry b l) word)

    pub record_of-IsRecord :
        {V : Type 0} (t : Tallies R V) (b l : ℕ)
        → IsText ((t.heap b).defs l)
        → key R t b l < 65536
        → IsRecord (record_len R) (key R t b l) (record_of R t b l)
    unfolding record_of
    record_of-IsRecord t b l text small =
        let name = name_canonical ((t.heap b).defs l) in
        let e = t.entry b l in
        record {
          tail = name ++ entry_bytes R e;
          keyed = refl;
          small = small;
          sized = omega (
            arith,
            length-append name (entry_bytes R e),
            length-name_canonical ((t.heap b).defs l),
            length-entry_bytes e,
          );
          are_bytes = append-All (u32_bytes (key R t b l)) (name ++ entry_bytes R e) (omega arith) (
              append-All name (entry_bytes R e) (name_canonical-All ((t.heap b).defs l) text) (
                append-All (R.date_bytes e.date) (R.time_bytes e.time ++ u32_bytes e.value)
                  (C.date_are_bytes e.date)
                  (append-All (R.time_bytes e.time) (u32_bytes e.value) (C.time_are_bytes e.time)
                    (omega arith))));
        }
