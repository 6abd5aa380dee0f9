-- ===== src/Tallies/Samples.antt =====
-- Dates, a volume and blocks of counters for the witnesses.
use qoraal_flash.Common.{
  ℕ, ◌<◌, ◌≡◌, ◌≢◌, refl, ap, ◌∙◌, Bool, true, false, Option, none, some, List, [], ◌∷◌, ◌++◌, ◌==◌,
  if◌then◌else◌, All, arith, length, get_or,
}
use qoraal_flash.Common.Word.{u32_bytes}
use qoraal_flash.Common.Run.{eok}
use qoraal_flash.Nvol3.Loaded.Get.{answer}
use qoraal_flash.Tallies.{Rtc, Block, Calls, Tallies, word_of, record_len, rounds, locals}
use qoraal_flash.Tallies.Persist.Steps.{IsSound}
use qoraal_flash.Tallies.Persist.Drain.{IsReady}
use qoraal_flash.Tallies.Stored.{IsCodec, IsRecord, IsStore, IsSure}

-- A date and a time of one byte each.
abbrev flag_bytes : Bool → List ℕ
flag_bytes true = 1 ∷ []
flag_bytes false = 0 ∷ []

abbrev flag_of : List ℕ → Bool
flag_of bs = get_or bs 0 0 == 1

abbrev pub rtc : Rtc
rtc = record {
  Date = Bool;
  Time = Bool;
  no_date = false;
  no_time = false;
  date_size = 1;
  time_size = 1;
  date_bytes = flag_bytes;
  time_bytes = flag_bytes;
  date_of = flag_of;
  time_of = flag_of;
}

flag_back : (d : Bool) → flag_of (flag_bytes d) ≡ d
flag_back true = refl
flag_back false = refl

flag_length : (d : Bool) → length (flag_bytes d) ≡ 1
flag_length true = refl
flag_length false = refl

flag_small : (d : Bool) → All (λ x. x < 256) (flag_bytes d)
flag_small true = omega arith
flag_small false = omega arith

pub codec : IsCodec rtc
codec = record {
  date_length = flag_length;
  time_length = flag_length;
  date_back = flag_back;
  time_back = flag_back;
  date_are_bytes = flag_small;
  time_are_bytes = flag_small;
}

-- Records under their keys, and whether they are loaded.
pub record Records : Type 0 where
  pub loaded : Bool
  pub records : List (ℕ × List ℕ)

abbrev pub find : ℕ → List (ℕ × List ℕ) → Option (List ℕ)
find k [] = none
find k ((j, bytes) ∷ rs) = let rest = find k rs in if j == k then some bytes else rest

abbrev pub remove : ℕ → List (ℕ × List ℕ) → List (ℕ × List ℕ)
remove k [] = []
remove k ((j, bytes) ∷ rs) = let rest = remove k rs in if j == k then rest else (j, bytes) ∷ rest

abbrev pub calls : Calls Records
calls = record {
  has_dict = λ v. v.loaded;
  malloc = λ v. (true, v);
  nvol3_validate = λ v. eok;
  nvol3_load = λ v. (eok, record v { loaded = true });
  nvol3_reset = λ v. (eok, record { loaded = true; records = [] });
  nvol3_unload = λ v. record v { loaded = false };
  nvol3_record_get = λ bytes v. answer (find (word_of bytes) v.records);
  nvol3_record_set = λ bytes n v. (eok, record v { records = (word_of bytes, bytes) ∷ v.records });
  nvol3_record_delete = λ bytes v. (eok, record v { records = remove (word_of bytes) v.records });
}

word_back : (k : ℕ) (rest : List ℕ) → k < 65536 → word_of (u32_bytes k ++ rest) ≡ k
word_back k rest h = omega arith

record_key : (len k : ℕ) (bytes : List ℕ) → IsRecord len k bytes → word_of bytes ≡ k
record_key len k bytes r = rw r.keyed (word_back k r.tail r.small)

find-remove :
    (k j : ℕ) (rs : List (ℕ × List ℕ)) → find j (remove k rs) ≡ (if k == j then none else find j rs)
find-remove k j [] = ground arith
find-remove k j ((i, bytes) ∷ rs) = ground (arith, find-remove k j rs)

find-front :
    (k j : ℕ) (bytes xs : List ℕ) (rs : List (ℕ × List ℕ)) (len : ℕ)
    → IsRecord len k bytes
    → find j ((word_of bytes, xs) ∷ rs) ≡ (if k == j then some xs else find j rs)
find-front k j bytes xs rs len r = rw (record_key len k bytes r) refl

pub find-same :
    (k : ℕ) (bytes : List ℕ) (rs : List (ℕ × List ℕ)) (len : ℕ)
    → IsRecord len k bytes
    → find k ((word_of bytes, bytes) ∷ rs) ≡ some bytes
find-same k bytes rs len r = ground (arith, find-front k k bytes bytes rs len r)

pub find-other :
    (k j : ℕ) (bytes : List ℕ) (rs : List (ℕ × List ℕ)) (len : ℕ)
    → IsRecord len k bytes
    → j ≢ k
    → find j ((word_of bytes, bytes) ∷ rs) ≡ find j rs
find-other k j bytes rs len r other = ground (arith, find-front k j bytes bytes rs len r)

pub find_word :
    (k : ℕ) (rs : List (ℕ × List ℕ))
    → k < 65536
    → answer (find (word_of (u32_bytes k)) rs) ≡ answer (find k rs)
find_word k rs small = ap (λ x. answer (find x rs)) (word_back k [] small)

pub remove_word :
    (k j : ℕ) (rest : List ℕ) (rs : List (ℕ × List ℕ))
    → k < 65536
    → find j (remove (word_of (u32_bytes k ++ rest)) rs) ≡ (if k == j then none else find j rs)
remove_word k j rest rs small =
    ap (λ x. find j (remove x rs)) (word_back k rest small) ∙ find-remove k j rs

abbrev pub store : IsStore calls (record_len rtc)
store = record {
  IsGood = λ n v. v.loaded ≡ true;
  held = λ v k. find k v.records;
  loaded = λ n v g. g;
  fewer = λ n v g. g;
  get = λ n v k g small. find_word k v.records small;
  set_good = λ n v k bytes g r. g;
  set_held = λ n v k bytes g r e. find-same k bytes v.records (record_len rtc) r;
  set_other =
      λ n v k bytes g r j small other. find-other k j bytes v.records (record_len rtc) r other;
  delete_good = λ n v k rest g small. g;
  delete_held = λ n v k rest g small j bound. remove_word k j rest v.records small;
}

pub sure : IsSure store
sure n v k bytes g r = refl

-- Two blocks of two counters and of one, the first at 1 with the ids from 0 on, the second at 2 with
-- the id 10.
abbrev pub block : ℕ → Block
block b = record {
  name = some (109 ∷ []);
  defs = λ l. some (97 ∷ []);
  count = if b == 1 then 2 else 1;
  base = if b == 1 then 0 else 10;
  has_defs = true;
  has_entry = true;
  has_dirty = true;
}

-- All counters stand at 5 and have to be written.
abbrev pub counting : Tallies rtc Records
counting = record {
  inst = true;
  vol = record { loaded = true; records = [] };
  blocks = 1 ∷ 2 ∷ [];
  started = true;
  mismatched = 0;
  scratch = true;
  heap = block;
  entry = λ b l. record { date = true; time = false; value = 5 };
  dirty = λ b l. true;
}

-- No block is registered.
abbrev pub unregistered : Tallies rtc Records
unregistered = record counting { blocks = [] }

pub counting-IsSound : IsSound counting
counting-IsSound = record {
  apart = ground arith;
  words = λ b l i. omega arith;
  texts = λ b l i. omega arith;
}

pub counting-IsReady : (n : ℕ) → IsReady store counting n
unfolding rounds locals
counting-IsReady n = record {
  scratch = refl;
  inst = refl;
  sound = counting-IsSound;
  good = refl;
  kept = λ b l i h. cc;
  small = omega arith;
}
