-- ===== src/Tallies/OnVolume/Tests.antt =====
-- The counters of the samples on a volume of nvol3 over the simulator.
use qoraal_flash.Common.{
  ℕ, suc, ◌≤◌, ◌<◌, ◌≡◌, refl, inl, inr, true, false, Option, none, some, List, [], ◌∷◌, ◌==◌,
  if◌then◌else◌, arith, length, take, Bool-cases, Option-cases,
}
use qoraal_flash.Common.Word.{u32_bytes}
use qoraal_flash.Nvol3.Dictionary.{same_key, Dictionary, Entry, Key}
use qoraal_flash.Nvol3.Volume.{nvol3_callback_tallie, Config, World, max_records}
use qoraal_flash.Nvol3.Slot.Read.{Placed}
use qoraal_flash.Nvol3.View.{same_key_refl, same_key-eq}
use qoraal_flash.Nvol3.Samples.{
  Pairs, find, pairs_with, pairs_with-IsMap, chip, flash, small, erased, volume, erased-IsLoaded,
}
use qoraal_flash.Tallies.{Tallies, rounds, locals, record_len, key}
use qoraal_flash.Nvol3.Loaded.{contents}
use qoraal_flash.Tallies.Stored.{IsStore, restore}
use qoraal_flash.Tallies.Counters.{IsCounter}
use qoraal_flash.Tallies.Register.{block_find}
use qoraal_flash.Tallies.Persist.{tallies_persist}
use qoraal_flash.Tallies.Persist.Drain.{IsReady}
use qoraal_flash.Tallies.OnVolume.{HasIds, IsKeyIn, volume_calls}
use qoraal_flash.Tallies.OnVolume.Store.{IsConfig, volume_store, tallies_persist-contents}
use qoraal_flash.Tallies.Samples.{rtc, codec, counting, counting-IsSound}

abbrev one_more : Option Entry → ℕ → ℕ
one_more none n = suc n
one_more (some e) n = n

-- The number of different keys.
abbrev pub distinct : Pairs → ℕ
distinct [] = 0
distinct ((k, e) ∷ rest) = one_more (find rest k) (distinct rest)

abbrev other_keys : Key → List Key → List Key
other_keys k [] = []
other_keys k (j ∷ js) = let rest = other_keys k js in if same_key j k then rest else j ∷ rest

length-other_keys-le : (k : Key) (ks : List Key) → length (other_keys k ks) ≤ length ks
length-other_keys-le k [] = omega arith
length-other_keys-le k (j ∷ js) = elim (Bool-cases (same_key j k)) [
  | inl e ↦ rw e (omega (arith, length-other_keys-le k js))
  | inr e ↦ rw e (omega (arith, length-other_keys-le k js))
]

length-other_keys :
    (k : Key) (ks : List Key) → IsKeyIn k ks → suc (length (other_keys k ks)) ≤ length ks
length-other_keys k [] h = absurd h
length-other_keys k (j ∷ js) (inl e) =
    rw (e, same_key_refl k) (omega (arith, length-other_keys-le k js))
length-other_keys k (j ∷ js) (inr h) = elim (Bool-cases (same_key j k)) [
  | inl e ↦ rw e (omega (arith, length-other_keys-le k js))
  | inr e ↦ rw e (omega (arith, length-other_keys k js h))
]

other_keys-IsKeyIn :
    (k i : Key) (ks : List Key) → same_key i k ≡ false → IsKeyIn i ks → IsKeyIn i (other_keys k ks)
other_keys-IsKeyIn k i [] h m = m
other_keys-IsKeyIn k i (j ∷ js) h (inl e) = rw (e, h) (inl refl)
other_keys-IsKeyIn k i (j ∷ js) h (inr m) = elim (Bool-cases (same_key j k)) [
  | inl e ↦ rw e (other_keys-IsKeyIn k i js h m)
  | inr e ↦ rw e (inr (other_keys-IsKeyIn k i js h m))
]

Holds : Pairs → List Key → Type 0
Holds d ks = (k : Key) (e : Entry) → find d k ≡ some e → IsKeyIn k ks

distinct-le : (d : Pairs) (ks : List Key) → Holds d ks → distinct d ≤ length ks
unfolding Holds
distinct-le [] ks h = omega arith
distinct-le ((k, e) ∷ d) ks h = elim (Option-cases (find d k)) [
  | inr (f, q) ↦ rw q (distinct-le d ks (λ j g p. behind j g p))
  | inl q ↦
      let here : IsKeyIn k ks = h k e (rw (same_key_refl k) refl) in
      let less : distinct d ≤ length (other_keys k ks) =
        distinct-le d (other_keys k ks)
          (λ j g p. other_keys-IsKeyIn k j ks (apart j g q p) (behind j g p)) in
      rw q (omega (arith, less, length-other_keys k ks here))
]
  where
    behind : (j : Key) (g : Entry) → find d j ≡ some g → IsKeyIn j ks
    behind j g p = elim (Bool-cases (same_key k j)) [
      | inl s ↦ h j e (rw s refl)
      | inr s ↦ h j g (rw s p)
    ]

    apart : (j : Key) (g : Entry) → find d k ≡ none → find d j ≡ some g → same_key j k ≡ false
    apart j g q p = elim (Bool-cases (same_key j k)) [
      | inr s ↦ s
      | inl s ↦ absurd (cc (q, p, same_key-eq j k s))
    ]

-- Keys of four bytes.
abbrev pub ids : Dictionary
ids = pairs_with (take 4) distinct

pub same_id :
    (j k : ℕ)
    → j < 65536
    → k < 65536
    → same_key (ids.key_at (u32_bytes j)) (ids.key_at (u32_bytes k)) ≡ (j == k)
unfolding same_key
same_id j k h g = ground arith

pub ids-HasIds : HasIds ids
unfolding Holds
ids-HasIds = record { at_front = λ k rest. refl; differ = same_id; counts = distinct-le }

-- Two sectors with room for seven records of up to 24 bytes.
abbrev pub roomy : Config
roomy = record small {
  record_size = 32;
  local_size = 0;
  key_size = 4;
  write_cb = some nvol3_callback_tallie;
}

pub roomy-Placed : Placed flash roomy 0
unfolding max_records
roomy-Placed = record {
  head_fits = omega arith;
  record_size_fits = omega arith;
  page_fits = omega arith;
  in_flash = omega arith;
  in_space = omega arith;
  few = omega arith;
}

pub roomy-IsConfig : IsConfig roomy (record_len rtc)
roomy-IsConfig = record {
  id_key = refl;
  has_key = omega arith;
  fits = omega arith;
  consents = refl;
}

pub roomy-keeps : (d : Pairs) (bytes : List ℕ) → take 4 (take 4 bytes) ≡ take 4 bytes
roomy-keeps d [] = refl
roomy-keeps d (a ∷ []) = refl
roomy-keeps d (a ∷ b ∷ []) = refl
roomy-keeps d (a ∷ b ∷ c ∷ []) = refl
roomy-keeps d (a ∷ b ∷ c ∷ e ∷ rest) = refl

pub eight_fit : 8 ≤ roomy.record_size
eight_fit = omega arith

-- The counters of the samples on the erased flash.
abbrev on_chip : Tallies rtc (World Pairs (ℕ → ℕ))
on_chip = record {
  inst = true;
  vol = volume erased;
  blocks = counting.blocks;
  started = true;
  mismatched = 0;
  scratch = true;
  heap = counting.heap;
  entry = counting.entry;
  dirty = counting.dirty;
}

abbrev chip_store : IsStore (volume_calls chip ids roomy) (record_len rtc)
chip_store =
    volume_store (pairs_with-IsMap (take 4) distinct) ids-HasIds roomy-keeps roomy-Placed
      (record_len rtc) roomy-IsConfig

on_chip-IsReady : IsReady chip_store on_chip 3
unfolding rounds locals max_records
on_chip-IsReady = record {
  scratch = refl;
  inst = refl;
  sound = record {
    apart = counting-IsSound.apart;
    words = counting-IsSound.words;
    texts = counting-IsSound.texts;
  };
  good = (erased-IsLoaded (take 4) distinct roomy eight_fit, omega arith);
  kept = λ b l i h. cc;
  small = omega arith;
}

counter : IsCounter on_chip.heap on_chip.blocks (2, 0)
unfolding block_find
counter = (refl, omega arith)

tallies_persist-contents_example :
    restore rtc ((on_chip.heap 2).defs 0) (
      contents flash ids roomy 0
        (tallies_persist (volume_calls chip ids roomy) on_chip).vol
        (ids.key_at (u32_bytes (key rtc on_chip 2 0))))
    ≡ on_chip.entry 2 0
unfolding rounds locals
tallies_persist-contents_example =
    tallies_persist-contents codec (pairs_with-IsMap (take 4) distinct) ids-HasIds roomy-keeps
      roomy-Placed roomy-IsConfig on_chip 3 on_chip-IsReady (omega arith) 2 0 counter
