-- ===== src/Nvol3/Samples.antt =====
-- A dictionary as an association list, and a small volume on the simulator of the tests.
use qoraal_flash.Common.{
  ℕ, zero, suc, ◌≤◌, ap, ◌≡◌, ◌≢◌, refl, sym, ◌∙◌, inl, inr, true, false, Option, none, some, List,
  [], ◌∷◌, arith, if◌then◌else◌, length, take, map, Bool-cases,
}
use qoraal_flash.Flash.{Platform}
use qoraal_flash.Flash.Nor.{NorFlash}
use qoraal_flash.Flash.Simulator.{Memory, simulator, byte}
use qoraal_flash.Flash.Simulator.Laws.{simulator-NorFlash}
use qoraal_flash.Nvol3.Dictionary.{same_key, Dictionary, IsMap, Entry, Key}
use qoraal_flash.Nvol3.Volume.{Config, World, max_records}
use qoraal_flash.Nvol3.Slot.Read.{Placed, slot_at}
use qoraal_flash.Nvol3.View.{same_key_refl, same_key-eq, live, newest, prefer, listed}
use qoraal_flash.Nvol3.Loaded.{IsLoaded}
use qoraal_flash.Nvol3.Loaded.Put.{record_at-Erased}

abbrev pub Pairs : Type 0
Pairs = List (Key × Entry)

abbrev pub find : Pairs → Key → Option Entry
find [] k = none
find ((j, e) ∷ rest) k = let behind = find rest k in if same_key j k then some e else behind

abbrev pub without : Pairs → Key → Pairs
without [] k = []
without ((j, e) ∷ rest) k =
    let behind = without rest k in if same_key j k then behind else (j, e) ∷ behind

find-without : (d : Pairs) (k : Key) → find (without d k) k ≡ none
find-without [] k = refl
find-without ((j, e) ∷ rest) k = elim (Bool-cases (same_key j k)) [
  | inl same ↦ rw same (find-without rest k)
  | inr other ↦ rw other (rw other (find-without rest k))
]

find-without_ne : (d : Pairs) (k j : Key) → j ≢ k → find (without d k) j ≡ find d j
find-without_ne [] k j h = refl
find-without_ne ((i, e) ∷ rest) k j h = elim (Bool-cases (same_key i k)) [
  | inl same ↦
      let differ : same_key i j ≡ false = apart i k j same h in
      rw (same, differ) (find-without_ne rest k j h)
  | inr other ↦ elim (Bool-cases (same_key i j)) [
    | inl this ↦ rw (other, this) refl
    | inr away ↦ rw (other, away) (find-without_ne rest k j h)
  ]
]
  where
    apart : (i k j : Key) → same_key i k ≡ true → j ≢ k → same_key i j ≡ false
    apart i k j same h = elim (Bool-cases (same_key i j)) [
      | inr other ↦ other
      | inl this ↦ absurd (h (sym (same_key-eq i j this) ∙ same_key-eq i k same))
    ]

abbrev pub put : Pairs → Key → Entry → Pairs
put d k e = (k, e) ∷ without d k

find-put : (d : Pairs) (k : Key) (e : Entry) → find (put d k e) k ≡ some e
find-put d k e = rw (same_key_refl k) refl

find-put_ne : (d : Pairs) (k j : Key) (e : Entry) → j ≢ k → find (put d k e) j ≡ find d j
find-put_ne d k j e h = elim (Bool-cases (same_key k j)) [
  | inl same ↦ absurd (h (sym (same_key-eq k j same)))
  | inr other ↦ rw other (find-without_ne d k j h)
]

abbrev after : Pairs → Key → Option Key
after [] k = none
after ((j, e) ∷ []) k = none
after ((j, e) ∷ (i, f) ∷ rest) k =
    let behind = after ((i, f) ∷ rest) k in if same_key j k then some i else behind

abbrev removed_from : Pairs → Key → ℕ
removed_from d k = elim (find d k) [ none ↦ 0 | some e ↦ 1 ]

find-removed_from : (d : Pairs) (k : Key) (e : Entry) → find d k ≡ some e → removed_from d k ≢ 0
find-removed_from d k e h = rw (removed_from, h) (ground arith)

-- A dictionary with the keys and the count that are given.
abbrev pub pairs_with : (List ℕ → Key) → (Pairs → ℕ) → Dictionary
pairs_with key_at count = record {
  Dict = Pairs;
  init = [];
  key_at = key_at;
  get = find;
  install = put;
  assign = put;
  remove = without;
  removed = removed_from;
  remove_all = λ d. [];
  count = count;
  nodes = map (λ x. x.0);
  next_node = after;
  key_memory = λ d k. k;
}

pub pairs_with-IsMap : (key_at : List ℕ → Key) (count : Pairs → ℕ) → IsMap (pairs_with key_at count)
pairs_with-IsMap key_at count = record {
  get-remove_all = λ d k. refl;
  get-install = find-put;
  get-install_ne = find-put_ne;
  get-assign = find-put;
  get-assign_ne = find-put_ne;
  get-remove = find-without;
  get-remove_ne = find-without_ne;
  get-removed = find-removed_from;
}

-- Keys of two bytes.
abbrev pub pairs : Dictionary
pairs = pairs_with (take 2) length

pub pairs-IsMap : IsMap pairs
pairs-IsMap = pairs_with-IsMap (take 2) length

abbrev pub chip : Platform Memory
chip = simulator 256 1024 true

abbrev pub flash : NorFlash chip
flash = simulator-NorFlash 256 1024 true (omega arith) (omega arith)

-- Two sectors with room for fourteen records of up to eight bytes.
abbrev pub small : Config
small = record {
  sector1_addr = 0;
  sector2_addr = 256;
  sector_size = 256;
  record_size = 16;
  local_size = 2;
  key_size = 2;
  version = 0;
  write_cb = none;
}

pub small-Placed : Placed flash small 0
unfolding max_records
small-Placed = record {
  head_fits = omega arith;
  record_size_fits = omega arith;
  page_fits = omega arith;
  in_flash = omega arith;
  in_space = omega arith;
  few = omega arith;
}

abbrev pub erased : Memory
erased x = 255

-- The instance over a memory, with an empty table.
abbrev pub volume : Memory → World Pairs Memory
volume m = record {
  vol = record {
    version = 0;
    next_idx = 0;
    sector = 0;
    dict = some [];
    inuse = 0;
    invalid = 0;
    error = 0;
  };
  store = m;
  allocations = [];
}

module _ (key_at : List ℕ → Key) (count : Pairs → ℕ) (cfg : Config)
    (fits : 8 ≤ cfg.record_size) where
  -- An erased sector holds nothing.
  pub nothing_found :
      (n : ℕ) (k : Key) → newest chip (pairs_with key_at count) cfg (byte erased) 0 n k ≡ none
  unfolding newest prefer live
  nothing_found zero k = refl
  nothing_found (suc n) k =
      ap
        (λ o.
          prefer chip (pairs_with key_at count) cfg n k o
            (newest chip (pairs_with key_at count) cfg (byte erased) 0 n k))
        (ap (live chip (pairs_with key_at count) cfg)
          (record_at-Erased cfg (byte erased) (slot_at cfg 0 n) fits (λ x lo hi. refl)))
      ∙ nothing_found n k

  -- The instance over an erased memory is loaded.
  unfoldable pub erased-IsLoaded : IsLoaded flash (pairs_with key_at count) cfg 0 (volume erased)
  unfolding listed live
  erased-IsLoaded = record {
    table = record {
      dict = [];
      is_dict = refl;
      lists = λ k.
          ap (listed chip (pairs_with key_at count) cfg) (sym (nothing_found (max_records cfg) k));
      memory = refl;
      at_sector = refl;
    };
    next_in = omega arith;
    erased_behind = λ i lo hi x from to. refl;
    tidy = λ i below e x from to. refl;
    sole = λ i rec below found. absurd (
        cc (
          found,
          ap (live chip (pairs_with key_at count) cfg)
              (record_at-Erased cfg (byte erased) (slot_at cfg 0 i) fits (λ x lo hi. refl)),
        ));
  }
