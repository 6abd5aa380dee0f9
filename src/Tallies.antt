-- ===== src/Tallies.antt =====
-- The tallies, counters that modules keep in RAM and that are written to a volume of nvol3 in the
-- background: src/tallies.c and include/qoraal-flash/tallies.h. Here are the constants, the data and
-- the calls of nvol3 that the counters need.
pub mod OnVolume
pub mod Tests
pub mod Samples
pub mod Counters
pub mod Stored
pub mod Persist
pub mod Load
pub mod Register
pub mod Count
pub mod Lifecycle
use qoraal_flash.Common.{
  ℕ, zero, suc, ◌+◌, Bool, true, false, Option, none, some, List, [], ◌∷◌, ◌++◌, ◌==◌, ◌&&◌,
  if◌then◌else◌, ◌≡◌, refl, ==_refl, ltb, length, take, drop, replicate, get_or,
}
use qoraal_flash.Common.Word.{ℤ, pos, u32_bytes, u32_of}
use qoraal_flash.Common.Run.{Status, Result}

abbrev pub max_name_len : ℕ
max_name_len = 12

-- TALLIES_BASE_NONE
abbrev pub base_none : ℕ
base_none = 0xFFFF

-- TALLIES_PERSIST_MAX_PER_PASS
abbrev pub max_per_pass : ℕ
max_per_pass = 16

-- TALLIES_PERSIST_RESUME, in seconds
abbrev pub persist_resume : ℕ
persist_resume = 1

-- Dates and times of qoraal/common/rtclib.h, which is not part of the repository: the ones of which
-- the union's number is zero, and how they lie in memory.
pub record Rtc : Type 1 where
  pub Date : Type 0
  pub Time : Type 0
  pub no_date : Date
  pub no_time : Time
  pub date_size : ℕ
  pub time_size : ℕ
  pub date_bytes : Date → List ℕ
  pub time_bytes : Time → List ℕ
  pub date_of : List ℕ → Date
  pub time_of : List ℕ → Time

-- TALLIES_ENTRY_T
pub record Entry (R : Rtc) : Type 0 where
  pub date : R.Date
  pub time : R.Time
  pub value : ℕ

-- TALLIES_BLOCK_T without its link and the arrays of the counters; a text is its characters, and
-- `none` a null pointer. Whether the pointers to the arrays are not null stands in the last three.
pub record Block : Type 0 where
  pub name : Option (List ℕ)
  pub defs : ℕ → Option (List ℕ)
  pub count : ℕ
  pub base : ℕ
  pub has_defs : Bool
  pub has_entry : Bool
  pub has_dirty : Bool

-- The calls of nvol3 on an instance `V`, and the allocation of the scratch record. A record is what
-- stands in the buffer from the key on.
pub record Calls (V : Type 0) : Type 0 where
  -- whether `inst->dict` is not null
  pub has_dict : V → Bool
  pub malloc : V → Bool × V
  pub nvol3_validate : V → Status
  pub nvol3_load : V → Status × V
  pub nvol3_reset : V → Status × V
  pub nvol3_unload : V → V
  pub nvol3_record_get : List ℕ → V → Result (ℤ × List ℕ)
  pub nvol3_record_set : List ℕ → ℕ → V → Status × V
  pub nvol3_record_delete : List ℕ → V → Status × V

-- The variables of the file and the memory of the blocks. `inst` is whether `_tallies_inst` is set, to
-- an instance that is then `vol`; `blocks` are the addresses of the registered blocks in the order of
-- their links from `_tallies_blocks` on; `scratch` is whether the scratch record is allocated. Each
-- block has arrays of its own: `entry` and `dirty` of an address are those of its block.
pub record Tallies (R : Rtc) (V : Type 0) : Type 0 where
  pub inst : Bool
  pub vol : V
  pub blocks : List ℕ
  pub started : Bool
  pub mismatched : ℕ
  pub scratch : Bool
  pub heap : ℕ → Block
  pub entry : ℕ → ℕ → Entry R
  pub dirty : ℕ → ℕ → Bool

-- An assignment to one element of one block's array.
abbrev pub put : {A : Type 0} → ℕ → ℕ → A → (ℕ → ℕ → A) → ℕ → ℕ → A
put b l a f c m = if (b == c) && (l == m) then a else f c m

pub put-here : {A : Type 0} (b l : ℕ) (a : A) (f : ℕ → ℕ → A) → put b l a f b l ≡ a
put-here b l a f = rw (==_refl b, ==_refl l) refl

pub put-other :
    {A : Type 0} (b l : ℕ) (a : A) (f : ℕ → ℕ → A) (c m : ℕ)
    → ((b == c) && (l == m)) ≡ false
    → put b l a f c m ≡ f c m
put-other b l a f c m e = rw e refl

-- The name as it is stored; `none` is a null pointer.
unfoldable pub name_canonical : Option (List ℕ) → List ℕ
name_canonical none = replicate max_name_len 0
name_canonical (some name) = take max_name_len (take 11 name ++ replicate max_name_len 0)

-- The entries of one block: the rounds of `for (local = 0; local < blk->count; local++)`, from `l` on
-- with so many to come.
unfoldable pub locals : ℕ → ℕ → ℕ → List (ℕ × ℕ)
locals b l zero = []
locals b l (suc n) = (b, l) ∷ locals b (suc l) n

-- The rounds of the loops over the blocks and their entries where a block without a base is passed
-- over. No round changes a link, a count or a base.
unfoldable pub rounds : (ℕ → Block) → List ℕ → List (ℕ × ℕ)
rounds heap [] = []
rounds heap (b ∷ bs) =
    let rest = rounds heap bs in
    if (heap b).base == base_none then rest else locals b 0 (heap b).count ++ rest

-- A word of four bytes in memory.
abbrev pub word_of : List ℕ → ℕ
word_of bs = u32_of (get_or bs 0 0) (get_or bs 1 0) (get_or bs 2 0) (get_or bs 3 0)

module _ (R : Rtc) where
  abbrev pub no_entry : Entry R
  no_entry = record { date = R.no_date; time = R.no_time; value = 0 }

  abbrev pub entry_bytes : Entry R → List ℕ
  entry_bytes e = R.date_bytes e.date ++ (R.time_bytes e.time ++ u32_bytes e.value)

  -- The entry that stands in a buffer.
  unfoldable pub entry_of : List ℕ → Entry R
  entry_of bs = record {
    date = R.date_of (take R.date_size bs);
    time = R.time_of (take R.time_size (drop R.date_size bs));
    value = word_of (drop R.time_size (drop R.date_size bs));
  }

  -- TALLIES_RECORD_LEN
  abbrev pub record_len : ℕ
  record_len = 4 + (max_name_len + (R.date_size + (R.time_size + 4)))

  module _ {V : Type 0} where
    -- `(uint32_t)(blk->base + local)`
    abbrev pub key : Tallies R V → ℕ → ℕ → ℕ
    key t b l = (t.heap b).base + l

    -- The record of an entry, from the key on: a TALLIES_RECORD_T without its head.
    unfoldable pub record_of : Tallies R V → ℕ → ℕ → List ℕ
    record_of t b l =
        u32_bytes (key t b l) ++ (name_canonical ((t.heap b).defs l) ++ entry_bytes (t.entry b l))
