-- ===== src/Nvol3/Table.antt =====
-- The lookup table: insert_lookup_table, retrieve_lookup_table and record_from_entry.
use qoraal_flash.Common.{
  ℕ, ◌+◌, ◌-◌, Bool, false, Option, none, some, List, [], ◌++◌, length, take, drop, replicate, ltb,
  ◌==◌, if◌then◌else◌, ◌≡◌, ap,
}
use qoraal_flash.Common.Word.{sub32}
use qoraal_flash.Common.Run.{
  undefined, e_notfound, e_invalid, Result, ok, err, Cmd, stop, done, and_then,
}
use qoraal_flash.Nvol3.Dictionary.{Dictionary, Entry, Key}
use qoraal_flash.Nvol3.Volume.{Config, Record, World, u16, with_vol, malloc, record_valid}
use qoraal_flash.Nvol3.Slot.{checksum_of}

-- `localsize`: the bytes of the data that are cached, all or none.
unfoldable pub cached_size : Config → ℕ → ℕ
cached_size cfg size = if ltb cfg.local_size size then 0 else size

-- The data of a record.
unfoldable pub data_of : Config → Record → List ℕ
data_of cfg rec = drop cfg.key_size rec.key_and_data

-- `entry->idx`, `entry->length` and `entry->local` of a record in a slot, over what `local` holds.
unfoldable pub entry_of : Config → Record → ℕ → List ℕ → Entry
entry_of cfg rec idx local =
    let size = sub32 rec.head.length cfg.key_size in
    record {
      idx = idx;
      length = u16 size;
      local =
          if cached_size cfg size == 0
          then local
          else take (cached_size cfg size) (data_of cfg rec);
    }

module _ (D : Dictionary) (cfg : Config) where
  abbrev pub key_of : Record → Key
  key_of rec = D.key_at rec.key_and_data

  -- An entry whose cache has the right size is assigned to, any other one is replaced.
  unfoldable pub same_size : Record → Option Entry → Bool
  same_size rec none = false
  same_size rec (some e) =
      cached_size cfg e.length == cached_size cfg (sub32 rec.head.length cfg.key_size)

  -- The cache of the entry that is kept.
  abbrev pub local_of : Option Entry → List ℕ
  local_of none = []
  local_of (some e) = e.local

  module _ {Store : Type 0} where
    -- insert_lookup_table for a given dictionary.
    unfoldable pub insert_in : D.Dict → Record → ℕ → Cmd (World D.Dict Store) (Unit {0})
    insert_in d rec idx w =
        let key = key_of rec in
        if same_size rec (D.get d key)
        then done tt (
            with_vol
              (λ v. record v {
                dict = some (D.assign d key (entry_of cfg rec idx (local_of (D.get d key))));
              })
              w)
        else and_then (malloc (with_vol (λ v. record v { dict = some (D.remove d key) }) w))
            (λ _ w'. done tt (
              with_vol
                (λ v. record v {
                  dict = some (D.install (D.remove d key) key (entry_of cfg rec idx []));
                })
                w'))

  -- record_from_entry
  unfoldable pub record_from_entry : Key → Option Entry → Result Record
  record_from_entry key none = err e_notfound
  record_from_entry key (some e) =
      if ltb cfg.local_size e.length
      then err e_invalid
      else let bytes =
          take cfg.key_size key
          ++ replicate (cfg.key_size - length key) 0
          ++ take e.length e.local in
        let size = u16 (cfg.key_size + e.length) in
        ok (record {
          head = record {
            flags = record_valid;
            length = size;
            checksum = checksum_of size bytes;
            reserved = 0xFFFF;
          };
          key_and_data = bytes;
        })

module _ (D : Dictionary) (cfg : Config) {Store : Type 0} where
  -- A dictionary function on a null dictionary has no defined result.
  unfoldable pub with_dict :
      {A : Type 0} → (D.Dict → Cmd (World D.Dict Store) A) → Cmd (World D.Dict Store) A
  with_dict f w = elim w.vol.dict [ none ↦ stop undefined w | some d ↦ f d w ]

  unfoldable pub insert_lookup_table : Record → ℕ → Cmd (World D.Dict Store) (Unit {0})
  insert_lookup_table rec idx = with_dict (λ d. insert_in D cfg d rec idx)

  pub with_dict_lem :
      {A : Type 0} (f : D.Dict → Cmd (World D.Dict Store) A) (w : World D.Dict Store) {d : D.Dict}
      → w.vol.dict ≡ some d
      → with_dict f w ≡ f d w
  unfolding with_dict
  with_dict_lem f w e = ap (λ o. elim o [ none ↦ stop undefined w | some d ↦ f d w ]) e
