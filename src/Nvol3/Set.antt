-- ===== src/Nvol3/Set.antt =====
-- Writing, reading and deleting records through the lookup table: record_set, record_get and the
-- nvol3_record functions, without the swap of sectors.
use qoraal_flash.Common.{
  ℕ, zero, suc, ◌+◌, ◌-◌, Option, none, some, List, [], ◌∷◌, ◌++◌, take, ltb, leb, ◌==◌,
  if◌then◌else◌,
}
use qoraal_flash.Common.Word.{add32, sub32, ℤ, pos}
use qoraal_flash.Common.Run.{
  Status, eok, fail, undefined, e_notfound, Result, ok, err, Run, done, stop, Cmd, state_of,
  and_then, bind,
}
use qoraal_flash.Flash.{Platform}
use qoraal_flash.Nvol3.Dictionary.{Dictionary, Entry, Key}
use qoraal_flash.Nvol3.Volume.{
  Config, Record, World, u16, max_records, headroom, with_vol, malloc, record_new, record_valid,
  record_invalid, invalid_var_idx,
}
use qoraal_flash.Nvol3.Slot.{
  read_variable_record, read_record_head, write_variable_record, set_variable_record_flags,
  checksum_of,
}
use qoraal_flash.Nvol3.Table.{insert_lookup_table, with_dict}
use qoraal_flash.Nvol3.Sector.{count_inuse, count_invalid, count_error}

-- `num_same_bytes` after the loop over two buffers: the bytes before the first difference.
unfoldable pub same_bytes : ℕ → List ℕ → List ℕ → ℕ
same_bytes zero xs ys = 0
same_bytes (suc n) [] ys = 0
same_bytes (suc n) (x ∷ xs) [] = 0
same_bytes (suc n) (x ∷ xs) (y ∷ ys) =
    let rest = same_bytes n xs ys in if x == y then suc rest else 0

-- `num_same_bytes` against what the old slot holds.
unfoldable pub num_same_bytes : ℕ → List ℕ → Result Record → ℕ
num_same_bytes n bytes (err e) = 0
num_same_bytes n bytes (ok old) =
    if n == old.head.length then same_bytes n bytes old.key_and_data else 0

-- The record with the head that record_set fills in.
unfoldable pub stamped : ℕ → List ℕ → Record
stamped n bytes = record {
  head = record {
    flags = record_new;
    length = u16 n;
    checksum = checksum_of n bytes;
    reserved = 0xFFFF;
  };
  key_and_data = bytes;
}

module _ {Store : Type 0} (p : Platform Store) (D : Dictionary) (cfg : Config) where
  abbrev pub W : Type 0
  W = World D.Dict Store

  abbrev pub next_slot : W → W
  next_slot = with_vol (λ v. record v { next_idx = u16 (v.next_idx + 1) })

  -- `if (config->write_cb) ...`
  unfoldable pub callback : Record → Cmd W (Unit {0})
  callback rec w = elim cfg.write_cb [
    | none ↦ done tt w
    | some cb ↦ elim (cb rec) [ eok ↦ done tt w | e ↦ stop e w ]
  ]

  -- A record that could not be written: its slot is marked and given up.
  unfoldable pub write_failed : Status → W → Run W (Unit {0})
  write_failed e w = stop e (
      count_error p D cfg (
        count_invalid p D cfg (
          next_slot (
            state_of
              (set_variable_record_flags p cfg w.vol.sector record_invalid w.vol.next_idx w)))))

  -- `if (idx != NVOL3_INVALID_VAR_IDX)`: the record that is replaced is marked; a failure is ignored.
  unfoldable pub retire : ℕ → W → W
  retire idx w =
      if idx == invalid_var_idx
      then w
      else let w' = state_of (set_variable_record_flags p cfg w.vol.sector record_invalid idx w) in
        count_invalid p D cfg (with_vol (λ v. record v { inuse = sub32 v.inuse 1 }) w')

  -- The part of record_set behind the write of the record: it is committed, the old one is retired,
  -- and the lookup table follows.
  unfoldable pub commit : Record → ℕ → Cmd W (Unit {0})
  commit rec idx w =
      elim (set_variable_record_flags p cfg w.vol.sector record_valid w.vol.next_idx w) [
        | stop e w' ↦ stop e (next_slot w')
        | done _ w' ↦
            let w'' = retire idx (count_inuse p D cfg (next_slot w')) in
            insert_lookup_table D cfg rec (u16 (w''.vol.next_idx + 65535)) w''
      ]

  -- The part of record_set that writes.
  unfoldable pub write_new : Record → ℕ → Cmd W (Unit {0})
  write_new rec idx w = and_then (callback rec w) (λ _ w1.
      elim (write_variable_record p cfg w1.vol.sector rec w1.vol.next_idx w1) [
        | stop e w2 ↦ write_failed e w2
        | done _ w2 ↦ commit rec idx w2
      ])

  -- A record with the bytes that it has already is not written again.
  unfoldable pub write_changed : ℕ → List ℕ → ℕ → ℕ → Cmd W (Unit {0})
  write_changed same bytes n idx w =
      if same == n then done tt w else write_new (stamped n bytes) idx w

  -- record_set for a given dictionary.
  unfoldable pub set_in : D.Dict → Option Entry → List ℕ → ℕ → Cmd W (Unit {0})
  set_in d entry bytes n w =
      if ltb (sub32 cfg.record_size 8) n
      then stop fail w
      else if leb (sub32 (max_records cfg) headroom) (D.count d)
      then stop fail w
      else elim entry [
        | none ↦ write_changed 0 bytes n invalid_var_idx w
        | some e ↦ and_then (malloc w) (λ _ w'.
            write_changed
              (num_same_bytes n bytes (read_variable_record p cfg w'.store w'.vol.sector e.idx))
              bytes n e.idx w')
      ]

  unfoldable pub record_set : Option Entry → List ℕ → ℕ → Cmd W (Unit {0})
  record_set entry bytes n = with_dict D cfg (λ d. set_in d entry bytes n)

  -- record_get: the returned length and the bytes in the caller's buffer.
  unfoldable pub get_cached : D.Dict → Key → Entry → W → Result (ℤ × List ℕ)
  get_cached d key e w =
      if leb e.length cfg.local_size
      then ok (
        pos (e.length + cfg.key_size),
        take cfg.key_size (D.key_memory d key) ++ take e.length e.local,
      )
      else if e.idx == invalid_var_idx
      then err e_notfound
      else bind (read_variable_record p cfg w.store w.vol.sector e.idx)
          (λ rec. ok (pos rec.head.length, rec.key_and_data))

  unfoldable pub record_get : Key → W → Result (ℤ × List ℕ)
  record_get key w = elim w.vol.dict [
    | none ↦ err undefined
    | some d ↦ elim (D.get d key) [ none ↦ err e_notfound | some e ↦ get_cached d key e w ]
  ]

  unfoldable pub nvol3_record_get : List ℕ → W → Result (ℤ × List ℕ)
  nvol3_record_get bytes = record_get (D.key_at bytes)

  -- nvol3_record_delete for a given dictionary.
  unfoldable pub delete_in : D.Dict → List ℕ → Cmd W (Unit {0})
  delete_in d bytes w = elim (D.get d (D.key_at bytes)) [
    | none ↦ stop e_notfound w
    | some e ↦
        and_then (set_variable_record_flags p cfg w.vol.sector record_invalid e.idx w) (λ _ w'.
          done tt (
            with_vol
              (λ v. record v {
                inuse = if v.inuse == 0 then 0 else v.inuse - 1;
                invalid = add32 v.invalid 1;
                dict = some (D.remove d (D.key_at bytes));
              })
              w'))
  ]

  unfoldable pub nvol3_record_delete : List ℕ → Cmd W (Unit {0})
  nvol3_record_delete bytes = with_dict D cfg (λ d. delete_in d bytes)

  unfoldable pub nvol3_record_status : List ℕ → W → Status
  nvol3_record_status key w = elim w.vol.dict [
    | none ↦ undefined
    | some d ↦ elim (D.get d (D.key_at key)) [ none ↦ e_notfound | some e ↦ eok ]
  ]

  unfoldable pub nvol3_record_key_and_data_length : List ℕ → W → Result ℕ
  nvol3_record_key_and_data_length key w = elim w.vol.dict [
    | none ↦ err undefined
    | some d ↦ elim (D.get d (D.key_at key)) [
      | none ↦ err fail
      | some e ↦ elim (read_record_head p cfg w.store w.vol.sector e.idx) [
        | ok h ↦ ok h.length
        | err e' ↦ err fail
      ]
    ]
  ]
