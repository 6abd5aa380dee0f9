-- ===== src/Nvol3/Entry.antt =====
-- The entry functions, which reach a record through an iterator: nvol3_entry_first to
-- nvol3_entry_delete. An iterator is known by the key of the node at which it stands; `none` is a null
-- pointer to an iterator.
pub mod Records
use qoraal_flash.Common.{
  ℕ, ◌+◌, ◌-◌, ◌==◌, Bool, true, false, Option, none, some, List, [], ◌∷◌, if◌then◌else◌, ltb, leb,
  ◌&&◌,
}
use qoraal_flash.Common.Word.{add32}
use qoraal_flash.Common.Run.{
  fail, e_parm, e_notfound, e_invalid, Result, ok, err, Run, done, stop, Cmd, and_then,
}
use qoraal_flash.Flash.{Platform}
use qoraal_flash.Nvol3.Dictionary.{Dictionary, Entry, Key}
use qoraal_flash.Nvol3.Volume.{Config, Record, World, max_records, with_vol, malloc, record_invalid}
use qoraal_flash.Nvol3.Slot.{set_variable_record_flags}
use qoraal_flash.Nvol3.Table.{record_from_entry}
use qoraal_flash.Nvol3.Set.{record_set}
use qoraal_flash.Nvol3.Swap.{swap_sectors, lookup}

module _ {Store : Type 0} (p : Platform Store) (D : Dictionary) (cfg : Config) where
  abbrev W : Type 0
  W = World D.Dict Store

  -- `if (!instance->dict || !it) return E_PARM`
  unfoldable pub at_iterator : {A : Type 0} → Option Key → W → (D.Dict → Key → Result A) → Result A
  at_iterator none w f = err e_parm
  at_iterator (some k) w f = elim w.vol.dict [ none ↦ err e_parm | some d ↦ f d k ]

  -- Where the iterator stands after nvol3_entry_first; the place before does not matter.
  unfoldable pub nvol3_entry_first : Option Key → W → Result Key
  nvol3_entry_first it w =
      at_iterator it w (λ d k. elim (D.nodes d) [ [] ↦ err fail | ◌∷◌ first rest ↦ ok first ])

  unfoldable pub nvol3_entry_next : Option Key → W → Result Key
  nvol3_entry_next it w =
      at_iterator it w (λ d k. elim (D.next_node d k) [ none ↦ err fail | some next ↦ ok next ])

  unfoldable pub nvol3_entry_at : List ℕ → Option Key → W → Result Key
  nvol3_entry_at bytes it w = at_iterator it w (λ d k. elim (D.get d (D.key_at bytes)) [
    | none ↦ err e_notfound
    | some e ↦ ok (D.key_at bytes)
  ])

  -- The length and the data in the cache.
  unfoldable pub nvol3_entry_data : Option Key → W → Result (ℕ × List ℕ)
  nvol3_entry_data it w = at_iterator it w (λ d k. elim (D.get d k) [
    | none ↦ err e_notfound
    | some e ↦ if ltb cfg.local_size e.length then err e_invalid else ok (e.length, e.local)
  ])

  unfoldable pub nvol3_entry_key : Option Key → W → Option (List ℕ)
  nvol3_entry_key none w = none
  nvol3_entry_key (some k) w = elim w.vol.dict [ none ↦ none | some d ↦ some (D.key_memory d k) ]

  -- `if (instance->next_idx >= max_records(instance))` of nvol3_entry_save, and where the iterator
  -- stands then.
  unfoldable pub save_space : Record → Key → Cmd W Key
  save_space value k w =
      if leb (max_records cfg) w.vol.next_idx
      then and_then (malloc w) (λ _ w1. elim (swap_sectors p D cfg w1) [
        | stop e w2 ↦ stop fail w2
        | done _ w2 ↦ elim (nvol3_entry_at value.key_and_data (some k) w2) [
          | err e ↦ stop e_notfound w2
          | ok j ↦ done j w2
        ]
      ])
      else done k w

  -- The record is assembled from the cache before anything else changes.
  unfoldable pub save_entry : D.Dict → Key → Entry → Cmd W (Unit {0})
  save_entry d k e w = and_then (malloc w) (λ _ w1. elim (record_from_entry D cfg k (some e)) [
    | err s ↦ stop s w1
    | ok value ↦ and_then (save_space value k w1) (λ j w2. elim (lookup p D cfg j w2) [
      | none ↦ stop e_notfound w2
      | some e' ↦ record_set p D cfg (some e') value.key_and_data value.head.length w2
    ])
  ])

  unfoldable pub nvol3_entry_save : Option Key → Cmd W (Unit {0})
  nvol3_entry_save none w = stop e_parm w
  nvol3_entry_save (some k) w = elim w.vol.dict [
    | none ↦ stop e_parm w
    | some d ↦ elim (D.get d k) [ none ↦ stop e_notfound w | some e ↦ save_entry d k e w ]
  ]

  -- The node is taken out of the dictionary; `if (dictionary_remove (...) == 0) status = E_NOTFOUND`.
  unfoldable pub remove_node : D.Dict → Key → Cmd W (Unit {0})
  remove_node d k w =
      let w' =
        with_vol
          (λ v. record v {
            inuse = if v.inuse == 0 then 0 else v.inuse - 1;
            invalid = add32 v.invalid 1;
            dict = some (D.remove d k);
          })
          w in
      if D.removed d k == 0 then stop e_notfound w' else done tt w'

  -- The flash first, the lookup table second.
  unfoldable pub delete_node : D.Dict → Key → Cmd W (Unit {0})
  delete_node d k w = elim (D.get d k) [
    | none ↦ stop e_notfound w
    | some e ↦
        and_then (set_variable_record_flags p cfg w.vol.sector record_invalid e.idx w)
          (λ _. remove_node d k)
  ]

  unfoldable pub nvol3_entry_delete : Option Key → Cmd W (Unit {0})
  nvol3_entry_delete none w = stop e_parm w
  nvol3_entry_delete (some k) w = elim w.vol.dict [
    | none ↦ stop e_parm w
    | some d ↦ delete_node d k w
  ]
