-- ===== src/Tallies/OnVolume/RestartTests.antt =====
-- The counters of the samples across a restart, on a formatted volume of nvol3.
use qoraal_flash.Common.{ℕ, ◌≡◌, refl, ap, true, false, inl, take, arith}
use qoraal_flash.Common.Run.{eok}
use qoraal_flash.Nvol3.Volume.{World, max_records}
use qoraal_flash.Nvol3.Sector.{get_sector_version}
use qoraal_flash.Nvol3.Loaded.{IsLoaded}
use qoraal_flash.Nvol3.Loaded.Same.{IsLoaded-same, IsOther}
use qoraal_flash.Nvol3.Load.{nvol3_validate, known, valid, sector_state}
use qoraal_flash.Nvol3.Loaded.Tests.{formatted, behind_flags}
use qoraal_flash.Nvol3.Samples.{
  chip, flash, erased, volume, erased-IsLoaded, Pairs, pairs_with-IsMap,
}
use qoraal_flash.Tallies.{Tallies, record_len, rounds, locals}
use qoraal_flash.Tallies.Register.{block_find}
use qoraal_flash.Tallies.Counters.{IsCounter}
use qoraal_flash.Tallies.Persist.Drain.{IsReady}
use qoraal_flash.Tallies.Lifecycle.{tallies_start, tallies_stop}
use qoraal_flash.Tallies.OnVolume.Store.{volume_store}
use qoraal_flash.Tallies.OnVolume.Reopened.{tallies_start-tallies_stop}
use qoraal_flash.Tallies.Persist.{tallies_persist_bounded}
use qoraal_flash.Tallies.Lifecycle.Restart.{halted}
use qoraal_flash.Tallies.Samples.{rtc, codec, counting, counting-IsSound}
use qoraal_flash.Tallies.OnVolume.{volume_calls}
use qoraal_flash.Tallies.OnVolume.Tests.{
  ids, roomy, roomy-Placed, eight_fit, distinct, ids-HasIds, roomy-keeps, roomy-IsConfig,
}

abbrev on_formatted : Tallies rtc (World Pairs (ℕ → ℕ))
on_formatted = record {
  inst = true;
  vol = volume formatted;
  blocks = counting.blocks;
  started = true;
  mismatched = 0;
  scratch = true;
  heap = counting.heap;
  entry = counting.entry;
  dirty = counting.dirty;
}

formatted-IsLoaded : IsLoaded flash ids roomy 0 (volume formatted)
formatted-IsLoaded =
    IsLoaded-same roomy-Placed (volume erased) (erased-IsLoaded (take 4) distinct roomy eight_fit)
      formatted behind_flags

flags_kept :
    get_sector_version chip roomy
      (tallies_persist_bounded
        (volume_calls chip ids roomy)
        0
        (halted (volume_calls chip ids roomy) on_formatted)).1.vol.store
      0
    ≡ (0, 0xAAAA_FFFF)
unfolding get_sector_version qoraal_flash.Flash.qoraal_flash_read
    qoraal_flash.Flash.Simulator.platform_flash_read
    qoraal_flash.Flash.Simulator.platform_flash_write qoraal_flash.Flash.Nor.bytes_at
    tallies_persist_bounded qoraal_flash.Tallies.Persist.visit_all rounds
    qoraal_flash.Tallies.locals qoraal_flash.Tallies.Persist.visit
    qoraal_flash.Tallies.Persist.entry_write qoraal_flash.Tallies.Persist.write_claimed
    qoraal_flash.Tallies.Persist.hand_back qoraal_flash.Tallies.Persist.is_eok
    qoraal_flash.Tallies.Persist.write_out qoraal_flash.Nvol3.Swap.nvol3_record_set
    qoraal_flash.Nvol3.Swap.make_space max_records qoraal_flash.Flash.qoraal_flash_write
    qoraal_flash.Flash.Nor.programmed qoraal_flash.Nvol3.Sector.counted
    qoraal_flash.Nvol3.Set.callback qoraal_flash.Nvol3.Set.commit
    qoraal_flash.Nvol3.Set.num_same_bytes qoraal_flash.Nvol3.Set.record_set
    qoraal_flash.Nvol3.Set.retire qoraal_flash.Nvol3.Set.same_bytes qoraal_flash.Nvol3.Set.set_in
    qoraal_flash.Nvol3.Set.stamped qoraal_flash.Nvol3.Set.write_changed
    qoraal_flash.Nvol3.Set.write_failed qoraal_flash.Nvol3.Set.write_new
    qoraal_flash.Nvol3.Slot.checksum_of qoraal_flash.Nvol3.Slot.flags_status
    qoraal_flash.Nvol3.Slot.head_of_bytes qoraal_flash.Nvol3.Slot.head_status
    qoraal_flash.Nvol3.Slot.read_checked qoraal_flash.Nvol3.Slot.read_data
    qoraal_flash.Nvol3.Slot.read_variable_record qoraal_flash.Nvol3.Slot.set_variable_record_flags
    qoraal_flash.Nvol3.Slot.sum_bytes qoraal_flash.Nvol3.Slot.variable_record_valid
    qoraal_flash.Nvol3.Slot.write_variable_record qoraal_flash.Nvol3.Swap.lookup
    qoraal_flash.Nvol3.Table.cached_size qoraal_flash.Nvol3.Table.data_of
    qoraal_flash.Nvol3.Table.entry_of qoraal_flash.Nvol3.Table.insert_in
    qoraal_flash.Nvol3.Table.insert_lookup_table qoraal_flash.Nvol3.Table.same_size
    qoraal_flash.Nvol3.Table.with_dict qoraal_flash.Nvol3.Volume.head_bytes
    qoraal_flash.Nvol3.Volume.malloc qoraal_flash.Nvol3.Volume.slot_addr
    qoraal_flash.Nvol3.Volume.u16_bytes qoraal_flash.Tallies.Persist.claim
    qoraal_flash.Tallies.name_canonical qoraal_flash.Tallies.record_of
    qoraal_flash.Nvol3.Dictionary.same_key
flags_kept = refl

accepted :
    nvol3_validate chip ids roomy
      (tallies_persist_bounded
        (volume_calls chip ids roomy)
        0
        (halted (volume_calls chip ids roomy) on_formatted)).1.vol.store
    ≡ eok
unfolding nvol3_validate known
accepted = rw (nvol3_validate, flags_kept) refl

is_valid :
    sector_state
      (get_sector_version chip roomy
        (tallies_persist_bounded
          (volume_calls chip ids roomy)
          0
          (halted (volume_calls chip ids roomy) on_formatted)).1.vol.store
        0).1
    ≡ valid
unfolding sector_state
is_valid = ap (λ x. sector_state x.1) flags_kept

second_sector : IsOther flash roomy 0 256
second_sector = record {
  from = refl;
  to = refl;
  some_bytes = omega arith;
  in_flash = omega arith;
  in_space = omega arith;
  apart = inl (omega arith);
}

on_formatted-IsReady :
    IsReady
      (volume_store
        (pairs_with-IsMap (take 4) distinct)
        ids-HasIds
        roomy-keeps
        roomy-Placed
        (record_len rtc)
        roomy-IsConfig)
      on_formatted
      3
unfolding rounds locals max_records
on_formatted-IsReady = record {
  scratch = refl;
  inst = refl;
  sound = record {
    apart = counting-IsSound.apart;
    words = counting-IsSound.words;
    texts = counting-IsSound.texts;
  };
  good = (formatted-IsLoaded, omega arith);
  kept = λ b l i h. cc;
  small = omega arith;
}

counter : IsCounter on_formatted.heap on_formatted.blocks (2, 0)
unfolding block_find
counter = (refl, omega arith)

tallies_start-tallies_stop_example :
    let again =
      tallies_start
        (volume_calls chip ids roomy)
        (tallies_stop (volume_calls chip ids roomy) on_formatted) in
    (again.0 ≡ eok) × (again.1.entry 2 0 ≡ on_formatted.entry 2 0) × (again.1.dirty 2 0 ≡ false)
unfolding rounds locals
tallies_start-tallies_stop_example =
    tallies_start-tallies_stop codec (pairs_with-IsMap (take 4) distinct) ids-HasIds roomy-keeps
      roomy-Placed second_sector roomy-IsConfig on_formatted 3 on_formatted-IsReady refl
      (omega arith) accepted (ap (λ x. x.0) flags_kept) (inl (refl, refl, is_valid)) 2 0 counter
