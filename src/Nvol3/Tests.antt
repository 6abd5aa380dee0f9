-- ===== src/Nvol3/Tests.antt =====
-- The volume of the samples at concrete inputs.
use qoraal_flash.Common.{
  ◌<◌, ◌≢◌, ℕ, ◌≡◌, refl, ap, ◌∙◌, some, List, [], ◌∷◌, arith, if◌then◌else◌, ◌==◌, take, length,
  ◌≤◌,
}
use qoraal_flash.Common.Run.{done, stop}
use qoraal_flash.Flash.Simulator.{byte}
use qoraal_flash.Nvol3.Volume.{World, max_records}
use qoraal_flash.Nvol3.Dictionary.{Key}
use qoraal_flash.Nvol3.Slot.Commit.{IsPayload}
use qoraal_flash.Nvol3.Sector.{construct_lookup_table, get_sector_version}
use qoraal_flash.Nvol3.Sector.Construct.{version_kept, IsBuilt, construct_lookup_table-IsBuilt}
use qoraal_flash.Nvol3.Set.{nvol3_record_delete, nvol3_record_get, callback}
use qoraal_flash.Nvol3.Swap.{nvol3_record_set}
use qoraal_flash.Nvol3.Loaded.{IsLoaded, contents, bytes_of}
use qoraal_flash.Common.Run.{e_version}
use qoraal_flash.Nvol3.Loaded.Set.{IsPut}
use qoraal_flash.Nvol3.Loaded.RecordSet.{nvol3_record_set-IsPut}
use qoraal_flash.Nvol3.Loaded.Delete.{IsRemoved, nvol3_record_delete-IsRemoved, outcome}
use qoraal_flash.Nvol3.Loaded.Get.{nvol3_record_get_lem, answer}
use qoraal_flash.Nvol3.Loaded.Reload.{restarted, construct_lookup_table-IsLoaded}
use qoraal_flash.Nvol3.Loaded.TwoValid.{nvol3_record_delete-two_valid, crashed}
use qoraal_flash.Flash.{qoraal_flash_read}
use qoraal_flash.Flash.Simulator.{platform_flash_read}
use qoraal_flash.Flash.Nor.{bytes_at}
use qoraal_flash.Nvol3.Entry.{nvol3_entry_delete, nvol3_entry_data}
use qoraal_flash.Nvol3.Entry.Records.{
  nvol3_entry_delete-IsRemoved, nvol3_entry_data_lem, data_answer,
}
use qoraal_flash.Nvol3.Loaded.Crash.{IsStepwise, record_set-crash}
use qoraal_flash.Nvol3.Samples.{
  pairs, pairs-IsMap, chip, flash, small, small-Placed, erased, volume, erased-IsLoaded,
  nothing_found,
}

abbrev pub W : Type 0
W = World pairs.Dict (ℕ → ℕ)

construct_lookup_table-IsBuilt_example :
    (w' : W) × IsBuilt flash pairs small 0 (byte erased) w'
    × (construct_lookup_table chip pairs small (volume erased) ≡ (
        if (get_sector_version chip small erased 0).0 == 0 then done tt w' else stop e_version w'))
construct_lookup_table-IsBuilt_example =
    construct_lookup_table-IsBuilt pairs-IsMap small-Placed (volume erased) [] refl refl refl

pub eight_fit : 8 ≤ small.record_size
eight_fit = omega arith

abbrev volume-IsLoaded : IsLoaded flash pairs small 0 (volume erased)
volume-IsLoaded = erased-IsLoaded (take 2) length small eight_fit

abbrev pub sample : List ℕ
sample = 1 ∷ 2 ∷ 3 ∷ 4 ∷ 5 ∷ []

pub sample-IsPayload : IsPayload small sample
sample-IsPayload = record {
  is_bytes = (omega arith, (omega arith, (omega arith, (omega arith, (omega arith, tt)))));
  fits = omega arith;
  has_key = omega arith;
  slot_fits = omega arith;
}

-- The keys of the samples are the first two bytes.
take_twice : (bytes : List ℕ) → take 2 (take 2 bytes) ≡ take 2 bytes
take_twice [] = refl
take_twice (x ∷ []) = refl
take_twice (x ∷ y ∷ rest) = refl

-- A volume with one record.
set_once :
    (w' : W) × (nvol3_record_set chip pairs small sample 5 (volume erased) ≡ done tt w')
    × IsPut flash pairs small 0 sample (volume erased) w'
unfolding max_records callback erased-IsLoaded
set_once =
    nvol3_record_set-IsPut pairs-IsMap small-Placed sample sample-IsPayload (volume erased)
      volume-IsLoaded (omega arith) (omega arith) refl (omega arith)

nvol3_record_set-IsPut_example :
    (w' : W) × (nvol3_record_set chip pairs small sample 5 (volume erased) ≡ done tt w')
    × IsPut flash pairs small 0 sample (volume erased) w'
unfolding max_records callback erased-IsLoaded
nvol3_record_set-IsPut_example =
    nvol3_record_set-IsPut pairs-IsMap small-Placed sample sample-IsPayload (volume erased)
      volume-IsLoaded (omega arith) (omega arith) refl (omega arith)

nvol3_record_delete-IsRemoved_example :
    (w' : W) × (nvol3_record_delete chip pairs small sample set_once.0
      ≡ outcome (contents flash pairs small 0 set_once.0 (1 ∷ 2 ∷ [])) w')
    × IsRemoved flash pairs small 0 (1 ∷ 2 ∷ []) set_once.0 w'
nvol3_record_delete-IsRemoved_example =
    nvol3_record_delete-IsRemoved pairs-IsMap small-Placed sample set_once.0 set_once.2.loaded

nvol3_record_get_lem_example :
    nvol3_record_get chip pairs small sample set_once.0
    ≡ answer (contents flash pairs small 0 set_once.0 (1 ∷ 2 ∷ []))
nvol3_record_get_lem_example =
    nvol3_record_get_lem (λ d bytes. take_twice bytes) small-Placed sample set_once.0
      set_once.2.loaded

nothing_held : contents flash pairs small 0 (volume erased) (1 ∷ 2 ∷ []) ≢ some sample
unfolding contents
nothing_held e = cc (
  e,
  ap bytes_of (nothing_found (take 2) length small eight_fit (max_records small) (1 ∷ 2 ∷ [])),
)

record_set-crash_example :
    (wa : W) × (wb : W) × (w' : W) × IsStepwise flash pairs small 0 sample (volume erased) wa wb w'
unfolding max_records callback erased-IsLoaded
record_set-crash_example =
    record_set-crash pairs-IsMap small-Placed sample sample-IsPayload (volume erased)
      volume-IsLoaded (omega arith) (omega arith) refl (omega arith) nothing_held

erased_version : (get_sector_version chip small erased 0).0 ≡ 0
unfolding get_sector_version qoraal_flash_read platform_flash_read bytes_at
erased_version = refl

set_version : (get_sector_version chip small set_once.0.store 0).0 ≡ 0
set_version =
    ap (λ x. x.0)
      (version_kept flash small 0 small-Placed erased set_once.0.store set_once.2.outside)
    ∙ erased_version

second_slot : set_once.0.vol.next_idx < max_records small
unfolding max_records
second_slot = omega (arith, set_once.2.next_near)

-- Other bytes under the key of the sample.
abbrev changed : List ℕ
changed = 1 ∷ 2 ∷ 9 ∷ []

changed-IsPayload : IsPayload small changed
changed-IsPayload = record {
  is_bytes = (omega arith, (omega arith, (omega arith, tt)));
  fits = omega arith;
  has_key = omega arith;
  slot_fits = omega arith;
}

construct_lookup_table-IsLoaded_example :
    (w' : W) × (construct_lookup_table chip pairs small (restarted set_once.0 (volume erased).vol)
      ≡ done tt w')
    × IsLoaded flash pairs small 0 w'
    × ((k : Key) → contents flash pairs small 0 w' k ≡ contents flash pairs small 0 set_once.0 k)
construct_lookup_table-IsLoaded_example =
    construct_lookup_table-IsLoaded pairs-IsMap small-Placed set_once.0 set_once.2.loaded
      (volume erased).vol [] refl refl set_version

nvol3_record_delete-two_valid_example :
    (v : W) × (v' : W) × (construct_lookup_table chip pairs small
        (crashed flash small 0 changed set_once.0 (volume erased).vol)
      ≡ done tt v)
    × (nvol3_record_delete chip pairs small changed v ≡ done tt v')
    × ((k : Key) → contents flash pairs small 0 v' k ≡ contents flash pairs small 0 set_once.0 k)
nvol3_record_delete-two_valid_example =
    nvol3_record_delete-two_valid pairs-IsMap small-Placed changed changed-IsPayload set_once.0
      set_once.2.loaded second_slot (volume erased).vol [] refl refl set_version

nvol3_entry_delete-IsRemoved_example :
    (w' : W) × (nvol3_entry_delete chip pairs small (some (1 ∷ 2 ∷ [])) set_once.0
      ≡ outcome (contents flash pairs small 0 set_once.0 (1 ∷ 2 ∷ [])) w')
    × IsRemoved flash pairs small 0 (1 ∷ 2 ∷ []) set_once.0 w'
nvol3_entry_delete-IsRemoved_example =
    nvol3_entry_delete-IsRemoved pairs-IsMap small-Placed sample set_once.0 set_once.2.loaded

nvol3_entry_data_lem_example :
    nvol3_entry_data chip pairs small (some (1 ∷ 2 ∷ [])) set_once.0
    ≡ data_answer small (contents flash pairs small 0 set_once.0 (1 ∷ 2 ∷ []))
nvol3_entry_data_lem_example =
    nvol3_entry_data_lem small-Placed set_once.0 set_once.2.loaded (1 ∷ 2 ∷ [])
