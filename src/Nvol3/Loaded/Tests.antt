-- ===== src/Nvol3/Loaded/Tests.antt =====
-- Loading the volume of the samples again from a formatted memory.
use qoraal_flash.Common.{◌+◌, ◌<◌, ◌≤◌, ℕ, ◌≡◌, take, length, arith, ltb, if◌then◌else◌}
use qoraal_flash.Flash.Simulator.{Memory, byte}
use qoraal_flash.Nvol3.Loaded.{IsLoaded}
use qoraal_flash.Nvol3.Loaded.Same.{IsLoaded-same}
use qoraal_flash.Nvol3.Tests.{eight_fit}
use qoraal_flash.Nvol3.Samples.{pairs, flash, small, small-Placed, erased, volume, erased-IsLoaded}

-- The flags VALID at the start of an erased memory.
abbrev pub formatted : Memory
formatted x = if ltb x 2 then 255 else if ltb x 4 then 170 else 255

pub behind_flags : (x : ℕ) → 0 + 32 ≤ x → x < 0 + 256 → byte formatted x ≡ byte erased x
behind_flags x lo hi = ground arith

abbrev formatted-IsLoaded : IsLoaded flash pairs small 0 (volume formatted)
formatted-IsLoaded =
    IsLoaded-same small-Placed (volume erased) (erased-IsLoaded (take 2) length small eight_fit)
      formatted behind_flags
