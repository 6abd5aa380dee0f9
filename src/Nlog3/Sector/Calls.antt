-- ===== src/Nlog3/Sector/Calls.antt =====
-- The writing commands on a working flash.
use qoraal_flash.Common.{ℕ, ◌+◌, ◌<◌, ◌≡◌, List, arith, leb, length, drop, length-drop, ◌%◌, false}
use qoraal_flash.Common.Word.{u32_bytes, u32_mod}
use qoraal_flash.Common.Run.{done}
use qoraal_flash.Flash.{Platform}
use qoraal_flash.Flash.Nor.{NorFlash}
use qoraal_flash.Nlog3.Layout.{World}
use qoraal_flash.Nlog3.Sector.{flash_write, write_u32, write_pending_header}

module _ {Store : Type 0} {p : Platform Store} (F : NorFlash p) where
  pub flash_write-done :
      (a : ℕ) (bs : List ℕ) (w : World Store)
      → a + length bs < F.size
      → flash_write p a bs w ≡ done tt (record w { store = F.program w.store a bs })
  unfolding flash_write
  flash_write-done a bs w h = rw (F.write_ok w.store a bs h)

  pub write_u32-done :
      (a v : ℕ) (w : World Store)
      → a + 4 < F.size
      → write_u32 p a v w ≡ done tt (record w { store = F.program w.store a (u32_bytes v) })
  unfolding write_u32
  write_u32-done a v w h = flash_write-done a (u32_bytes v) w h

  pub write_pending_header-done :
      (a : ℕ) (header : List ℕ) (v : ℕ) (w : World Store)
      → 4 < length header
      → a + length header < F.size
      → a + 4 < u32_mod
      → write_pending_header p a header v w
        ≡ done tt (record w {
          store = F.program (F.program w.store a (u32_bytes v)) (a + 4) (drop 4 header);
        })
  unfolding write_pending_header
  write_pending_header-done a header v w long fits small =
      let sum : (a + 4) % u32_mod ≡ a + 4 = omega arith in
      let test : leb (length header) 4 ≡ false = ground arith in
      rw (test, write_u32-done a v w (omega arith), sum)
        (flash_write-done (a + 4) (drop 4 header)
          (record w { store = F.program w.store a (u32_bytes v) })
          (omega (arith, length-drop 4 header)))
