-- ===== src/Nvol3/Slot/Write.antt =====
-- write_variable_record and set_variable_record_flags on a working flash, and the record in a slot
-- after them.
use qoraal_flash.Common.{
  ℕ, suc, ◌+◌, ◌*◌, ◌/◌, ◌%◌, ◌≤◌, ◌<◌, ◌≡◌, refl, false, List, [], ◌∷◌, ◌++◌, arith, length, take,
  ◌==◌, leb, length-take,
}
use qoraal_flash.Common.Bits.{bit_and-zero}
use qoraal_flash.Common.Run.{e_invalid, err, done}
use qoraal_flash.Flash.{Platform}
use qoraal_flash.Flash.Nor.{NorFlash, bytes_at, programmed}
use qoraal_flash.Flash.Nor.Ranges.{and_bytes, bytes_at-programmed}
use qoraal_flash.Nvol3.Volume.{
  Config, Head, Record, World, max_records, u16_bytes, head_bytes, record_invalid,
}
use qoraal_flash.Nvol3.Slot.{
  head_of_bytes, head_status, flags_status, write_variable_record, set_variable_record_flags,
}
use qoraal_flash.Nvol3.Slot.Read.{Placed, slot_at, record_at, slot_room, slot_addr_lem}

-- What write_variable_record writes.
abbrev pub written : Record → List ℕ
written rec = head_bytes rec.head ++ take rec.head.length rec.key_and_data

pub length-written :
    (rec : Record)
    → length rec.key_and_data ≡ rec.head.length
    → length (written rec) ≡ 8 + rec.head.length
unfolding head_bytes u16_bytes
length-written rec h = omega (arith, length-take rec.head.length rec.key_and_data)

module _ {Store : Type 0} {p : Platform Store} {F : NorFlash p} {cfg : Config} {sector : ℕ}
    (pl : Placed F cfg sector) (i : ℕ) (h : i < max_records cfg) {Dict : Type 0}
    (w : World Dict Store) where
  pub write_variable_record_lem :
      (rec : Record)
      → (rec.head.flags == 0) ≡ false
      → length rec.key_and_data ≡ rec.head.length
      → 8 + rec.head.length ≤ cfg.record_size
      → write_variable_record p cfg sector rec i w
        ≡ done tt (record w { store = F.program w.store (slot_at cfg sector i) (written rec) })
  unfolding write_variable_record
  write_variable_record_lem rec some_flags same fits =
      let test : leb (max_records cfg) i ≡ false = ground arith in
      let inside : slot_at cfg sector i + length (written rec) < F.size =
        omega (arith, length-written rec same, slot_room pl i h, pl.in_flash) in
      rw
        (
          test,
          some_flags,
          slot_addr_lem pl i h,
          F.write_ok w.store (slot_at cfg sector i) (written rec) inside,
        )
        refl

  pub set_variable_record_flags_lem :
      (flags : ℕ)
      → set_variable_record_flags p cfg sector flags i w
        ≡ done tt (record w { store = F.program w.store (slot_at cfg sector i) (u16_bytes flags) })
  unfolding set_variable_record_flags u16_bytes
  set_variable_record_flags_lem flags =
      let test : leb (max_records cfg) i ≡ false = ground arith in
      let inside : slot_at cfg sector i + 2 < F.size =
        omega (arith, slot_room pl i h, pl.in_flash, pl.head_fits) in
      rw
        (
          test,
          slot_addr_lem pl i h,
          F.write_ok w.store (slot_at cfg sector i) (u16_bytes flags) inside,
        )
        refl

-- A head whose fields fit into 16 bits is read back.
pub record IsHead (h : Head) : Type 0 where
  pub flags_fit : h.flags < 65536
  pub length_fits : h.length < 65536
  pub checksum_fits : h.checksum < 65536
  pub reserved_fits : h.reserved < 65536

pub head_of_bytes-head_bytes :
    (h : Head) (rest : List ℕ) → IsHead h → head_of_bytes (head_bytes h ++ rest) ≡ h
unfolding head_of_bytes head_bytes u16_bytes
head_of_bytes-head_bytes h rest ok_head =
    let join : (x : ℕ) → x < 65536 → x % 256 + 256 * ((x / 256) % 256) ≡ x = λ x hx. omega arith in
    cc (
      join h.flags ok_head.flags_fit,
      join h.length ok_head.length_fits,
      join h.checksum ok_head.checksum_fits,
      join h.reserved ok_head.reserved_fits,
    )

-- The record in a slot with the flags INVALID is invalid, whatever else is in it.
pub record_at-invalid :
    (cfg : Config) (c : ℕ → ℕ) (a : ℕ)
    → record_at cfg (programmed c a (u16_bytes record_invalid)) a ≡ err e_invalid
unfolding record_at u16_bytes bytes_at and_bytes head_of_bytes head_status flags_status
record_at-invalid cfg c a =
    let cleared = bytes_at-programmed c a (0 ∷ 0 ∷ []) in
    let low : programmed c a (0 ∷ 0 ∷ []) a ≡ 0 = cc (cleared, bit_and-zero (c a)) in
    let high : programmed c a (0 ∷ 0 ∷ []) (suc a) ≡ 0 = cc (cleared, bit_and-zero (c (suc a))) in
    rw (low, high) refl
