-- ===== src/Nvol3/Slot/Read.antt =====
-- What read_variable_record finds in the memory of a working flash.
use native.Mathlib.Nat.{mul-div-le}
use qoraal_flash.Common.{
  ℕ, ◌+◌, ◌*◌, ◌≤◌, ◌<◌, ◌≡◌, refl, sym, ap, inl, inr, false, arith, leb, ◌==◌, mul_room,
  Bool-cases,
}
use qoraal_flash.Common.Word.{u32_mod, add32, sub32}
use qoraal_flash.Common.Run.{eok, Result, ok, check, bind, check-cases}
use qoraal_flash.Flash.{Platform}
use qoraal_flash.Flash.Nor.{NorFlash, bytes_at}
use qoraal_flash.Nvol3.Volume.{Config, Head, Record, max_records, slot_addr, page_size}
use qoraal_flash.Nvol3.Slot.{
  head_of_bytes, head_status, flags_status, read_data, read_checked, read_variable_record,
}

-- A sector that lies within a working flash, with slots that the 16-bit index reaches.
pub record Placed {Store : Type 0} {p : Platform Store} (F : NorFlash p) (cfg : Config) (sector : ℕ)
    : Type 0 where
  pub head_fits : 8 ≤ cfg.record_size
  pub record_size_fits : cfg.record_size < 65536
  pub page_fits : page_size ≤ cfg.sector_size
  pub in_flash : sector + cfg.sector_size < F.size
  pub in_space : sector + cfg.sector_size < u32_mod
  pub few : max_records cfg < 65536

-- The address of a slot without its wrap-around.
abbrev pub slot_at : Config → ℕ → ℕ → ℕ
slot_at cfg sector i = sector + page_size + cfg.record_size * i

-- The record in the memory from `a` on.
unfoldable pub record_at : Config → (ℕ → ℕ) → ℕ → Result Record
record_at cfg c a =
    let h = head_of_bytes (bytes_at c a 8) in
    bind (check (head_status cfg h) h)
      (λ h. ok (record { head = h; key_and_data = bytes_at c (a + 8) h.length }))

-- The length of a record that has passed the checks.
pub head_status-eok :
    (cfg : Config) (h : Head)
    → head_status cfg h ≡ eok
    → (h.length ≤ sub32 cfg.record_size 8) × (cfg.key_size ≤ h.length)
unfolding head_status flags_status
head_status-eok cfg h e = ground arith

module _ {Store : Type 0} {p : Platform Store} {F : NorFlash p} {cfg : Config} {sector : ℕ}
    (pl : Placed F cfg sector) (i : ℕ) (h : i < max_records cfg) where
  pub slot_room : cfg.record_size * i + cfg.record_size + page_size ≤ cfg.sector_size
  unfolding max_records
  slot_room = omega (
    arith,
    mul_room cfg.record_size i (max_records cfg) h,
    pl.page_fits,
    pl.in_space,
    mul-div-le (sub32 cfg.sector_size page_size) cfg.record_size,
  )

  pub slot_addr_lem : slot_addr cfg sector i ≡ slot_at cfg sector i
  unfolding slot_addr
  slot_addr_lem = omega (arith, slot_room, pl.in_space)

  read_data_lem :
      (s : Store) (hd : Head)
      → hd.length ≤ sub32 cfg.record_size 8
      → read_data p cfg s sector i hd
        ≡ ok (record {
          head = hd;
          key_and_data = bytes_at (F.cell s) (slot_at cfg sector i + 8) hd.length;
        })
  unfolding read_data bytes_at
  read_data_lem s hd fits =
      let at : add32 (slot_addr cfg sector i) 8 ≡ slot_at cfg sector i + 8 =
        omega (arith, slot_addr_lem, slot_room, pl.in_space, pl.head_fits) in
      let inside : slot_at cfg sector i + 8 + hd.length < F.size =
        omega (arith, slot_room, pl.in_flash, pl.head_fits, pl.record_size_fits) in
      elim (Bool-cases (hd.length == 0)) [
        | inl empty ↦
            let none_left : hd.length ≡ 0 = ground arith in
            rw empty (
              ap
                (λ n. ok (record {
                  head = hd;
                  key_and_data = bytes_at (F.cell s) (slot_at cfg sector i + 8) n;
                }))
                (sym none_left))
        | inr full ↦ rw (full, at, F.read_ok s (slot_at cfg sector i + 8) hd.length inside) refl
      ]

  read_checked_lem :
      (s : Store) (hd : Head)
      → read_checked p cfg s sector i hd
        ≡ bind (check (head_status cfg hd) hd) (λ h. ok (record {
          head = h;
          key_and_data = bytes_at (F.cell s) (slot_at cfg sector i + 8) h.length;
        }))
  unfolding read_checked
  read_checked_lem s hd = elim (check-cases (head_status cfg hd) hd) [
    | inl fine ↦ rw (fine, read_data_lem s hd (head_status-eok cfg hd fine).0) refl
    | inr bad ↦ rw bad refl
  ]

  pub read_variable_record_lem :
      (s : Store)
      → read_variable_record p cfg s sector i ≡ record_at cfg (F.cell s) (slot_at cfg sector i)
  unfolding read_variable_record read_checked record_at
  read_variable_record_lem s =
      let base =
        F.read_ok s (slot_at cfg sector i) 8
          (omega (arith, slot_room, pl.in_flash, pl.head_fits)) in
      let test : leb (max_records cfg) i ≡ false = ground arith in
      rw (test, slot_addr_lem, base)
        (read_checked_lem s (head_of_bytes (bytes_at (F.cell s) (slot_at cfg sector i) 8)))
