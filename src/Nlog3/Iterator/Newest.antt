-- ===== src/Nlog3/Iterator/Newest.antt =====
-- The record that was appended last is the one that nlog3_iterator_init finds.
use native.Mathlib.Nat.{mul-add-div, div-eq_of_lt}
use qoraal_flash.Common.{
  ℕ, ◌+◌, ◌-◌, ◌*◌, ◌/◌, ◌%◌, ◌≤◌, ◌<◌, ◌≡◌, ◌≢◌, ap, ◌∙◌, false, arith, bit_and,
}
use qoraal_flash.Common.Bits.{bit_and_seven}
use qoraal_flash.Common.Word.{u32_mod, add32}
use qoraal_flash.Common.Run.{ok}
use qoraal_flash.Flash.{Platform}
use qoraal_flash.Flash.Nor.{NorFlash}
use qoraal_flash.Nlog3.Format.{SectorHeader, RecordHeader, record_offset_none, state_valid}
use qoraal_flash.Nlog3.Layout.{Log, sector_end, sector_data_start, record_offset}
use qoraal_flash.Nlog3.Layout.Placed.{
  sectorsize-gt, sector_addr_lem, sector_end_lem, sector_data_start_lem, sector_within,
}
use qoraal_flash.Nlog3.Sector.{sector_header_read}
use qoraal_flash.Nlog3.Record.{scan_record, record_read}
use qoraal_flash.Nlog3.Record.Read.{Mounted}
use qoraal_flash.Nlog3.Iterator.{
  iterator_at, iterator_of_scan, iterator_at_record, iterator_set_offset, enters,
}

div_within : (n q r : ℕ) → r < n → (n * q + r) / n ≡ q
div_within n q r h = mul-add-div {m = n} (omega arith) q r ∙ omega (arith, div-eq_of_lt h)

module _ {Store : Type 0} {p : Platform Store} (F : NorFlash p) {log : Log} (m : Mounted F log)
    (s : Store) (i : ℕ) (h : i < log.sectorcount) (a : ℕ) (start : sector_data_start log i ≤ a)
    (end : a < sector_end log i) (aligned : (a - log.startaddr) % 8 ≡ 0) where
  pub offset_facts :
      (record_offset log a ≡ a - log.startaddr)
      × (log.startaddr ≤ a)
      × (a < u32_mod)
      × (record_offset log a / log.sectorsize ≡ i)
  unfolding record_offset
  offset_facts =
      let base = sector_addr_lem m.placed i h in
      let from = sector_data_start_lem m.placed i h in
      let to = sector_end_lem m.placed i h in
      let small = sector_within m.placed i h in
      let plain : (a + u32_mod - log.startaddr) % u32_mod ≡ a - log.startaddr = omega arith in
      let parts : a - log.startaddr
          ≡ log.sectorsize * i + (a - log.startaddr - log.sectorsize * i) =
        omega arith in
      (
        plain,
        omega arith,
        omega arith,
        ap (λ o. o / log.sectorsize) (plain ∙ parts)
            ∙ div_within log.sectorsize i (a - log.startaddr - log.sectorsize * i) (omega arith),
      )

  -- An offset made by nlog3_record_offset leads back to its record, in a VALID sector of the given
  -- sequence, where the record starts at a multiple of 8 bytes from the start of the log.
  pub iterator_set_offset_lem :
      (hd : SectorHeader) (rec : RecordHeader)
      → sector_header_read p log s i ≡ ok hd
      → hd.state ≡ state_valid
      → record_read p log s i a ≡ ok (scan_record rec)
      → iterator_set_offset p log s (record_offset log a) hd.sequence false
        ≡ ok (iterator_at i hd.sequence a rec)
  unfolding iterator_set_offset iterator_at_record iterator_of_scan enters
  iterator_set_offset_lem hd rec header valid read =
      let facts = offset_facts in
      let o = record_offset log a in
      let at : add32 log.startaddr o ≡ a = omega arith in
      let bits : bit_and o 7 ≡ 0 = omega (arith, bit_and_seven o) in
      let some_offset : o ≢ record_offset_none = omega arith in
      rw (facts.3, at, bits)
        (ground (
          arith,
          header,
          valid,
          read,
          h,
          sectorsize-gt m.placed,
          sector_data_start_lem m.placed i h,
        ))
