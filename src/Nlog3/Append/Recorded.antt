-- ===== src/Nlog3/Append/Recorded.antt =====
-- A record that nlog3_append has taken can be read back, and the sector stays open.
use qoraal_flash.Common.{
  ℕ, ◌+◌, ◌%◌, ◌≤◌, ◌<◌, ◌≡◌, ◌≢◌, refl, sym, ◌∙◌, ◌⊎◌, inr, some, List, arith, All, length, take,
}
use qoraal_flash.Common.Word.{IsWord, u32_mod}
use qoraal_flash.Common.Run.{ok, done}
use qoraal_flash.Flash.{Platform}
use qoraal_flash.Flash.Nor.{NorFlash, bytes_at}
use qoraal_flash.Nlog3.Format.{Desc, record_header_size, record_magic, state_valid}
use qoraal_flash.Nlog3.Layout.{
  Log, World, log_valid, sector_end, sector_data_start, sector_addr, record_alloc_size,
  record_size_from_header, record_offset,
}
use qoraal_flash.Nlog3.Layout.Align.{record_alloc_size_lem}
use qoraal_flash.Nlog3.Layout.Placed.{sector_end_lem, sector_data_start_lem, sector_within}
use qoraal_flash.Nlog3.Record.{scan_record, record_read}
use qoraal_flash.Nlog3.Record.Read.{Mounted, record_read-committed}
use qoraal_flash.Nlog3.Append.{appended, append, new_record_header}
use qoraal_flash.Nlog3.Append.Correct.{
  append_guards, append_record-done, end_small, header_stored, outside_kept, payload_stored,
  record_sized, state_stored,
}
use qoraal_flash.Nlog3.Append.Header.{
  committed_header, committed_header-crc, committed_header-Storable,
}
use qoraal_flash.Nlog3.Append.Open.{IsOpen}

module _ {Store : Type 0} {p : Platform Store} (F : NorFlash p) where
  -- The geometry is all that the reading functions take from a log.
  Mounted-appended : {log : Log} (n : ℕ) → Mounted F log → Mounted F (appended n log)
  unfolding appended log_valid
  Mounted-appended n m = record {
    placed = record { valid = m.placed.valid; fits = m.placed.fits };
    inside = m.inside;
    start_paged = m.start_paged;
    sector_paged = m.sector_paged;
  }

  committed_header-fields :
      (log : Log) (desc : Desc) (size : ℕ) (payload : List ℕ)
      → let h = committed_header p log desc size payload in
        (h.state ≡ state_valid) × (h.magic ≡ record_magic) × (h.payload_size ≡ size)
  unfolding committed_header new_record_header
  committed_header-fields log desc size payload = (refl, refl, refl)

  record_size-committed :
      (log : Log) (desc : Desc) (size : ℕ) (payload : List ℕ)
      → record_size_from_header p.payload_crc (committed_header p log desc size payload)
        ≡ record_alloc_size p.payload_crc size
  unfolding record_size_from_header committed_header new_record_header
  record_size-committed log desc size payload = refl

  IsOpen-appended :
      {w : World Store} (s : Store) (n : ℕ)
      → IsOpen F w
      → w.log.write_addr + n ≤ sector_end w.log w.log.current_sector
      → n % 8 ≡ 0
      → ((x : ℕ)
          → (x < w.log.write_addr) ⊎ (w.log.write_addr + n ≤ x)
          → F.cell s x ≡ F.cell w.store x)
      → IsOpen F (record w { log = appended n w.log; store = s })
  unfolding appended sector_end sector_data_start sector_addr record_offset
  IsOpen-appended {w} s n o room eight kept =
      let small : sector_end w.log w.log.current_sector < u32_mod = omega (
        arith,
        sector_end_lem o.mounted.placed w.log.current_sector o.in_range,
        sector_within o.mounted.placed w.log.current_sector o.in_range,
      ) in
      let above : w.log.startaddr ≤ w.log.write_addr = omega (
        arith,
        sector_data_start_lem o.mounted.placed w.log.current_sector o.in_range,
        o.start_le,
      ) in
      record {
        mounted = Mounted-appended n o.mounted;
        in_range = o.in_range;
        start_le = omega (arith, o.start_le);
        write_le = omega arith;
        aligned = omega (arith, o.aligned);
        opened = refl;
        erased = λ x lo hi. kept x (inr (omega arith)) ∙ o.erased x (omega arith) (omega arith);
        sequence_word = o.sequence_word;
        offset_word = omega arith;
        last_word = o.sequence_word;
      }

-- In an open sector with room nlog3_append succeeds. Its record is then found by nlog3_record_read at
-- the old write address with the descriptor, size, links and CRC of its header, its payload stands
-- behind the header, no byte outside the record's space has changed, and the sector is open behind
-- the record.
pub append_lem :
    {Store : Type 0} {p : Platform Store} (F : NorFlash p) {w : World Store} (o : IsOpen F w)
    (desc : Desc) (size : ℕ) (payload : List ℕ)
    → length desc ≡ 8
    → All IsWord desc
    → size ≤ length payload
    → All (λ b. b < 256) payload
    → record_alloc_size p.payload_crc size ≢ 0
    → w.log.write_addr + record_alloc_size p.payload_crc size
      ≤ sector_end w.log w.log.current_sector
    → (s : Store) × (append p (some desc) size (some payload) w
        ≡ done tt
            (record w { log = appended (record_alloc_size p.payload_crc size) w.log; store = s }))
      × (record_read p w.log s w.log.current_sector w.log.write_addr
          ≡ ok (scan_record (committed_header p w.log desc size payload)))
      × (bytes_at (F.cell s) (w.log.write_addr + record_header_size p.payload_crc) size
          ≡ take size payload)
      × ((x : ℕ)
          → (x < w.log.write_addr) ⊎ (w.log.write_addr + record_alloc_size p.payload_crc size ≤ x)
          → F.cell s x ≡ F.cell w.store x)
      × IsOpen F
          (record w { log = appended (record_alloc_size p.payload_crc size) w.log; store = s })
append_lem {p} F {w} o desc size payload eight words long bytes fits room =
    let (s, wrote, cells) = append_record-done F o desc size payload eight long room fits in
    let kept = outside_kept F o desc size payload eight long room fits words bytes s cells in
    let sized = record_sized F o desc size payload eight long room fits in
    let small = end_small F o desc size payload eight long room fits in
    let fields = committed_header-fields F w.log desc size payload in
    let same_size = record_size-committed F w.log desc size payload in
    (
      s,
      append_guards F o desc size payload eight long room fits ∙ wrote,
      record_read-committed F o.mounted s w.log.current_sector o.in_range w.log.write_addr
          (committed_header p w.log desc size payload) (omega arith) (omega arith)
          (λ e. fits (sym same_size ∙ e)) fields.0 fields.1
          (committed_header-crc p w.log desc size payload)
          (committed_header-Storable p w.log desc size payload (omega arith) o.offset_word
            o.last_word words eight)
          (state_stored F o desc size payload eight long room fits words bytes s cells)
          (header_stored F o desc size payload eight long room fits words bytes s cells),
      payload_stored F o desc size payload eight long room fits words bytes s cells,
      kept,
      IsOpen-appended F s (record_alloc_size p.payload_crc size) o room
          (ground (arith, record_alloc_size_lem p.payload_crc size)) kept,
    )
