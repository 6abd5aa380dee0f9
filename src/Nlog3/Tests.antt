-- ===== src/Nlog3/Tests.antt =====
-- Runs of nlog3 on the simulator, and the theorems at concrete inputs.
use qoraal_flash.Common.{
  ℕ, ◌+◌, ◌<◌, ◌≤◌, ◌≡◌, ◌≢◌, refl, inl, ◌⊎◌, ◌∙◌, true, false, some, List, [], ◌∷◌, arith,
}
use qoraal_flash.Common.Word.{pos, int32_of}
use qoraal_flash.Common.Run.{ok, done, and_then}
use qoraal_flash.Flash.{Platform}
use qoraal_flash.Flash.Nor.{NorFlash, bytes_at}
use qoraal_flash.Flash.Simulator.{Memory, simulator}
use qoraal_flash.Flash.Simulator.Laws.{simulator-NorFlash}
use qoraal_flash.Nlog3.Format.{
  Desc, SectorHeader, record_header_size, record_header_bytes, state_valid, state_pending,
}
use qoraal_flash.Nlog3.Layout.{
  Log, World, log_valid, sector_addr, sector_end, sector_data_start, record_alloc_size,
  record_offset,
}
use qoraal_flash.Nlog3.Sector.{
  ◌>>◌, write_pending_header, started, sector_header_check, sector_init, sector_header_read,
  write_u32,
}
use qoraal_flash.Nlog3.Record.{scan_record, record_read}
use qoraal_flash.Nlog3.Record.Read.{Mounted}
use qoraal_flash.Nlog3.Record.Rounds.{Checked, record_read-Checked}
use qoraal_flash.Nlog3.Append.{new_record_header, write_payload, write_record, append, appended}
use qoraal_flash.Nlog3.Append.Header.{committed_header}
use qoraal_flash.Nlog3.Append.Open.{IsOpen}
use qoraal_flash.Nlog3.Append.Fresh.{sector_init_lem}
use qoraal_flash.Nlog3.Append.Recorded.{append_lem}
use qoraal_flash.Nlog3.Append.Interrupted.{LeavesNothing, append_interrupted}
use qoraal_flash.Nlog3.Append.Failure.{AppendOutcome, append-AppendOutcome}
use qoraal_flash.Nlog3.Iterator.{
  Iterator, blank_iterator, iterator_at, iterator_init, iterator_set_offset, iterator_desc,
  iterator_read,
}
use qoraal_flash.Nlog3.Iterator.Newest.{iterator_set_offset_lem}
use qoraal_flash.Nlog3.Iterator.ReadBack.{append_read_back, sector_header_read-kept}

-- NLOG3_LOG_DATA (0, 3, 256)
abbrev declared : Log
declared = record {
  startaddr = 0;
  sectorcount = 3;
  sectorsize = 256;
  version = 0;
  current_sector = 0;
  current_sequence = 0;
  staged_sector = 0;
  write_addr = 0;
  last_record_offset = 0xffff_ffff;
  last_record_sequence = 0;
  current_closed = false;
}

abbrev chip : Platform Memory
chip = simulator 256 4096 true

abbrev flash : NorFlash chip
flash = simulator-NorFlash 256 4096 true (omega arith) (omega arith)

abbrev erased_world : World Memory
erased_world = record { log = declared; store = λ _. 255 }

mounted : Mounted flash declared
unfolding log_valid
mounted = record {
  placed = record { valid = refl; fits = omega arith };
  inside = omega arith;
  start_paged = refl;
  sector_paged = refl;
}

-- Sector 0 of an erased memory, taken into use.
sector_init_lem_example :
    (s : Memory) × (sector_init chip 0 1 erased_world
      ≡ done tt (record { log = started 0 1 declared; store = s }))
    × ((h : SectorHeader) × (sector_header_read chip declared s 0 ≡ ok h)
        × (h.state ≡ state_valid)
        × (h.sequence ≡ 1))
    × IsOpen flash (record { log = started 0 1 declared; store = s })
sector_init_lem_example =
    sector_init_lem flash erased_world 0 1 mounted (omega arith) (omega arith) (omega arith)
      (omega arith) (omega arith) (omega arith)

abbrev fresh_store : Memory
fresh_store =
    (sector_init_lem flash erased_world 0 1 mounted (omega arith) (omega arith) (omega arith)
      (omega arith) (omega arith) (omega arith)).0

abbrev fresh_world : World Memory
fresh_world = record { log = started 0 1 declared; store = fresh_store }

fresh-IsOpen : IsOpen flash fresh_world
fresh-IsOpen =
    (sector_init_lem flash erased_world 0 1 mounted (omega arith) (omega arith) (omega arith)
      (omega arith) (omega arith) (omega arith)).3

abbrev desc_seven : Desc
desc_seven = 7 ∷ 0 ∷ 0 ∷ 0 ∷ 0 ∷ 0 ∷ 0 ∷ 0 ∷ []

abbrev abc : List ℕ
abc = 65 ∷ 66 ∷ 67 ∷ []

-- The first record of the fresh sector takes 72 bytes.
fits : record_alloc_size true 3 ≡ 72
unfolding record_alloc_size
fits = refl

fits_ne : record_alloc_size true 3 ≢ 0
fits_ne = omega (arith, fits)

sector_room :
    fresh_world.log.write_addr + record_alloc_size true 3
    ≤ sector_end fresh_world.log fresh_world.log.current_sector
unfolding started sector_data_start sector_end sector_addr
sector_room = omega (arith, fits)

append_lem_example :
    (s : Memory) × (append chip (some desc_seven) 3 (some abc) fresh_world
      ≡ done tt (record { log = appended (record_alloc_size true 3) fresh_world.log; store = s }))
    × (record_read chip fresh_world.log s fresh_world.log.current_sector fresh_world.log.write_addr
        ≡ ok (scan_record (committed_header chip fresh_world.log desc_seven 3 abc)))
    × (bytes_at (flash.cell s) (fresh_world.log.write_addr + record_header_size true) 3 ≡ abc)
    × ((x : ℕ)
        → (x < fresh_world.log.write_addr)
          ⊎ (fresh_world.log.write_addr + record_alloc_size true 3 ≤ x)
        → flash.cell s x ≡ flash.cell fresh_store x)
    × IsOpen flash (record { log = appended (record_alloc_size true 3) fresh_world.log; store = s })
append_lem_example =
    append_lem flash fresh-IsOpen desc_seven 3 abc refl (omega arith) (omega arith) (omega arith)
      fits_ne sector_room

fresh_header :
    (h : SectorHeader) × (sector_header_read chip declared fresh_store 0 ≡ ok h)
    × (h.state ≡ state_valid)
    × (h.sequence ≡ 1)
fresh_header =
    (sector_init_lem flash erased_world 0 1 mounted (omega arith) (omega arith) (omega arith)
      (omega arith) (omega arith) (omega arith)).2

sector_header_read-started :
    (s : Memory)
    → sector_header_read chip fresh_world.log s fresh_world.log.current_sector
      ≡ sector_header_read chip declared s 0
unfolding started sector_header_read sector_header_check sector_addr log_valid
sector_header_read-started s = refl

started_sequence : fresh_header.0.sequence ≡ fresh_world.log.current_sequence
unfolding started
started_sequence = fresh_header.3

append_read_back_example :
    (w' : World Memory) × (it' : Iterator) × (append chip (some desc_seven) 3 (some abc) fresh_world
      ≡ done tt w')
    × (iterator_init chip w'.log w'.store blank_iterator ≡ done tt it')
    × (iterator_desc it' ≡ ok desc_seven)
    × (iterator_read chip w'.store it' true (pos 10) ≡ ok (int32_of 3, abc))
append_read_back_example =
    append_read_back flash fresh-IsOpen fresh_header.0 desc_seven 3 abc blank_iterator 10
      (sector_header_read-started fresh_store ∙ fresh_header.1) fresh_header.2 started_sequence refl
      (omega arith) (omega arith) (omega arith) (omega arith) fits_ne sector_room (omega arith)

append_interrupted_example :
    LeavesNothing chip fresh_world
      (write_u32 chip fresh_world.log.write_addr state_pending fresh_world)
    × LeavesNothing chip fresh_world (
        write_pending_header chip fresh_world.log.write_addr
          (record_header_bytes true (new_record_header chip fresh_world.log desc_seven 3 abc))
          state_pending
          fresh_world)
    × LeavesNothing chip fresh_world (
        (write_pending_header chip fresh_world.log.write_addr
              (record_header_bytes true (new_record_header chip fresh_world.log desc_seven 3 abc))
              state_pending
            >> write_payload chip fresh_world.log.write_addr 3 abc)
          fresh_world)
    × (write_record chip fresh_world.log.write_addr
          (new_record_header chip fresh_world.log desc_seven 3 abc)
          3
          abc
          fresh_world
        ≡ and_then
            ((write_pending_header chip fresh_world.log.write_addr
                  (record_header_bytes true
                    (new_record_header chip fresh_world.log desc_seven 3 abc))
                  state_pending
                >> write_payload chip fresh_world.log.write_addr 3 abc)
              fresh_world)
            (λ _. write_u32 chip fresh_world.log.write_addr state_valid))
append_interrupted_example =
    append_interrupted flash fresh-IsOpen desc_seven 3 abc refl (omega arith) (omega arith) fits_ne
      sector_room

append-AppendOutcome_example :
    AppendOutcome chip
      (some desc_seven)
      3
      (some abc)
      fresh_world
      (append chip (some desc_seven) 3 (some abc) fresh_world)
append-AppendOutcome_example = append-AppendOutcome chip (some desc_seven) 3 (some abc) fresh_world

-- A record that has been appended, found in the memory after it.
abbrev appended_store : Memory
appended_store =
    (append_lem flash fresh-IsOpen desc_seven 3 abc refl (omega arith) (omega arith) (omega arith)
      fits_ne sector_room).0

record_found :
    record_read chip fresh_world.log appended_store fresh_world.log.current_sector
      fresh_world.log.write_addr
    ≡ ok (scan_record (committed_header chip fresh_world.log desc_seven 3 abc))
record_found =
    (append_lem flash fresh-IsOpen desc_seven 3 abc refl (omega arith) (omega arith) (omega arith)
      fits_ne sector_room).2

record_read-Checked_example :
    Checked chip fresh_world.log.write_addr
      (sector_end fresh_world.log fresh_world.log.current_sector)
      (committed_header chip fresh_world.log desc_seven 3 abc)
record_read-Checked_example =
    record_read-Checked chip fresh_world.log appended_store fresh_world.log.current_sector
      fresh_world.log.write_addr (committed_header chip fresh_world.log desc_seven 3 abc)
      record_found

below_kept :
    (x : ℕ)
    → (x < fresh_world.log.write_addr) ⊎ (fresh_world.log.write_addr + record_alloc_size true 3 ≤ x)
    → flash.cell appended_store x ≡ flash.cell fresh_store x
below_kept =
    (append_lem flash fresh-IsOpen desc_seven 3 abc refl (omega arith) (omega arith) (omega arith)
      fits_ne sector_room).4

record_behind :
    sector_data_start fresh_world.log fresh_world.log.current_sector ≤ fresh_world.log.write_addr
record_behind = fresh-IsOpen.start_le

record_before :
    fresh_world.log.write_addr < sector_end fresh_world.log fresh_world.log.current_sector
record_before = omega (arith, sector_room, fits)

header_kept :
    sector_header_read chip fresh_world.log appended_store fresh_world.log.current_sector
    ≡ ok fresh_header.0
header_kept =
    sector_header_read-kept flash fresh-IsOpen.mounted fresh_store appended_store
      fresh_world.log.current_sector fresh-IsOpen.in_range
      (λ x below. below_kept x (inl (omega (arith, below, record_behind))))
    ∙ sector_header_read-started fresh_store
    ∙ fresh_header.1

iterator_set_offset_lem_example :
    iterator_set_offset chip fresh_world.log appended_store
      (record_offset fresh_world.log fresh_world.log.write_addr)
      fresh_header.0.sequence
      false
    ≡ ok (
        iterator_at fresh_world.log.current_sector fresh_header.0.sequence
          fresh_world.log.write_addr
          (committed_header chip fresh_world.log desc_seven 3 abc))
iterator_set_offset_lem_example =
    iterator_set_offset_lem flash fresh-IsOpen.mounted appended_store fresh_world.log.current_sector
      fresh-IsOpen.in_range fresh_world.log.write_addr record_behind record_before
      fresh-IsOpen.aligned fresh_header.0 (committed_header chip fresh_world.log desc_seven 3 abc)
      header_kept fresh_header.2 record_found
