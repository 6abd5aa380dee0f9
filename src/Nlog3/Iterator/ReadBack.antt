-- ===== src/Nlog3/Iterator/ReadBack.antt =====
-- An append, and then the record through a new iterator.
use qoraal_flash.Common.{
  ℕ, ◌+◌, ◌≤◌, ◌<◌, ◌≡◌, ◌≢◌, refl, subst, ◌∙◌, inl, Bool, true, false, not, ◌||◌, some, List,
  arith, ◌==◌, if◌then◌else◌, All, length, take, min,
}
use qoraal_flash.Common.Word.{IsWord, pos, int32_of}
use qoraal_flash.Common.Run.{ok, done}
use qoraal_flash.Flash.{Platform}
use qoraal_flash.Flash.Nor.{NorFlash}
use qoraal_flash.Flash.Nor.Ranges.{bytes_at-eq}
use qoraal_flash.Nlog3.Crc.{crc32}
use qoraal_flash.Nlog3.Format.{SectorHeader, RecordHeader, Desc, record_offset_none, state_valid}
use qoraal_flash.Nlog3.Layout.{
  Log, World, log_valid, sector_addr, sector_end, sector_data_start, record_alloc_size,
  record_offset,
}
use qoraal_flash.Nlog3.Layout.Placed.{
  sectorsize-gt, sector_addr_lem, sector_end_lem, sector_data_start_lem,
}
use qoraal_flash.Nlog3.Sector.{sector_header_read, sector_header_check}
use qoraal_flash.Nlog3.Record.{scan_record, record_read}
use qoraal_flash.Nlog3.Record.Read.{Mounted, header_size-gt, sector_end-lt_size}
use qoraal_flash.Nlog3.Append.{appended, append, new_record_header}
use qoraal_flash.Nlog3.Append.Header.{committed_header}
use qoraal_flash.Nlog3.Append.Open.{IsOpen}
use qoraal_flash.Nlog3.Append.Correct.{record_sized, end_small}
use qoraal_flash.Nlog3.Append.Recorded.{append_lem}
use qoraal_flash.Nlog3.Iterator.{
  Iterator, iterator_at, iterator_at_record, iterator_init, iterator_set_offset, iterator_desc,
  iterator_read,
}
use qoraal_flash.Nlog3.Iterator.Newest.{iterator_set_offset_lem, offset_facts}
use qoraal_flash.Nlog3.Iterator.Payload.{iterator_read_lem}

-- The CRC that nlog3_append has put into the header passes the check of nlog3_iterator_read.
crc_holds :
    {A : Type 0} (crc : Bool) (bs : List ℕ) (x y : A)
    → (if not crc || (crc32 bs == (if crc then crc32 bs else 0)) then x else y) ≡ x
crc_holds true bs x y = ground arith
crc_holds false bs x y = refl

module _ {Store : Type 0} {p : Platform Store} (F : NorFlash p) where
  -- A sector header that keeps its bytes is read as before.
  pub sector_header_read-kept :
      {log : Log} (m : Mounted F log) (s s' : Store) (i : ℕ) (h : i < log.sectorcount)
      → ((x : ℕ) → x < sector_data_start log i → F.cell s' x ≡ F.cell s x)
      → sector_header_read p log s' i ≡ sector_header_read p log s i
  unfolding sector_header_read
  sector_header_read-kept {log} m s s' i h kept =
      let from = sector_data_start_lem m.placed i h in
      let base = sector_addr_lem m.placed i h in
      let below = sector_end-lt_size F m s i h in
      let to = sector_end_lem m.placed i h in
      rw (
        F.read_ok s' (sector_addr log i) 28
            (omega (arith, base, below, to, m.inside, sectorsize-gt m.placed)),
        F.read_ok s (sector_addr log i) 28
            (omega (arith, base, below, to, m.inside, sectorsize-gt m.placed)),
        bytes_at-eq (F.cell s') (F.cell s) (sector_addr log i) 28
            (λ x lo hi. kept x (omega (arith, base, from))),
      )

  -- The reading functions take the geometry alone from the log.
  sector_header_read-appended :
      (n : ℕ) (log : Log) (s : Store) (i : ℕ)
      → sector_header_read p (appended n log) s i ≡ sector_header_read p log s i
  unfolding sector_header_read sector_header_check appended log_valid sector_addr
  sector_header_read-appended n log s i = refl

  iterator_set_offset-appended :
      (n : ℕ) (log : Log) (s : Store) (o q : ℕ) (b : Bool)
      → iterator_set_offset p (appended n log) s o q b ≡ iterator_set_offset p log s o q b
  unfolding iterator_set_offset iterator_at_record record_read sector_header_read
      sector_header_check appended log_valid sector_addr sector_end
  iterator_set_offset-appended n log s o q b = refl

  log_valid-appended : (n : ℕ) (log : Log) → log_valid (appended n log) ≡ log_valid log
  unfolding appended log_valid
  log_valid-appended n log = refl

  -- nlog3_iterator_init after the log has moved on behind a record that can be read.
  iterator_init-appended :
      {w : World Store} (o : IsOpen F w) (n : ℕ) (s : Store) (hd : SectorHeader)
      (rec : RecordHeader) (it : Iterator)
      → w.log.write_addr < sector_end w.log w.log.current_sector
      → sector_header_read p w.log s w.log.current_sector ≡ ok hd
      → hd.state ≡ state_valid
      → hd.sequence ≡ w.log.current_sequence
      → record_read p w.log s w.log.current_sector w.log.write_addr ≡ ok (scan_record rec)
      → iterator_init p (appended n w.log) s it
        ≡ done tt (iterator_at w.log.current_sector w.log.current_sequence w.log.write_addr rec)
  unfolding iterator_init appended
  iterator_init-appended {w} o n s hd rec it room header valid seq read =
      let facts =
        offset_facts F o.mounted w.store w.log.current_sector o.in_range w.log.write_addr o.start_le
          room o.aligned in
      let some_offset : (record_offset w.log w.log.write_addr == record_offset_none) ≡ false =
        ground (
          arith,
          facts,
          o.aligned,
          sector_data_start_lem o.mounted.placed w.log.current_sector o.in_range,
        ) in
      rw (
        log_valid-appended n w.log,
        o.mounted.placed.valid,
        some_offset,
        iterator_set_offset-appended n w.log s (record_offset w.log w.log.write_addr)
            w.log.current_sequence false,
        subst
            (λ q.
              iterator_set_offset p w.log s (record_offset w.log w.log.write_addr) q false
              ≡ ok (iterator_at w.log.current_sector q w.log.write_addr rec))
            seq
            (iterator_set_offset_lem F o.mounted s w.log.current_sector o.in_range w.log.write_addr
              o.start_le room o.aligned hd rec header valid read),
      )

  -- nlog3_append of a payload that is not empty and then nlog3_iterator_init, on a NOR flash, where the header of the open sector can be read: the
  -- new iterator stands at the record, nlog3_iterator_desc gives its descriptor, and
  -- nlog3_iterator_read gives as much of the payload as the buffer, which is not empty,
  -- holds.
  pub append_read_back :
      {w : World Store} (o : IsOpen F w) (hd : SectorHeader) (desc : Desc) (size : ℕ)
      (payload : List ℕ) (it : Iterator) (len : ℕ)
      → sector_header_read p w.log w.store w.log.current_sector ≡ ok hd
      → hd.state ≡ state_valid
      → hd.sequence ≡ w.log.current_sequence
      → length desc ≡ 8
      → All IsWord desc
      → 0 < size
      → size ≤ length payload
      → All (λ b. b < 256) payload
      → record_alloc_size p.payload_crc size ≢ 0
      → w.log.write_addr + record_alloc_size p.payload_crc size
        ≤ sector_end w.log w.log.current_sector
      → 0 < len
      → (w' : World Store) × (it' : Iterator) × (append p (some desc) size (some payload) w
          ≡ done tt w')
        × (iterator_init p w'.log w'.store it ≡ done tt it')
        × (iterator_desc it' ≡ ok desc)
        × (iterator_read p w'.store it' true (pos len)
            ≡ ok (int32_of (min len size), take (min len size) (take size payload)))
  unfolding iterator_desc committed_header new_record_header
  append_read_back {w} o hd desc size payload it len header valid seq eight words some_size long
        bytes fits room some_len =
      let (s, appending, read, stored, kept, still) =
        append_lem F o desc size payload eight words long bytes fits room in
      let rec = committed_header p w.log desc size payload in
      let it' = iterator_at w.log.current_sector w.log.current_sequence w.log.write_addr rec in
      let sized = record_sized F o desc size payload eight long room fits in
      let small = end_small F o desc size payload eight long room fits in
      let head = header_size-gt p.payload_crc in
      let in_flash = sector_end-lt_size F o.mounted w.store w.log.current_sector o.in_range in
      (
        record { log = appended (record_alloc_size p.payload_crc size) w.log; store = s },
        it',
        appending,
        iterator_init-appended o (record_alloc_size p.payload_crc size) s hd rec it
            (omega (arith, sized, head))
            (sector_header_read-kept o.mounted w.store s w.log.current_sector o.in_range
                (λ x below. kept x (inl (omega (arith, below, o.start_le))))
              ∙ header)
            valid seq read,
        refl,
        iterator_read_lem F s it' len refl refl some_len some_size
              (omega (arith, sized, room, in_flash)) (omega (arith, sized, small))
            ∙ rw stored (crc_holds p.payload_crc (take size payload) _ _),
      )
