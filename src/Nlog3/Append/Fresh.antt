-- ===== src/Nlog3/Append/Fresh.antt =====
-- nlog3_sector_init makes an open sector: erased, with a header that can be read.
use native.Mathlib.Nat.{add-mod, zero-mod}
use qoraal_flash.Common.{
  mul_room, ℕ, zero, suc, ◌+◌, ◌-◌, ◌*◌, ◌%◌, ◌≤◌, ◌<◌, ◌≡◌, refl, ap, ◌∙◌, inr, Bool, true, false,
  List, [], ◌++◌, arith, leb, All, length, length-drop, drop, drop-All,
}
use qoraal_flash.Common.Word.{IsWord, u32_bytes, u32_mod, words_bytes-All, add32, sub32}
use qoraal_flash.Common.Run.{ok, done}
use qoraal_flash.Flash.{Platform}
use qoraal_flash.Flash.Nor.{NorFlash, bytes_at, blanked}
use qoraal_flash.Flash.Nor.Ranges.{Erased, programmed-nil}
use qoraal_flash.Nlog3.Crc.Laws.{crc32-IsWord}
use qoraal_flash.Nlog3.Format.{
  SectorHeader, sector_header_words, sector_header_bytes, sector_header_crc, sector_version,
  state_pending, state_valid,
}
use qoraal_flash.Nlog3.Format.Bytes.{
  sector_header_of_bytes-sector_header_bytes, length-sector_header_bytes,
}
use qoraal_flash.Nlog3.Layout.{Log, World, log_valid, sector_addr, sector_end, sector_data_start}
use qoraal_flash.Nlog3.Layout.Placed.{
  sector_addr_lem, sector_end_lem, sector_data_start_lem, sector_within, sectorsize-gt,
}
use qoraal_flash.Nlog3.Sector.{
  flash_erase, sector_erase, new_sector_header, sector_write_header, sector_init, started,
  sector_header_read, sector_header_check, sector_state_is_readable,
}
use qoraal_flash.Nlog3.Sector.Calls.{write_u32-done, write_pending_header-done}
use qoraal_flash.Nlog3.Record.Read.{Mounted}
use qoraal_flash.Nlog3.Append.Commit.{cell-program_eq}
use qoraal_flash.Nlog3.Append.Memory.{committed, header-committed, committed_outside}
use qoraal_flash.Nlog3.Append.Open.{IsOpen}

paged_add : (page a b : ℕ) → a % page ≡ 0 → b % page ≡ 0 → (a + b) % page ≡ 0
paged_add page a b h k = add-mod a b page ∙ rw (h, k) (zero-mod page)

paged_mul : (page size i : ℕ) → size % page ≡ 0 → (size * i) % page ≡ 0
paged_mul page size zero h = ap (λ n. n % page) (omega arith) ∙ zero-mod page
paged_mul page size (suc i) h =
    ap (λ n. n % page) (omega arith) ∙ paged_add page (size * i) size (paged_mul page size i h) h

-- The bytes of a sector header with its state word written over.
sector_header_bytes-state :
    (h : SectorHeader) (v : ℕ)
    → u32_bytes v ++ drop 4 (sector_header_bytes h) ≡ sector_header_bytes (record h { state = v })
unfolding sector_header_bytes
sector_header_bytes-state h v = refl

sector_header_bytes-All : (h : SectorHeader) → All (λ b. b < 256) (sector_header_bytes h)
unfolding sector_header_bytes
sector_header_bytes-All h = words_bytes-All (sector_header_words h)

version-IsWord : (crc : Bool) → IsWord (sector_version crc)
version-IsWord true = omega arith
version-IsWord false = omega arith

sector_header_crc-IsWord : (h : SectorHeader) → IsWord (sector_header_crc h)
unfolding sector_header_crc
sector_header_crc-IsWord h =
    crc32-IsWord (sector_header_bytes (record h { state = 0; header_crc = 0 }))

module _ {Store : Type 0} {p : Platform Store} (F : NorFlash p) {log : Log} (m : Mounted F log)
    (i : ℕ) (h : i < log.sectorcount) where
  abbrev base : ℕ
  base = sector_addr log i

  sector_in_flash :
      (base + log.sectorsize < F.size)
      × (base + log.sectorsize < u32_mod)
      × (32 < log.sectorsize)
      × (sector_end log i ≡ base + log.sectorsize)
      × (sector_data_start log i ≡ base + 32)
  sector_in_flash = omega (
    arith,
    m.inside,
    sectorsize-gt m.placed,
    sector_addr_lem m.placed i h,
    sector_within m.placed i h,
    sector_end_lem m.placed i h,
    sector_data_start_lem m.placed i h,
    mul_room log.sectorsize i log.sectorcount h,
  )

  sector_paged_lem : (base % F.page ≡ 0) × ((base + log.sectorsize) % F.page ≡ 0)
  sector_paged_lem =
      let at = sector_addr_lem m.placed i h in
      let start =
        ap (λ n. n % F.page) at
        ∙ paged_add F.page log.startaddr (log.sectorsize * i) m.start_paged
            (paged_mul F.page log.sectorsize i m.sector_paged) in
      (start, paged_add F.page base log.sectorsize start m.sector_paged)

  -- An erase of the sector, on a working flash.
  sector_erase-done :
      (s : Store)
      → sector_erase p i (record { log = log; store = s })
        ≡ done tt (record { log = log; store = F.blank s base (base + log.sectorsize - 1) })
  unfolding sector_erase flash_erase
  sector_erase-done s =
      let last : sub32 (add32 base log.sectorsize) 1 ≡ base + log.sectorsize - 1 =
        omega (arith, sector_in_flash) in
      let test : leb log.sectorcount i ≡ false = ground arith in
      let whole : base + log.sectorsize - 1 + 1 ≡ base + log.sectorsize =
        omega (arith, sector_in_flash) in
      let paged = sector_paged_lem in
      rw (
        m.placed.valid,
        test,
        last,
        F.erase_ok s base (base + log.sectorsize - 1) (omega (arith, sector_in_flash))
            (omega (arith, sector_in_flash)) paged.0 (ap (λ n. n % F.page) whole ∙ paged.1),
      )

  Erased-sector :
      (s : Store) → Erased (F.cell (F.blank s base (base + log.sectorsize - 1))) base log.sectorsize
  unfolding blanked
  Erased-sector s x lo hi =
      F.cell_blank s base (base + log.sectorsize - 1) x ∙ ground (arith, sector_in_flash)

  module _ (sequence : ℕ) (s : Store) (erased : Erased (F.cell s) base log.sectorsize) where
    abbrev bytes : List ℕ
    bytes = sector_header_bytes (new_sector_header p log sequence)

    -- The three writes of a sector header that is committed as VALID.
    sector_write_header-done :
        (s' : Store) × (sector_write_header p i sequence state_valid
            (record { log = log; store = s })
          ≡ done tt (record { log = log; store = s' }))
        × (F.cell s' ≡ committed (F.cell s) base (drop 4 bytes) [])
    unfolding sector_write_header
    sector_write_header-done =
        let w : World Store = record { log = log; store = s } in
        let s1 = F.program s base (u32_bytes state_pending) in
        let s2 = F.program s1 (base + 4) (drop 4 bytes) in
        (
          F.program s2 base (u32_bytes state_valid),
          rw
              (write_pending_header-done F base bytes state_pending w
                (omega (arith, length-sector_header_bytes (new_sector_header p log sequence)))
                (omega (
                  arith,
                  sector_in_flash,
                  length-sector_header_bytes (new_sector_header p log sequence),
                ))
                (omega (arith, sector_in_flash)))
              (write_u32-done F base state_valid (record { log = log; store = s2 })
                (omega (arith, sector_in_flash))),
          cc (
            cell-program_eq F s2 base (u32_bytes state_valid),
            cell-program_eq F s1 (base + 4) (drop 4 bytes),
            cell-program_eq F s base (u32_bytes state_pending),
            programmed-nil (F.cell s2) (base + 4 + length (drop 4 bytes)),
          ),
        )

    abbrev stored : SectorHeader
    stored = record (new_sector_header p log sequence) { state = state_valid }

    sequence_stored : stored.sequence ≡ sequence
    unfolding new_sector_header
    sequence_stored = refl

    header_words :
        IsWord sequence
        → IsWord log.sectorsize
        → IsWord log.version
        → All IsWord (sector_header_words stored)
    unfolding sector_header_words new_sector_header sector_header_crc
    header_words hq hs hv = (
      omega arith,
      (
        omega arith,
        (
          version-IsWord p.payload_crc,
          (hq, (hs, (hv, (sector_header_crc-IsWord (new_sector_header p log sequence), tt)))),
        ),
      ),
    )

    module _ (hq : IsWord sequence) (hv : IsWord log.version) (s' : Store)
        (cells : F.cell s' ≡ committed (F.cell s) base (drop 4 bytes) []) where
      rest_length : 4 + length (drop 4 bytes) ≡ 28
      rest_length = omega (
        arith,
        length-drop 4 bytes,
        length-sector_header_bytes (new_sector_header p log sequence),
      )

      header_stored : bytes_at (F.cell s') base 28 ≡ sector_header_bytes stored
      header_stored =
          rw (cells, ← rest_length)
            (header-committed (F.cell s) base (drop 4 bytes) []
                (λ x lo hi. erased x lo (omega (arith, rest_length, sector_in_flash)))
                (drop-All _ 4 bytes (sector_header_bytes-All (new_sector_header p log sequence))) tt
              ∙ sector_header_bytes-state (new_sector_header p log sequence) state_valid)

      crc_stored : stored.header_crc ≡ sector_header_crc stored
      unfolding new_sector_header sector_header_crc
      crc_stored = refl

      header_checked : sector_header_check p log stored ≡ ok stored
      unfolding sector_header_check sector_state_is_readable new_sector_header
      header_checked = ground (arith, crc_stored)

      header_readable : sector_header_read p log s' i ≡ ok stored
      unfolding sector_header_read
      header_readable =
          let test : leb log.sectorcount i ≡ false = ground arith in
          rw (
            m.placed.valid,
            test,
            F.read_ok s' base 28 (omega (arith, sector_in_flash)),
            header_stored,
            sector_header_of_bytes-sector_header_bytes stored
                (header_words hq (omega (arith, sector_in_flash)) hv),
            header_checked,
          )

      rest_erased : (x : ℕ) → base + 32 ≤ x → x < base + log.sectorsize → F.cell s' x ≡ 255
      rest_erased x lo hi = rw cells (
          committed_outside (F.cell s) base (drop 4 bytes) [] x (inr (omega (arith, rest_length)))
          ∙ erased x (omega arith) hi)

module _ {Store : Type 0} {p : Platform Store} (F : NorFlash p) where
  pub Mounted-started :
      {log : Log} (i sequence : ℕ) → Mounted F log → Mounted F (started i sequence log)
  unfolding started log_valid
  Mounted-started i sequence m = record {
    placed = record { valid = m.placed.valid; fits = m.placed.fits };
    inside = m.inside;
    start_paged = m.start_paged;
    sector_paged = m.sector_paged;
  }

  IsOpen-started :
      {log : Log} (i sequence : ℕ) (s : Store) (m : Mounted F log) (h : i < log.sectorcount)
      → log.sectorsize % 8 ≡ 0
      → IsWord sequence
      → IsWord log.last_record_offset
      → IsWord log.last_record_sequence
      → ((x : ℕ)
          → sector_addr log i + 32 ≤ x
          → x < sector_addr log i + log.sectorsize
          → F.cell s x ≡ 255)
      → IsOpen F (record { log = started i sequence log; store = s })
  unfolding started sector_end sector_data_start sector_addr
  IsOpen-started {log} i sequence s m h eight hq ho hl erased = record {
    mounted = Mounted-started i sequence m;
    in_range = h;
    start_le = omega arith;
    write_le = omega (arith, sector_in_flash F m i h);
    aligned = omega (
      arith,
      sector_in_flash F m i h,
      sector_data_start_lem m.placed i h,
      paged_mul 8 log.sectorsize i eight,
    );
    opened = refl;
    erased = λ x lo hi.
        erased x (omega (arith, sector_in_flash F m i h)) (omega (arith, sector_in_flash F m i h));
    sequence_word = hq;
    offset_word = ho;
    last_word = hl;
  }

  -- On a working flash, with a sector size that is a multiple of 8, nlog3_sector_init succeeds for every
  -- sector of the log. The sector then has a
  -- VALID header with the given sequence, the log is at its start, and it is open: everything behind
  -- the header is erased.
  pub sector_init_lem :
      (w : World Store) (i sequence : ℕ)
      → Mounted F w.log
      → i < w.log.sectorcount
      → w.log.sectorsize % 8 ≡ 0
      → IsWord w.log.version
      → IsWord sequence
      → IsWord w.log.last_record_offset
      → IsWord w.log.last_record_sequence
      → (s : Store) × (sector_init p i sequence w
          ≡ done tt (record { log = started i sequence w.log; store = s }))
        × ((h : SectorHeader) × (sector_header_read p w.log s i ≡ ok h)
            × (h.state ≡ state_valid)
            × (h.sequence ≡ sequence))
        × IsOpen F (record { log = started i sequence w.log; store = s })
  unfolding sector_init
  sector_init_lem w i sequence m h eight hv hq ho hl =
      let blank =
        F.blank w.store (sector_addr w.log i) (sector_addr w.log i + w.log.sectorsize - 1) in
      let erased = Erased-sector F m i h w.store in
      let (s, wrote, cells) = sector_write_header-done F m i h sequence blank erased in
      (
        s,
        rw (sector_erase-done F m i h w.store, wrote),
        (
          stored F m i h sequence blank erased,
          header_readable F m i h sequence blank erased hq hv s cells,
          refl,
          sequence_stored F m i h sequence blank erased,
        ),
        IsOpen-started i sequence s m h eight hq ho hl
            (rest_erased F m i h sequence blank erased hq hv s cells),
      )
