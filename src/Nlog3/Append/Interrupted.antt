-- ===== src/Nlog3/Append/Interrupted.antt =====
-- nlog3_append that stops between two of its writes, as at a loss of power.
use qoraal_flash.Common.{ℕ, ◌+◌, ◌≤◌, ◌<◌, ◌≡◌, ◌≢◌, List, arith, All, length, drop, take}
use qoraal_flash.Common.Word.{u32_bytes}
use qoraal_flash.Common.Run.{ok, Run, done, and_then, and_then_assoc}
use qoraal_flash.Flash.{Platform}
use qoraal_flash.Flash.Nor.{NorFlash, bytes_at}
use qoraal_flash.Nlog3.Format.{
  Desc, record_header_bytes, record_header_size, state_pending, state_valid,
}
use qoraal_flash.Nlog3.Format.Bytes.{length-record_header_bytes}
use qoraal_flash.Nlog3.Layout.{World, sector_end, record_alloc_size}
use qoraal_flash.Nlog3.Record.{scan_terminal, record_read}
use qoraal_flash.Nlog3.Record.Read.{header_size-gt, record_read-pending, sector_end-lt_size}
use qoraal_flash.Nlog3.Sector.{◌>>◌, write_u32, write_pending_header}
use qoraal_flash.Nlog3.Sector.Calls.{write_u32-done, write_pending_header-done}
use qoraal_flash.Nlog3.Append.{new_record_header, write_payload, write_record}
use qoraal_flash.Nlog3.Append.Commit.{write_payload-done, cell-program_eq}
use qoraal_flash.Nlog3.Append.Correct.{
  end_small, eight_words, Erased-here, record_sized, rest_bytes, rest_length, taken_bytes,
}
use qoraal_flash.Nlog3.Append.Memory.{
  marked, described, filled, state-marked, state-described, state-filled,
}
use qoraal_flash.Nlog3.Append.Open.{IsOpen}

-- The command succeeds, and leaves a store in which nothing can be read at the log's write address.
abbrev pub LeavesNothing :
    {Store : Type 0} → Platform Store → World Store → Run (World Store) (Unit {0}) → Type 0
LeavesNothing {Store} p w run =
    (s : Store) × (run ≡ done tt (record w { store = s }))
    × (record_read p w.log s w.log.current_sector w.log.write_addr ≡ ok scan_terminal)

module _ {Store : Type 0} {p : Platform Store} (F : NorFlash p) {w : World Store} (o : IsOpen F w)
    (desc : Desc) (size : ℕ) (payload : List ℕ) (eight : length desc ≡ 8)
    (long : size ≤ length payload) (bytes : All (λ b. b < 256) payload)
    (fits : record_alloc_size p.payload_crc size ≢ 0)
    (room : w.log.write_addr + record_alloc_size p.payload_crc size
      ≤ sector_end w.log w.log.current_sector) where
  abbrev header_bytes : List ℕ
  header_bytes = record_header_bytes p.payload_crc (new_record_header p w.log desc size payload)

  abbrev behind_state : List ℕ
  behind_state = drop 4 header_bytes

  taken : All (λ b. b < 256) (take size payload)
  taken = taken_bytes F o desc size payload eight long room fits bytes

  nothing :
      (s : Store)
      → bytes_at (F.cell s) w.log.write_addr 4 ≡ u32_bytes state_pending
      → record_read p w.log s w.log.current_sector w.log.write_addr ≡ ok scan_terminal
  nothing s e =
      record_read-pending F o.mounted s w.log.current_sector o.in_range w.log.write_addr
        (omega (
          arith,
          record_sized F o desc size payload eight long room fits,
          header_size-gt p.payload_crc,
        ))
        e

  in_flash : w.log.write_addr + record_alloc_size p.payload_crc size < F.size
  in_flash =
      omega (arith, room, sector_end-lt_size F o.mounted w.store w.log.current_sector o.in_range)

  long_header : (4 < length header_bytes) × (length header_bytes ≡ record_header_size p.payload_crc)
  long_header = omega (
    arith,
    header_size-gt p.payload_crc,
    length-record_header_bytes p.payload_crc (new_record_header p w.log desc size payload)
        (eight_words F o desc size payload eight long room fits),
  )

  -- nlog3_append writes the pending state, the rest of the header and the payload before the state
  -- that commits the record. After each of these writes, and so wherever the sequence is cut off
  -- before the last, nlog3_record_read finds no record at the write address.
  pub append_interrupted :
      LeavesNothing p w (write_u32 p w.log.write_addr state_pending w)
      × LeavesNothing p w (write_pending_header p w.log.write_addr header_bytes state_pending w)
      × LeavesNothing p w (
          (write_pending_header p w.log.write_addr header_bytes state_pending
              >> write_payload p w.log.write_addr size payload)
            w)
      × (write_record p w.log.write_addr
            (new_record_header p w.log desc size payload)
            size
            payload
            w
          ≡ and_then
              ((write_pending_header p w.log.write_addr header_bytes state_pending
                  >> write_payload p w.log.write_addr size payload)
                w)
              (λ _. write_u32 p w.log.write_addr state_valid))
  unfolding write_record
  append_interrupted =
      let a = w.log.write_addr in
      let hs = record_header_size p.payload_crc in
      let c = F.cell w.store in
      let sized = record_sized F o desc size payload eight long room fits in
      let small = end_small F o desc size payload eight long room fits in
      let erased = Erased-here F o desc size payload eight long room fits in
      let rb = rest_bytes F o desc size payload eight long room fits in
      let s1 = F.program w.store a (u32_bytes state_pending) in
      let s2 = F.program s1 (a + 4) behind_state in
      let c1 : F.cell s1 ≡ marked c a behind_state (take size payload) =
        cell-program_eq F w.store a (u32_bytes state_pending) in
      let c2 : F.cell s2 ≡ described c a behind_state (take size payload) =
        cc (cell-program_eq F s1 (a + 4) behind_state, c1) in
      let (s3, wrote, cells) =
        write_payload-done F a size payload (record w { store = s2 }) long (omega (arith, in_flash))
          (omega (arith, header_size-gt p.payload_crc)) in
      let behind : a + 4 + length behind_state ≡ a + hs =
        omega (arith, rest_length F o desc size payload eight long room fits) in
      let c3 : F.cell s3 ≡ filled c a behind_state (take size payload) = cc (cells, c2, behind) in
      let header_done =
        write_pending_header-done F a header_bytes state_pending w (omega (arith, long_header))
          (omega (arith, long_header, in_flash)) (omega (arith, header_size-gt p.payload_crc)) in
      (
        (
          s1,
          write_u32-done F a state_pending w
              (omega (arith, header_size-gt p.payload_crc, in_flash)),
          nothing s1 (rw c1 (state-marked c a behind_state (take size payload) erased rb taken)),
        ),
        (
          s2,
          header_done,
          nothing s2 (rw c2 (state-described c a behind_state (take size payload) erased rb taken)),
        ),
        (
          s3,
          rw header_done wrote,
          nothing s3 (rw c3 (state-filled c a behind_state (take size payload) erased rb taken)),
        ),
        and_then_assoc (write_pending_header p a header_bytes state_pending w)
            (λ _. write_payload p a size payload) (λ _. write_u32 p a state_valid),
      )
