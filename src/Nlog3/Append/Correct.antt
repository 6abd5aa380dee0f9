-- ===== src/Nlog3/Append/Correct.antt =====
-- nlog3_append in an open sector that has room.
use qoraal_flash.Common.{
  ℕ, ◌+◌, ◌≤◌, ◌<◌, ◌≡◌, ◌≢◌, sym, ap, ◌∙◌, ◌⊎◌, Bool, some, List, arith, All, length, drop, take,
  length-drop, length-take, take-All, drop-All,
}
use qoraal_flash.Common.Word.{IsWord, u32_bytes, u32_mod}
use qoraal_flash.Common.Run.{done}
use qoraal_flash.Flash.{Platform}
use qoraal_flash.Flash.Nor.{NorFlash, bytes_at}
use qoraal_flash.Flash.Nor.Ranges.{Erased}
use qoraal_flash.Nlog3.Format.{Desc, record_header_bytes, record_header_size, state_valid}
use qoraal_flash.Nlog3.Format.Bytes.{length-record_header_bytes}
use qoraal_flash.Nlog3.Layout.{World, sector_end, record_alloc_size}
use qoraal_flash.Nlog3.Layout.Align.{record_alloc_size_lem}
use qoraal_flash.Nlog3.Layout.Placed.{sector_end_lem, sector_data_start_lem, sector_within}
use qoraal_flash.Nlog3.Record.Read.{has_room, header_size-gt, sector_end-lt_size}
use qoraal_flash.Nlog3.Append.{
  new_record_header, appended, append_record, make_room, append_checked, append,
}
use qoraal_flash.Nlog3.Append.Memory.{
  committed, header-committed, state-committed, payload-committed, committed_outside,
}
use qoraal_flash.Nlog3.Append.Commit.{write_record-done}
use qoraal_flash.Nlog3.Append.Header.{header_bytes-state, header_bytes-All, committed_header}
use qoraal_flash.Nlog3.Append.Open.{IsOpen}

module _ {Store : Type 0} {p : Platform Store} (F : NorFlash p) {w : World Store}
    (open_w : IsOpen F w) (desc : Desc) (size : ℕ) (payload : List ℕ) (eight : length desc ≡ 8)
    (long : size ≤ length payload)
    (room : w.log.write_addr + record_alloc_size p.payload_crc size
      ≤ sector_end w.log w.log.current_sector)
    (fits : record_alloc_size p.payload_crc size ≢ 0) where
  abbrev pub crc : Bool
  crc = p.payload_crc

  pub end_small : sector_end w.log w.log.current_sector < u32_mod
  end_small = omega (
    arith,
    sector_end_lem open_w.mounted.placed w.log.current_sector open_w.in_range,
    sector_within open_w.mounted.placed w.log.current_sector open_w.in_range,
  )

  -- The guards of nlog3_append let the record through.
  pub append_guards :
      append p (some desc) size (some payload) w
      ≡ append_record p desc size payload (record_alloc_size crc size) w
  unfolding append append_checked make_room
  append_guards = ground (
    arith,
    open_w.mounted.placed.valid,
    sector_end_lem open_w.mounted.placed w.log.current_sector open_w.in_range,
    sector_data_start_lem open_w.mounted.placed w.log.current_sector open_w.in_range,
    sector_within open_w.mounted.placed w.log.current_sector open_w.in_range,
    has_room w.log.write_addr (sector_end w.log w.log.current_sector) (record_alloc_size crc size)
        room,
  )

  pub record_sized : record_header_size crc + size ≤ record_alloc_size crc size
  record_sized = ground (arith, record_alloc_size_lem crc size)

  pub eight_words : length (new_record_header p w.log desc size payload).desc ≡ 8
  unfolding new_record_header
  eight_words = eight

  pub append_record-done :
      (s : Store) × (append_record p desc size payload (record_alloc_size crc size) w
        ≡ done tt (record w { log = appended (record_alloc_size crc size) w.log; store = s }))
      × (F.cell s
          ≡ committed
              (F.cell w.store)
              w.log.write_addr
              (drop 4 (record_header_bytes crc (new_record_header p w.log desc size payload)))
              (take size payload))
  unfolding append_record
  append_record-done =
      let header = new_record_header p w.log desc size payload in
      let end_lt =
        sector_end-lt_size F open_w.mounted w.store w.log.current_sector open_w.in_range in
      let (s, wrote, cells) =
        write_record-done F w.log.write_addr header size payload w eight_words long
          (omega (arith, record_sized)) (omega (arith, record_sized, end_small)) in
      (
        s,
        rw (
          has_room w.log.write_addr (sector_end w.log w.log.current_sector)
              (record_alloc_size crc size) room,
          wrote,
        ),
        cells,
      )

  pub rest_length :
      4 + length (drop 4 (record_header_bytes crc (new_record_header p w.log desc size payload)))
      ≡ record_header_size crc
  rest_length = omega (
    arith,
    length-drop 4 (record_header_bytes crc (new_record_header p w.log desc size payload)),
    length-record_header_bytes crc (new_record_header p w.log desc size payload) eight_words,
    header_size-gt crc,
  )

  pub taken_length : length (take size payload) ≡ size
  taken_length = omega (arith, length-take size payload)

  abbrev pub rest : List ℕ
  rest = drop 4 (record_header_bytes crc (new_record_header p w.log desc size payload))

  pub Erased-here :
      Erased (F.cell w.store) w.log.write_addr (4 + length rest + length (take size payload))
  Erased-here x lo hi = open_w.erased x lo (omega (arith, rest_length, taken_length, record_sized))

  pub rest_bytes : All (λ b. b < 256) rest
  rest_bytes =
      drop-All _ 4 (record_header_bytes crc (new_record_header p w.log desc size payload))
        (header_bytes-All crc (new_record_header p w.log desc size payload))

  pub taken_bytes : All (λ b. b < 256) payload → All (λ b. b < 256) (take size payload)
  taken_bytes = take-All _ size payload

  -- What the record's memory is, once it is committed.
  module _ (desc_words : All IsWord desc) (bytes : All (λ b. b < 256) payload) (s : Store)
      (cells : F.cell s
        ≡ committed
            (F.cell w.store)
            w.log.write_addr
            (drop 4 (record_header_bytes crc (new_record_header p w.log desc size payload)))
            (take size payload)) where
    pub state_stored : bytes_at (F.cell s) w.log.write_addr 4 ≡ u32_bytes state_valid
    state_stored = rw cells (
        state-committed (F.cell w.store) w.log.write_addr rest (take size payload) Erased-here
          rest_bytes (taken_bytes bytes))

    pub header_stored :
        bytes_at (F.cell s) w.log.write_addr (record_header_size crc)
        ≡ record_header_bytes crc (committed_header p w.log desc size payload)
    unfolding committed_header
    header_stored =
        rw (cells, ← rest_length)
          (header-committed (F.cell w.store) w.log.write_addr rest (take size payload) Erased-here
              rest_bytes (taken_bytes bytes)
            ∙ header_bytes-state crc (new_record_header p w.log desc size payload) state_valid)

    pub payload_stored :
        bytes_at (F.cell s) (w.log.write_addr + record_header_size crc) size ≡ take size payload
    payload_stored =
        ap (λ c. bytes_at c (w.log.write_addr + record_header_size crc) size) cells
        ∙ ap (bytes_at memory (w.log.write_addr + record_header_size crc)) (sym taken_length)
        ∙ ap (λ a. bytes_at memory a (length (take size payload))) (sym behind)
        ∙ payload-committed (F.cell w.store) w.log.write_addr rest (take size payload) Erased-here
            rest_bytes (taken_bytes bytes)
      where
        memory : ℕ → ℕ
        memory = committed (F.cell w.store) w.log.write_addr rest (take size payload)

        behind : w.log.write_addr + 4 + length rest ≡ w.log.write_addr + record_header_size crc
        behind = omega (arith, rest_length)

    -- The writes stay within the space of the record.
    pub outside_kept :
        (x : ℕ)
        → (x < w.log.write_addr) ⊎ (w.log.write_addr + record_alloc_size crc size ≤ x)
        → F.cell s x ≡ F.cell w.store x
    outside_kept x out = rw cells (
        committed_outside (F.cell w.store) w.log.write_addr rest (take size payload) x
          (ground (arith, rest_length, taken_length, record_sized, out)))
