-- ===== src/Nvol3/Slot.antt =====
-- The slots of a sector: reading and writing one record.
pub mod Read
pub mod Frame
pub mod Write
pub mod Commit
use qoraal_flash.Common.{
  ℕ, zero, suc, ◌+◌, ◌-◌, ◌%◌, ◌*◌, Bool, true, false, not, ◌&&◌, ◌||◌, Option, none, some, List,
  [], ◌∷◌, ◌++◌, length, take, get_or, ltb, leb, ◌==◌, if◌then◌else◌,
}
use qoraal_flash.Common.Word.{add32, sub32, mul32}
use qoraal_flash.Common.Run.{
  Status, eok, fail, e_empty, e_invalid, e_unknown, Result, ok, err, bind, check, Cmd, stop,
}
use qoraal_flash.Flash.{Platform, qoraal_flash_read, qoraal_flash_write}
use qoraal_flash.Nvol3.Volume.{
  Config, Head, Record, World, u16, u16_bytes, head_bytes, max_records, slot_addr, settle,
  page_size, record_empty, record_valid, record_invalid,
}

abbrev pub u16_of : List ℕ → ℕ → ℕ
u16_of bytes i = get_or bytes i 255 + 256 * get_or bytes (i + 1) 255

unfoldable pub head_of_bytes : List ℕ → Head
head_of_bytes bytes = record {
  flags = u16_of bytes 0;
  length = u16_of bytes 2;
  checksum = u16_of bytes 4;
  reserved = u16_of bytes 6;
}

-- `for (byte = 0; byte < length; byte++) checksum += key_and_data[byte]` from a start value on
unfoldable pub sum_bytes : ℕ → List ℕ → ℕ
sum_bytes sum [] = sum
sum_bytes sum (b ∷ bs) = sum_bytes (u16 (sum + b)) bs

-- `0x10000 - checksum` of the first `n` bytes
unfoldable pub checksum_of : ℕ → List ℕ → ℕ
checksum_of n bytes = u16 (65536 - sum_bytes 0 (take n bytes))

-- The status of a record whose head does not say VALID.
unfoldable pub flags_status : ℕ → Status
flags_status flags =
    if flags == record_empty
    then e_empty
    else if flags == record_invalid
    then e_invalid
    else e_unknown

-- The checks of a head, in the order of read_variable_record.
unfoldable pub head_status : Config → Head → Status
head_status cfg h =
    if not (h.flags == record_valid)
    then flags_status h.flags
    else if ltb (sub32 cfg.record_size 8) h.length
    then e_unknown
    else if ltb h.length cfg.key_size
    then e_unknown
    else eok

-- The same in read_variable_record_head_sector, which takes any length that fits.
unfoldable pub head_only_status : Config → Head → Status
head_only_status cfg h =
    if not (h.flags == record_valid)
    then flags_status h.flags
    else if ltb (sub32 cfg.record_size 8) h.length
    then e_unknown
    else eok

module _ {Store : Type 0} (p : Platform Store) (cfg : Config) where
  unfoldable pub read_record_head : Store → ℕ → ℕ → Result Head
  read_record_head s sector idx =
      if leb (max_records cfg) idx
      then err fail
      else bind (qoraal_flash_read p s (slot_addr cfg sector idx) 8)
          (λ bytes. check (head_only_status cfg (head_of_bytes bytes)) (head_of_bytes bytes))

  -- The bytes behind a head that has passed the checks; every caller asks for all of them.
  unfoldable pub read_data : Store → ℕ → ℕ → Head → Result Record
  read_data s sector idx h =
      if h.length == 0
      then ok (record { head = h; key_and_data = [] })
      else bind (qoraal_flash_read p s (add32 (slot_addr cfg sector idx) 8) h.length)
          (λ bytes. ok (record { head = h; key_and_data = bytes }))

  unfoldable pub read_checked : Store → ℕ → ℕ → Head → Result Record
  read_checked s sector idx h = bind (check (head_status cfg h) h) (read_data s sector idx)

  unfoldable pub read_variable_record : Store → ℕ → ℕ → Result Record
  read_variable_record s sector idx =
      if leb (max_records cfg) idx
      then err fail
      else bind (qoraal_flash_read p s (slot_addr cfg sector idx) 8)
          (λ bytes. read_checked s sector idx (head_of_bytes bytes))

  -- variable_record_valid
  unfoldable pub variable_record_valid : Record → Bool
  variable_record_valid rec = rec.head.checksum == checksum_of rec.head.length rec.key_and_data

  module _ {Dict : Type 0} where
    unfoldable pub write_variable_record : ℕ → Record → ℕ → Cmd (World Dict Store) (Unit {0})
    write_variable_record sector rec idx w =
        if leb (max_records cfg) idx || (rec.head.flags == 0)
        then stop fail w
        else settle w (
            qoraal_flash_write p w.store (slot_addr cfg sector idx)
              (head_bytes rec.head ++ take rec.head.length rec.key_and_data))

    unfoldable pub set_variable_record_flags : ℕ → ℕ → ℕ → Cmd (World Dict Store) (Unit {0})
    set_variable_record_flags sector flags idx w =
        if leb (max_records cfg) idx
        then stop fail w
        else settle w (qoraal_flash_write p w.store (slot_addr cfg sector idx) (u16_bytes flags))
