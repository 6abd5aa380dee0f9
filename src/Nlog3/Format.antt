-- ===== src/Nlog3/Format.antt =====
-- The headers of nlog3 on flash: their fields, their bytes, and the CRC that they carry.
pub mod Bytes
use qoraal_flash.Common.{
  ℕ, ◌*◌, Bool, true, false, List, [], ◌∷◌, ◌++◌, if◌then◌else◌, get_or, take, drop,
}
use qoraal_flash.Common.Word.{words_bytes, bytes_words, uint32_max}
use qoraal_flash.Nlog3.Crc.{crc32}

-- The commit word: each state clears bits of the one before it.
abbrev pub state_empty : ℕ
state_empty = 0xFFFFFFFF

abbrev pub state_pending : ℕ
state_pending = 0xFFFFFFF0

abbrev pub state_valid : ℕ
state_valid = 0xFFFFFF00

abbrev pub state_staged : ℕ
state_staged = 0xFFFFF000

abbrev pub state_sector_end : ℕ
state_sector_end = 0xFFFF0000

abbrev pub record_offset_none : ℕ
record_offset_none = uint32_max

abbrev pub sector_none : ℕ
sector_none = uint32_max

abbrev pub record_magic : ℕ
record_magic = 0x33474C4E

abbrev pub sector_magic : ℕ
sector_magic = 0x33534C4E

-- NLOG3_SECTOR_VERSION, with and without CFG_NLOG3_PAYLOAD_CRC.
abbrev pub sector_version : Bool → ℕ
sector_version crc = if crc then 9 else 8

-- NLOG3_SECTOR_HEADER_T
pub record SectorHeader : Type 0 where
  pub state : ℕ
  pub magic : ℕ
  pub version : ℕ
  pub sequence : ℕ
  pub sector_size : ℕ
  pub log_version : ℕ
  pub header_crc : ℕ

-- NLOG3_RECORD_DESC_T: `user` has eight words.
abbrev pub Desc : Type 0
Desc = List ℕ

-- NLOG3_RECORD_HEADER_T; `payload_crc` and `padding` are there only under CFG_NLOG3_PAYLOAD_CRC.
pub record RecordHeader : Type 0 where
  pub state : ℕ
  pub magic : ℕ
  pub header_crc : ℕ
  pub payload_crc : ℕ
  pub padding : ℕ
  pub payload_size : ℕ
  pub previous_offset : ℕ
  pub previous_sequence : ℕ
  pub desc : Desc

-- The words of a header in the order of its fields.
unfoldable pub sector_header_words : SectorHeader → List ℕ
sector_header_words h =
    h.state ∷ h.magic ∷ h.version ∷ h.sequence ∷ h.sector_size ∷ h.log_version ∷ h.header_crc ∷ []

unfoldable pub sector_header_of_words : List ℕ → SectorHeader
sector_header_of_words ws = record {
  state = get_or ws 0 uint32_max;
  magic = get_or ws 1 uint32_max;
  version = get_or ws 2 uint32_max;
  sequence = get_or ws 3 uint32_max;
  sector_size = get_or ws 4 uint32_max;
  log_version = get_or ws 5 uint32_max;
  header_crc = get_or ws 6 uint32_max;
}

unfoldable pub record_header_words : Bool → RecordHeader → List ℕ
record_header_words true h =
    h.state ∷ h.magic ∷ h.header_crc ∷ h.payload_crc ∷ h.padding ∷ h.payload_size
    ∷ h.previous_offset ∷ h.previous_sequence ∷ h.desc
record_header_words false h =
    h.state ∷ h.magic ∷ h.header_crc ∷ h.payload_size ∷ h.previous_offset ∷ h.previous_sequence
    ∷ h.desc

unfoldable pub record_header_of_words : Bool → List ℕ → RecordHeader
record_header_of_words true ws = record {
  state = get_or ws 0 uint32_max;
  magic = get_or ws 1 uint32_max;
  header_crc = get_or ws 2 uint32_max;
  payload_crc = get_or ws 3 uint32_max;
  padding = get_or ws 4 uint32_max;
  payload_size = get_or ws 5 uint32_max;
  previous_offset = get_or ws 6 uint32_max;
  previous_sequence = get_or ws 7 uint32_max;
  desc = drop 8 ws;
}
record_header_of_words false ws = record {
  state = get_or ws 0 uint32_max;
  magic = get_or ws 1 uint32_max;
  header_crc = get_or ws 2 uint32_max;
  payload_crc = 0;
  padding = 0;
  payload_size = get_or ws 3 uint32_max;
  previous_offset = get_or ws 4 uint32_max;
  previous_sequence = get_or ws 5 uint32_max;
  desc = drop 6 ws;
}

-- sizeof(NLOG3_SECTOR_HEADER_T) and sizeof(NLOG3_RECORD_HEADER_T), in words and in bytes.
abbrev pub sector_header_len : ℕ
sector_header_len = 7

abbrev pub sector_header_size : ℕ
sector_header_size = 28

abbrev pub record_header_len : Bool → ℕ
record_header_len crc = if crc then 16 else 14

abbrev pub record_header_size : Bool → ℕ
record_header_size crc = if crc then 64 else 56

unfoldable pub sector_header_bytes : SectorHeader → List ℕ
unfolding words_bytes sector_header_words
sector_header_bytes h = words_bytes (sector_header_words h)

unfoldable pub record_header_bytes : Bool → RecordHeader → List ℕ
unfolding words_bytes record_header_words
record_header_bytes crc h = words_bytes (record_header_words crc h)

-- A buffer of the header's size, as the code reads it.
unfoldable pub sector_header_of_bytes : List ℕ → SectorHeader
unfolding bytes_words sector_header_of_words
sector_header_of_bytes bs = sector_header_of_words (bytes_words sector_header_len bs)

unfoldable pub record_header_of_bytes : Bool → List ℕ → RecordHeader
unfolding bytes_words record_header_of_words
record_header_of_bytes crc bs = record_header_of_words crc (bytes_words (record_header_len crc) bs)

-- nlog3_sector_header_crc and nlog3_record_header_crc: the commit word and the CRC itself count as 0.
unfoldable pub sector_header_crc : SectorHeader → ℕ
unfolding crc32 sector_header_bytes
sector_header_crc h = crc32 (sector_header_bytes (record h { state = 0; header_crc = 0 }))

unfoldable pub record_header_crc : Bool → RecordHeader → ℕ
unfolding crc32 record_header_bytes
record_header_crc crc h = crc32 (record_header_bytes crc (record h { state = 0; header_crc = 0 }))
