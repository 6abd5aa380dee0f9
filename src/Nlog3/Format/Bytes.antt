-- ===== src/Nlog3/Format/Bytes.antt =====
-- A header that is written and read back is the same header.
use mathlib.Core.List.{append-nil}
use qoraal_flash.Common.{
  ℕ, ◌≡◌, refl, sym, ap, ◌∙◌, Bool, true, false, List, [], arith, All, length,
}
use qoraal_flash.Common.Word.{
  IsWord, words_bytes, bytes_words, bytes_words-words_bytes, length-words_bytes,
}
use qoraal_flash.Nlog3.Format.{
  SectorHeader, RecordHeader, sector_header_words, sector_header_of_words, sector_header_bytes,
  sector_header_of_bytes, sector_header_size, record_header_words, record_header_of_words,
  record_header_bytes, record_header_of_bytes, record_header_size,
}

bytes_words-exact : (ws : List ℕ) → All IsWord ws → bytes_words (length ws) (words_bytes ws) ≡ ws
bytes_words-exact ws h =
    ap (bytes_words (length ws)) (sym (append-nil (words_bytes ws)))
    ∙ bytes_words-words_bytes ws [] h

pub sector_header_of_bytes-sector_header_bytes :
    (h : SectorHeader)
    → All IsWord (sector_header_words h)
    → sector_header_of_bytes (sector_header_bytes h) ≡ h
unfolding sector_header_of_bytes sector_header_bytes
sector_header_of_bytes-sector_header_bytes h words =
    ap sector_header_of_words (bytes_words-exact (sector_header_words h) words)

pub length-sector_header_bytes :
    (h : SectorHeader) → length (sector_header_bytes h) ≡ sector_header_size
unfolding sector_header_bytes
length-sector_header_bytes h = length-words_bytes (sector_header_words h)

-- What a record header must be to be stored whole: eight descriptor words, every field a word, and
-- no payload CRC where the build has none.
abbrev pub Storable : Bool → RecordHeader → Type 0
Storable crc h =
    All IsWord (record_header_words crc h)
    × (length h.desc ≡ 8)
    × (crc ≡ false → h.payload_crc ≡ 0)
    × (crc ≡ false → h.padding ≡ 0)

-- A record header that can be stored is read from its bytes as it was written.
pub record_header_of_bytes-record_header_bytes :
    (crc : Bool) (h : RecordHeader)
    → Storable crc h
    → record_header_of_bytes crc (record_header_bytes crc h) ≡ h
unfolding record_header_of_bytes record_header_bytes
record_header_of_bytes-record_header_bytes true h (words, len, _, _) =
    ap (λ n. record_header_of_words true (bytes_words n (words_bytes (record_header_words true h))))
      count
    ∙ ap (record_header_of_words true) (bytes_words-exact (record_header_words true h) words)
  where
    count : 16 ≡ length (record_header_words true h)
    count = omega arith
record_header_of_bytes-record_header_bytes false h (words, len, none, pad) =
    ap
      (λ n.
        record_header_of_words false (bytes_words n (words_bytes (record_header_words false h))))
      count
    ∙ ap (record_header_of_words false) (bytes_words-exact (record_header_words false h) words)
    ∙ cc (none refl, pad refl)
  where
    count : 14 ≡ length (record_header_words false h)
    count = omega arith

pub length-record_header_bytes :
    (crc : Bool) (h : RecordHeader)
    → length h.desc ≡ 8
    → length (record_header_bytes crc h) ≡ record_header_size crc
unfolding record_header_bytes
length-record_header_bytes true h e = omega (arith, length-words_bytes (record_header_words true h))
length-record_header_bytes false h e =
    omega (arith, length-words_bytes (record_header_words false h))
