-- ===== src/Nlog3/Append/Header.antt =====
-- The header that nlog3_append makes, and the one that stands in flash once its state is VALID.
use qoraal_flash.Common.{
  ℕ, ◌<◌, ◌≡◌, refl, Bool, true, false, List, ◌++◌, arith, All, length, drop, if◌then◌else◌, take,
}
use qoraal_flash.Common.Word.{IsWord, u32_bytes, words_bytes-All}
use qoraal_flash.Flash.{Platform}
use qoraal_flash.Nlog3.Crc.{crc32}
use qoraal_flash.Nlog3.Crc.Laws.{crc32-IsWord}
use qoraal_flash.Nlog3.Format.{
  RecordHeader, Desc, record_header_words, record_header_bytes, record_header_crc, state_valid,
}
use qoraal_flash.Nlog3.Format.Bytes.{Storable}
use qoraal_flash.Nlog3.Layout.{Log}
use qoraal_flash.Nlog3.Append.{new_record_header}

-- A header with its state word written over.
pub header_bytes-state :
    (crc : Bool) (h : RecordHeader) (v : ℕ)
    → u32_bytes v ++ drop 4 (record_header_bytes crc h)
      ≡ record_header_bytes crc (record h { state = v })
unfolding record_header_bytes
header_bytes-state true h v = refl
header_bytes-state false h v = refl

pub header_bytes-All :
    (crc : Bool) (h : RecordHeader) → All (λ b. b < 256) (record_header_bytes crc h)
unfolding record_header_bytes
header_bytes-All crc h = words_bytes-All (record_header_words crc h)

Storable-of :
    (crc : Bool) (h : RecordHeader)
    → IsWord h.state
    → IsWord h.magic
    → IsWord h.header_crc
    → IsWord h.payload_crc
    → h.padding ≡ 0
    → IsWord h.payload_size
    → IsWord h.previous_offset
    → IsWord h.previous_sequence
    → All IsWord h.desc
    → length h.desc ≡ 8
    → (crc ≡ false → h.payload_crc ≡ 0)
    → Storable crc h
unfolding record_header_words
Storable-of true h st mg hc pc pad ps po pq ds eight none =
    ((st, (mg, (hc, (pc, (omega arith, (ps, (po, (pq, ds)))))))), eight, none, λ _. pad)
Storable-of false h st mg hc pc pad ps po pq ds eight none =
    ((st, (mg, (hc, (ps, (po, (pq, ds)))))), eight, none, λ _. pad)

record_header_crc-IsWord : (crc : Bool) (h : RecordHeader) → IsWord (record_header_crc crc h)
unfolding record_header_crc
record_header_crc-IsWord crc h =
    crc32-IsWord (record_header_bytes crc (record h { state = 0; header_crc = 0 }))

payload_crc-IsWord : (crc : Bool) (bs : List ℕ) → IsWord (if crc then crc32 bs else 0)
payload_crc-IsWord true bs = crc32-IsWord bs
payload_crc-IsWord false bs = omega arith

payload_crc_none : (crc : Bool) (n : ℕ) → crc ≡ false → (if crc then n else 0) ≡ 0
payload_crc_none crc n e = rw e

module _ {Store : Type 0} (p : Platform Store) (log : Log) (desc : Desc) (size : ℕ)
    (payload : List ℕ) where
  -- The header with the state that commits it.
  unfoldable pub committed_header : RecordHeader
  committed_header = record (new_record_header p log desc size payload) { state = state_valid }

  pub committed_header-crc :
      committed_header.header_crc ≡ record_header_crc p.payload_crc committed_header
  unfolding committed_header new_record_header record_header_crc
  committed_header-crc = refl

  pub committed_header-Storable :
      IsWord size
      → IsWord log.last_record_offset
      → IsWord log.last_record_sequence
      → All IsWord desc
      → length desc ≡ 8
      → Storable p.payload_crc committed_header
  unfolding committed_header new_record_header record_header_crc
  committed_header-Storable hs ho hq hd eight =
      Storable-of p.payload_crc committed_header (omega arith) (omega arith)
        (record_header_crc-IsWord p.payload_crc committed_header)
        (payload_crc-IsWord p.payload_crc (take size payload)) refl hs ho hq hd eight
        (payload_crc_none p.payload_crc (crc32 (take size payload)))
