-- ===== src/Nlog3/Iterator/Payload.antt =====
-- nlog3_iterator_read on a working flash: chunks of 32 bytes give the payload and its CRC.
use mathlib.Core.List.{append_assoc, append-nil}
use qoraal_flash.Common.{
  ℕ, zero, suc, ◌+◌, ◌-◌, ◌%◌, ◌≤◌, ◌<◌, ◌≡◌, refl, sym, ap, ◌∙◌, inl, inr, true, not, List, [],
  ◌∷◌, ◌++◌, ◌||◌, arith, ltb, ◌==◌, if◌then◌else◌, Bool-cases, length, length-append, take,
  length-take, min,
}
use qoraal_flash.Common.Word.{u32_mod, add32, pos, int32_of}
use qoraal_flash.Common.Run.{ok, err, e_corrupt}
use qoraal_flash.Flash.{Platform, qoraal_flash_read}
use qoraal_flash.Flash.Nor.{NorFlash, bytes_at}
use qoraal_flash.Flash.Nor.Ranges.{bytes_at-append, length-bytes_at}
use qoraal_flash.Nlog3.Format.{record_header_size, state_valid}
use qoraal_flash.Nlog3.Crc.{crc32, crc32_begin, crc32_update, crc32_finish}
use qoraal_flash.Nlog3.Crc.Laws.{crc32_update-append}
use qoraal_flash.Nlog3.Iterator.{
  Iterator, read_loop, iterator_read, iterator_read_payload, unusable,
}

take-nil : {A : Type 0} (n : ℕ) → take {A = A} n [] ≡ []
take-nil zero = refl
take-nil (suc n) = refl

take-append :
    {A : Type 0} (n : ℕ) (xs ys : List A)
    → take n (xs ++ ys) ≡ take (min n (length xs)) xs ++ take (n - length xs) ys
take-append zero xs ys =
    let none : min 0 (length xs) ≡ 0 = omega arith in
    let rest : 0 - length xs ≡ 0 = omega arith in rw (none, rest)
take-append (suc n) [] ys =
    let none : min (suc n) 0 ≡ 0 = omega arith in
    let rest : suc n - 0 ≡ suc n = omega arith in rw (none, rest)
take-append (suc n) (x ∷ xs) ys =
    let head : min (suc n) (suc (length xs)) ≡ suc (min n (length xs)) = omega arith in
    let rest : suc n - suc (length xs) ≡ n - length xs = omega arith in
    rw (head, rest) (ap (λ zs. x ∷ zs) (take-append n xs ys))

crc32_update-nil : (crc : ℕ) → crc32_update crc [] ≡ crc
unfolding crc32_update
crc32_update-nil crc = refl

-- One round's copy, whether or not the buffer is full already.
copy_step :
    (copy c : ℕ) (copied buf : List ℕ)
    → (if ltb (length copied) copy
        then copied ++ take (min c (copy - length copied)) buf
        else copied)
      ≡ copied ++ take (min c (copy - length copied)) buf
copy_step copy c copied buf = elim (Bool-cases (ltb (length copied) copy)) [
  | inl room ↦ rw room
  | inr full ↦
      let none : min c (copy - length copied) ≡ 0 = ground arith in
      rw (full, none) (sym (append-nil copied))
]

take-bytes_at : (c : ℕ → ℕ) (n a m : ℕ) → n ≤ m → take n (bytes_at c a m) ≡ bytes_at c a n
unfolding bytes_at
take-bytes_at c zero a m h = refl
take-bytes_at c (suc n) a zero h = absurd (omega arith)
take-bytes_at c (suc n) a (suc m) h =
    ap (λ bs. c a ∷ bs) (take-bytes_at c n (suc a) m (omega arith))

module _ {Store : Type 0} {p : Platform Store} (F : NorFlash p) (s : Store) (a size copy : ℕ)
    (fits : a + size < F.size) (small : a + size < u32_mod) where
  abbrev cells : ℕ → ℕ
  cells = F.cell s

  split :
      (b n m k b' : ℕ)
      → k ≡ n + m
      → b' ≡ b + n
      → bytes_at cells b k ≡ bytes_at cells b n ++ bytes_at cells b' m
  split b n m k b' e e' = rw (e, e') (bytes_at-append cells b n m)

  empty_range : (b : ℕ) → bytes_at cells b 0 ≡ []
  unfolding bytes_at
  empty_range b = refl

  -- The bytes that a buffer of `copy` bytes takes of what has been read, when `copied` of it is in.
  read_loop-whole :
      (rounds offset crc : ℕ) (copied : List ℕ)
      → offset ≤ size
      → size - offset < rounds
      → length copied ≡ min copy offset
      → read_loop p rounds s a size copy offset crc copied
        ≡ ok (
          crc32_finish (crc32_update crc (bytes_at cells (a + offset) (size - offset))),
          copied
              ++ take (min copy size - length copied) (bytes_at cells (a + offset) (size - offset)),
        )
  unfolding read_loop
  read_loop-whole zero offset crc copied le rounds len = absurd (omega arith)
  read_loop-whole (suc r) offset crc copied le rounds len = elim (Bool-cases (ltb offset size)) [
    | inr over ↦
        let all : size - offset ≡ 0 = ground arith in
        rw
          (
            all,
            empty_range (a + offset),
            crc32_update-nil,
            take-nil {A = ℕ} (min copy size - length copied),
            append-nil copied,
          )
          (ground (arith, over))
    | inl more ↦
        let inside : offset < size = ground arith in
        let c = min 32 (size - offset) in
        let buf = bytes_at cells (a + offset) c in
        let rest = bytes_at cells (a + (offset + c)) (size - (offset + c)) in
        let len_buf : length buf ≡ c = length-bytes_at cells (a + offset) c in
        let copied' = copied ++ take (min c (copy - length copied)) buf in
        let len' : length copied' ≡ min copy (offset + c) = omega (
          arith,
          length-append copied (take (min c (copy - length copied)) buf),
          length-take (min c (copy - length copied)) buf,
        ) in
        let sum : (a + offset) % u32_mod ≡ a + offset = omega arith in
        let read : qoraal_flash_read p s (add32 a offset) c ≡ ok buf =
          rw sum (F.read_ok s (a + offset) c (omega arith)) in
        let ih =
          read_loop-whole r (offset + c) (crc32_update crc buf) copied' (omega arith) (omega arith)
            len' in
        let whole : bytes_at cells (a + offset) (size - offset) ≡ buf ++ rest =
          split (a + offset) c (size - (offset + c)) (size - offset) (a + (offset + c))
            (omega arith) (omega arith) in
        let n = min copy size - length copied in
        let front : min n (length buf) ≡ min c (copy - length copied) = omega arith in
        let back : n - length buf ≡ min copy size - length copied' = omega arith in
        let bytes : copied' ++ take (min copy size - length copied') rest
            ≡ copied ++ take n (bytes_at cells (a + offset) (size - offset)) =
          rw (whole, take-append n buf rest, front, back)
            (append_assoc copied (take (min c (copy - length copied)) buf)
              (take (min copy size - length copied') rest)) in
        let sum : crc32_update (crc32_update crc buf) rest
            ≡ crc32_update crc (bytes_at cells (a + offset) (size - offset)) =
          rw whole (sym (crc32_update-append crc buf rest)) in
        let step : read_loop p (suc r) s a size copy offset crc copied
            ≡ read_loop p r s a size copy (offset + c) (crc32_update crc buf) copied' =
          ground (arith, more, read, copy_step copy c copied buf) in
        step ∙ ih ∙ cc (bytes, sum)
  ]

  abbrev payload : List ℕ
  payload = bytes_at cells a size

  -- The loop from its start.
  pub read_loop_lem :
      copy ≤ size
      → read_loop p (suc size) s a size copy 0 crc32_begin []
        ≡ ok (crc32 payload, take copy payload)
  unfolding crc32
  read_loop_lem h =
      let start : a + 0 ≡ a = omega arith in
      let all : size - 0 ≡ size = omega arith in
      let n : min copy size - 0 ≡ copy = omega arith in
      read_loop-whole (suc size) 0 crc32_begin [] (omega arith) (omega arith) (omega arith)
      ∙ rw (start, all, n)

  pub read_prefix : copy ≤ size → qoraal_flash_read p s a copy ≡ ok (take copy payload)
  read_prefix h = F.read_ok s a copy (omega arith) ∙ ap ok (sym (take-bytes_at cells copy a size h))

iterator_read_payload_lem :
    {Store : Type 0} {p : Platform Store} (F : NorFlash p) (s : Store) (it : Iterator) (n : ℕ)
    → n ≤ it.header.payload_size
    → it.addr + record_header_size p.payload_crc + it.header.payload_size < F.size
    → it.addr + record_header_size p.payload_crc + it.header.payload_size < u32_mod
    → let payload =
        bytes_at (F.cell s) (it.addr + record_header_size p.payload_crc) it.header.payload_size in
      iterator_read_payload p s it n ≡ (
        if not p.payload_crc || (crc32 payload == it.header.payload_crc)
        then ok (int32_of n, take n payload)
        else err e_corrupt)
unfolding iterator_read_payload
iterator_read_payload_lem {p} F s it n le fits small =
    let a = it.addr + record_header_size p.payload_crc in
    let size = it.header.payload_size in
    let at : add32 it.addr (record_header_size p.payload_crc) ≡ a = omega arith in
    let len : length (take n (bytes_at (F.cell s) a size)) ≡ n =
      omega
        (arith, length-take n (bytes_at (F.cell s) a size), length-bytes_at (F.cell s) a size) in
    rw at (
      ground (
        arith,
        len,
        read_loop_lem F s a size n fits small le,
        read_prefix F s a size n fits small le,
      ))

-- On a working flash, where the record is attached and VALID and neither its payload nor the buffer is
-- empty, nlog3_iterator_read gives the caller as much of the record's payload as the
-- buffer holds, and its length; where the build has payload CRCs, exactly if the CRC of the whole
-- payload is the header's, and E_CORRUPT otherwise.
pub iterator_read_lem :
    {Store : Type 0} {p : Platform Store} (F : NorFlash p) (s : Store) (it : Iterator) (len : ℕ)
    → it.attached ≡ true
    → it.header.state ≡ state_valid
    → 0 < len
    → 0 < it.header.payload_size
    → it.addr + record_header_size p.payload_crc + it.header.payload_size < F.size
    → it.addr + record_header_size p.payload_crc + it.header.payload_size < u32_mod
    → let n = min len it.header.payload_size in
      let payload =
        bytes_at (F.cell s) (it.addr + record_header_size p.payload_crc) it.header.payload_size in
      iterator_read p s it true (pos len) ≡ (
        if not p.payload_crc || (crc32 payload == it.header.payload_crc)
        then ok (int32_of n, take n payload)
        else err e_corrupt)
unfolding iterator_read unusable
iterator_read_lem {p} F s it len att state some_len some_size fits small = ground (
  arith,
  iterator_read_payload_lem F s it (min len it.header.payload_size) (omega arith) fits small,
)
