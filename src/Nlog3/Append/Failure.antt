-- ===== src/Nlog3/Append/Failure.antt =====
-- nlog3_append with any flash driver: what a failed append leaves, and what a successful one sets.
use qoraal_flash.Common.{
  ℕ, ◌≡◌, ◌≢◌, refl, ◌⊎◌, inl, inr, Bool, true, false, ◌&&◌, Option, none, some, List, [], arith,
  ◌==◌, leb, ltb, length, ◌||◌, if◌then◌else◌, Bool-cases, take, drop,
}
use qoraal_flash.Common.Word.{add32, sub32, u32_bytes}
use qoraal_flash.Common.Run.{Status, eok, e_parm, e_notrdy, Run, done, stop, and_then, Cmd}
use qoraal_flash.Flash.{Platform, qoraal_flash_write}
use qoraal_flash.Nlog3.Format.{
  RecordHeader, Desc, record_header_bytes, record_header_size, state_pending, state_valid,
}
use qoraal_flash.Nlog3.Layout.{
  Log, World, record_alloc_size, record_offset, log_valid, sector_end, sector_data_start,
  addr_has_room,
}
use qoraal_flash.Nlog3.Sector.{settle, modify, flash_write, write_u32, write_pending_header}
use qoraal_flash.Nlog3.Stage.{advance_sector}
use qoraal_flash.Nlog3.Stage.Keeps.{
  SameTail, same_tail, SameTail-trans, Kept, Keeps, Kept-then, Kept-if, Kept-same,
  flash_write-Keeps, write_u32-Keeps, write_pending_header-Keeps, write_end_marker-Keeps,
  advance_sector-Keeps,
}
use qoraal_flash.Nlog3.Append.{
  close, closing, appended, new_record_header, write_payload, write_record, append_record,
  change_sector, make_room, append_checked, append,
}

-- The payload; there is none where the pointer is null.
abbrev pub payload_of : Option (List ℕ) → List ℕ
payload_of none = []
payload_of (some bytes) = bytes

module _ {Store : Type 0} (p : Platform Store) where
  -- What the driver has done of a record at `a`: its state word as PENDING, the rest of its header, its
  -- payload if there is one, and its state word as VALID, each call with success.
  pub record IsWritten (a : ℕ) (h : RecordHeader) (size : ℕ) (payload : List ℕ)
      (before after : Store) : Type 0 where
    pub s1 : Store
    pub s2 : Store
    pub s3 : Store
    pub pending : qoraal_flash_write p before a (u32_bytes state_pending) ≡ (eok, s1)
    pub header :
        qoraal_flash_write p s1 (add32 a 4) (drop 4 (record_header_bytes p.payload_crc h))
        ≡ (eok, s2)
    pub body :
        ((size ≡ 0) × (s3 ≡ s2))
        ⊎ ((size ≢ 0)
            × (qoraal_flash_write p s2
                  (add32 a (record_header_size p.payload_crc))
                  (take size payload)
                ≡ (eok, s3)))
    pub commit : qoraal_flash_write p s3 a (u32_bytes state_valid) ≡ (eok, after)

  -- The log has gone from `w` to `w'` behind a record at the write address of `w`.
  pub record IsRecorded (desc : Desc) (size : ℕ) (payload : List ℕ) (n : ℕ) (w w' : World Store)
      : Type 0 where
    pub written :
        IsWritten w.log.write_addr
          (new_record_header p w.log desc size payload)
          size
          payload
          w.store
          w'.store
    pub offset : w'.log.last_record_offset ≡ record_offset w.log w.log.write_addr
    pub sequence : w'.log.last_record_sequence ≡ w.log.current_sequence
    pub next : w'.log.write_addr ≡ add32 w.log.write_addr n
    pub sector : w'.log.current_sector ≡ w.log.current_sector
    pub open_again : w'.log.current_closed ≡ false

  -- The outcome of the part behind the change of sectors: the record is refused and nothing is done,
  -- or a write fails and the sector is closed, or the log moves on behind the record.
  data Outcome (desc : Desc) (size : ℕ) (payload : List ℕ) (n : ℕ) (w : World Store)
      : Run (World Store) (Unit {0}) → Type 0 where
    refused : (e : Status) → Outcome desc size payload n w (stop e w)
    broken :
        (e : Status) (s : Store)
        → Outcome desc size payload n w (stop e (record w { log = close w.log; store = s }))
    recorded :
        (w' : World Store)
        → IsRecorded desc size payload n w w'
        → Outcome desc size payload n w (done tt w')

  -- The outcome of the whole: the log is where it was and keeps its last record, or, after changes
  -- of sector that leave those alone as well, the record is written at the write address and the log
  -- has moved on behind it.
  pub data AppendOutcome (desc : Option Desc) (size : ℕ) (payload : Option (List ℕ))
      (w : World Store) : Run (World Store) (Unit {0}) → Type 0 where
    failed :
        (e : Status) (v : World Store)
        → SameTail w.log v.log
        → AppendOutcome desc size payload w (stop e v)
    appended_at :
        (d : Desc) (v w' : World Store)
        → desc ≡ some d
        → SameTail w.log v.log
        → IsRecorded d size (payload_of payload) (record_alloc_size p.payload_crc size) v w'
        → AppendOutcome desc size payload w (done tt w')

module _ {Store : Type 0} (p : Platform Store) where
  write_payload-Keeps : (a n : ℕ) (pl : List ℕ) → Keeps (write_payload p a n pl)
  unfolding write_payload
  write_payload-Keeps a n pl w = elim (Bool-cases (n == 0)) [
    | inl empty ↦ rw empty Kept-same
    | inr full ↦ rw full (flash_write-Keeps p _ _ w)
  ]

  write_record-Keeps :
      (a : ℕ) (h : RecordHeader) (n : ℕ) (pl : List ℕ) → Keeps (write_record p a h n pl)
  unfolding write_record
  write_record-Keeps a h n pl w =
      Kept-then
        (write_pending_header-Keeps p a (record_header_bytes p.payload_crc h) state_pending w)
        (λ _ w'. Kept-then (write_payload-Keeps a n pl w') (λ _. write_u32-Keeps p a state_valid))

  closing-Kept : {log : Log} {r : Run (World Store) (Unit {0})} → Kept log r → Kept log (closing r)
  unfolding close
  closing-Kept {r = done a w} k = k
  closing-Kept {r = stop e w} k = record { kept = SameTail-trans k.kept (ground arith) }

  change_sector-Keeps : Keeps (change_sector p)
  unfolding change_sector close
  change_sector-Keeps w =
      Kept-if _ (advance_sector-Keeps p w)
        (Kept-then (closing-Kept (write_end_marker-Keeps p w)) (λ _ w'. advance_closed w'))
    where
      advance_closed :
          (w' : World Store) → Kept w'.log (advance_sector p (record w' { log = close w'.log }))
      advance_closed w' = record {
        kept =
            SameTail-trans {b = close w'.log} (ground arith)
              (advance_sector-Keeps p (record w' { log = close w'.log })).kept;
      }

  make_room-Keeps : (n : ℕ) → Keeps (make_room p n)
  unfolding make_room
  make_room-Keeps n w = Kept-if _ (change_sector-Keeps w) Kept-same

  -- A chain of writes: one fails, or all succeed and the store they leave has a property. The log's own
  -- state is not touched.
  data Writes (log : Log) (P : Store → Type 0) : Run (World Store) (Unit {0}) → Type 0 where
    cut : (e : Status) (s : Store) → Writes log P (stop e (record { log = log; store = s }))
    all : (s : Store) → P s → Writes log P (done tt (record { log = log; store = s }))

  Writes-then :
      {log : Log} {P Q : Store → Type 0} {r : Run (World Store) (Unit {0})}
      (k : Unit {0} → Cmd (World Store) (Unit {0}))
      → Writes log P r
      → ((s : Store) → P s → Writes log Q (k tt (record { log = log; store = s })))
      → Writes log Q (and_then r k)
  Writes-then k (cut e s) h = cut e s
  Writes-then k (all s x) h = h s x

  Writes-map :
      {log : Log} {P Q : Store → Type 0} {r : Run (World Store) (Unit {0})}
      → Writes log P r
      → ((s : Store) → P s → Q s)
      → Writes log Q r
  Writes-map (cut e s) h = cut e s
  Writes-map (all s x) h = all s (h s x)

  settle-Writes :
      (w : World Store) (r : Status × Store) → Writes w.log (λ s. r ≡ (eok, s)) (settle w r)
  settle-Writes w (eok, s) = all s refl
  settle-Writes w (e, s) = cut e s

  flash_write-Writes :
      (a : ℕ) (bs : List ℕ) (w : World Store)
      → Writes w.log (λ s. qoraal_flash_write p w.store a bs ≡ (eok, s)) (flash_write p a bs w)
  unfolding flash_write
  flash_write-Writes a bs w = settle-Writes w (qoraal_flash_write p w.store a bs)

  write_u32-Writes :
      (a v : ℕ) (w : World Store)
      → Writes w.log
          (λ s. qoraal_flash_write p w.store a (u32_bytes v) ≡ (eok, s))
          (write_u32 p a v w)
  unfolding write_u32
  write_u32-Writes a v w = flash_write-Writes a (u32_bytes v) w

  pending_header-Writes :
      (a : ℕ) (h : List ℕ) (v : ℕ) (w : World Store)
      → Writes w.log
          (λ s.
            (s1 : Store) × (qoraal_flash_write p w.store a (u32_bytes v) ≡ (eok, s1))
            × (qoraal_flash_write p s1 (add32 a 4) (drop 4 h) ≡ (eok, s)))
          (write_pending_header p a h v w)
  unfolding write_pending_header
  pending_header-Writes a h v w = elim (Bool-cases (leb (length h) 4)) [
    | inl short ↦ rw short (cut e_parm w.store)
    | inr long ↦ rw long (
        Writes-then _ (write_u32-Writes a v w) (λ s1 first.
          Writes-map
            (flash_write-Writes (add32 a 4) (drop 4 h) (record { log = w.log; store = s1 }))
            (λ s second. (s1, first, second))))
  ]

  write_payload-Writes :
      (a n : ℕ) (pl : List ℕ) (w : World Store)
      → Writes w.log
          (λ s.
            ((n ≡ 0) × (s ≡ w.store))
            ⊎ ((n ≢ 0)
                × (qoraal_flash_write p w.store
                      (add32 a (record_header_size p.payload_crc))
                      (take n pl)
                    ≡ (eok, s))))
          (write_payload p a n pl w)
  unfolding write_payload
  write_payload-Writes a n pl w = elim (Bool-cases (n == 0)) [
    | inl empty ↦ rw empty (all w.store (inl (ground arith, refl)))
    | inr full ↦ rw full (
        Writes-map (flash_write-Writes (add32 a (record_header_size p.payload_crc)) (take n pl) w)
          (λ s called. inr (ground (arith, full), called)))
  ]

  write_record-Writes :
      (a : ℕ) (h : RecordHeader) (n : ℕ) (pl : List ℕ) (w : World Store)
      → Writes w.log (IsWritten p a h n pl w.store) (write_record p a h n pl w)
  unfolding write_record
  write_record-Writes a h n pl w =
      let log = w.log in
      Writes-then _ (pending_header-Writes a (record_header_bytes p.payload_crc h) state_pending w)
        (λ s2 (s1, first, second).
          Writes-then _ (write_payload-Writes a n pl (record { log = log; store = s2 }))
            (λ s3 third.
              Writes-map (write_u32-Writes a state_valid (record { log = log; store = s3 }))
                (λ s fourth. record {
                  s1 = s1;
                  s2 = s2;
                  s3 = s3;
                  pending = first;
                  header = second;
                  body = third;
                  commit = fourth;
                })))

  of_Writes :
      {desc : Desc} {size : ℕ} {payload : List ℕ} {n : ℕ} {w : World Store}
      {r : Run (World Store) (Unit {0})}
      → Writes w.log
          (IsWritten p w.log.write_addr
            (new_record_header p w.log desc size payload)
            size
            payload
            w.store)
          r
      → Outcome p desc size payload n w (and_then (closing r) (λ _. modify (appended n)))
  unfolding appended
  of_Writes (cut e s) = broken e s
  of_Writes (all s x) = recorded _ (record {
    written = x;
    offset = refl;
    sequence = refl;
    next = refl;
    sector = refl;
    open_again = refl;
  })

  -- Once there is a sector for the record.
  append_record-Outcome :
      (desc : Desc) (size : ℕ) (payload : List ℕ) (n : ℕ) (w : World Store)
      → Outcome p desc size payload n w (append_record p desc size payload n w)
  unfolding append_record
  append_record-Outcome desc size payload n w =
      elim (Bool-cases (addr_has_room w.log.write_addr (sector_end w.log w.log.current_sector) n)) [
        | inl room ↦ rw room (
            of_Writes (
              write_record-Writes w.log.write_addr (new_record_header p w.log desc size payload)
                size payload w))
        | inr full ↦ rw full (refused e_parm)
      ]

  AppendOutcome-of :
      (desc : Desc) (size : ℕ) (payload : Option (List ℕ)) (w v : World Store)
      {r : Run (World Store) (Unit {0})}
      → SameTail w.log v.log
      → Outcome p desc size (payload_of payload) (record_alloc_size p.payload_crc size) v r
      → AppendOutcome p (some desc) size payload w r
  unfolding close
  AppendOutcome-of desc size payload w v same (refused e) = failed e v same
  AppendOutcome-of desc size payload w v same (broken e s) =
      failed e (record v { log = close v.log; store = s }) (SameTail-trans same (ground arith))
  AppendOutcome-of desc size payload w v same (recorded w' x) = appended_at desc v w' refl same x

  outcome_if :
      {desc : Option Desc} {size : ℕ} {payload : Option (List ℕ)} {w : World Store} (b : Bool)
      {r s : Run (World Store) (Unit {0})}
      → AppendOutcome p desc size payload w r
      → AppendOutcome p desc size payload w s
      → AppendOutcome p desc size payload w (if b then r else s)
  outcome_if true h k = h
  outcome_if false h k = k

  after_room :
      (desc : Desc) (size : ℕ) (payload : Option (List ℕ)) (w : World Store)
      (r : Run (World Store) (Unit {0}))
      → Kept w.log r
      → AppendOutcome p (some desc) size payload w (
          and_then r (λ _.
            append_record p desc size (payload_of payload) (record_alloc_size p.payload_crc size)))
  after_room desc size payload w (done a v) k = AppendOutcome-of desc size payload w v k.kept (
      append_record-Outcome desc size (payload_of payload) (record_alloc_size p.payload_crc size) v)
  after_room desc size payload w (stop e v) k = failed e v k.kept

  append_checked-Outcome :
      (desc : Desc) (size : ℕ) (payload : Option (List ℕ)) (w : World Store)
      → AppendOutcome p
          (some desc)
          size
          payload
          w
          (append_checked p desc size (payload_of payload) w)
  unfolding append_checked
  append_checked-Outcome desc size payload w =
      let n = record_alloc_size p.payload_crc size in
      outcome_if (w.log.write_addr == 0) (failed e_notrdy w (same_tail w.log)) (
        outcome_if
          ((n == 0)
            || ltb
                (sub32 (sector_end w.log w.log.current_sector)
                  (sector_data_start w.log w.log.current_sector))
                n)
          (failed e_parm w (same_tail w.log))
          (after_room desc size payload w (make_room p n w) (make_room-Keeps n w)))

  -- With any flash driver, nlog3_append either fails, and then the log lies where it did and its last
  -- record is the one it had; or it succeeds, and then, perhaps after changes of sector that leave the
  -- last record alone, the driver has written the state word PENDING, the rest of the header, the
  -- payload and the state word VALID at the write address, in this order and each with success, the
  -- log's last record is the one at that address, and its write position is behind it.
  pub append-AppendOutcome :
      (desc : Option Desc) (size : ℕ) (payload : Option (List ℕ)) (w : World Store)
      → AppendOutcome p desc size payload w (append p desc size payload w)
  unfolding append
  append-AppendOutcome none size payload w = failed e_parm w (same_tail w.log)
  append-AppendOutcome (some desc) size (some payload) w =
      outcome_if (log_valid w.log) (append_checked-Outcome desc size (some payload) w)
        (failed e_parm w (same_tail w.log))
  append-AppendOutcome (some desc) size none w =
      outcome_if (log_valid w.log && (size == 0)) (append_checked-Outcome desc size none w)
        (failed e_parm w (same_tail w.log))
