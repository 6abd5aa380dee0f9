-- ===== src/Nlog3/Stage/Keeps.antt =====
-- What the changes of sectors leave alone, whatever the flash driver does: where the log lies, and
-- its last record.
use qoraal_flash.Common.{
  ℕ, ◌≡◌, Bool, true, false, arith, List, length, Bool-cases, inl, inr, leb, ◌==◌, if◌then◌else◌,
}
use qoraal_flash.Common.Word.{u32_bytes}
use qoraal_flash.Nlog3.Format.{SectorHeader, state_valid, state_staged, state_sector_end}
use qoraal_flash.Common.Run.{Status, Result, ok, err, Run, done, stop, Cmd, and_then, state_of}
use qoraal_flash.Flash.{Platform, qoraal_flash_write, qoraal_flash_erase}
use qoraal_flash.Nlog3.Layout.{Log, World}
use qoraal_flash.Nlog3.Sector.{
  modify, flash_write, flash_erase, sector_erase, write_u32, write_pending_header,
  sector_write_header, started, sector_init, sector_header_read, settle,
}
use qoraal_flash.Nlog3.Stage.{
  set_staged, write_end_marker, stage_readable, stage_fresh, stage_read, stage_sector,
  ensure_staged_sector, enter_staged_sector, advance_sector,
}

pub record SameTail (old new : Log) : Type 0 where
  pub startaddr : new.startaddr ≡ old.startaddr
  pub sectorcount : new.sectorcount ≡ old.sectorcount
  pub sectorsize : new.sectorsize ≡ old.sectorsize
  pub version : new.version ≡ old.version
  pub last_record_offset : new.last_record_offset ≡ old.last_record_offset
  pub last_record_sequence : new.last_record_sequence ≡ old.last_record_sequence

pub same_tail : (log : Log) → SameTail log log
same_tail log = ground arith

pub SameTail-trans : {a b c : Log} → SameTail a b → SameTail b c → SameTail a c
SameTail-trans s t = ground arith

-- A run that leaves them alone. As a record it shows its run to unification.
pub record Kept {Store : Type 0} (log : Log) (r : Run (World Store) (Unit {0})) : Type 0 where
  pub kept : SameTail log (state_of r).log

module _ {Store : Type 0} where
  abbrev pub Keeps : Cmd (World Store) (Unit {0}) → Type 0
  Keeps m = (w : World Store) → Kept w.log (m w)

  pub Kept-then :
      {log : Log} {r : Run (World Store) (Unit {0})} {k : Unit {0} → Cmd (World Store) (Unit {0})}
      → Kept log r
      → ((a : Unit {0}) (w : World Store) → Kept w.log (k a w))
      → Kept log (and_then r k)
  Kept-then {r = done a w} s h = record { kept = SameTail-trans s.kept (h a w).kept }
  Kept-then {r = stop e w} s h = s

  pub Kept-if :
      {log : Log} (b : Bool) {r s : Run (World Store) (Unit {0})}
      → Kept log r
      → Kept log s
      → Kept log (if b then r else s)
  Kept-if true h k = h
  Kept-if false h k = k

  pub Kept-same : {w : World Store} {a : Unit {0}} → Kept w.log (done a w)
  Kept-same {w} = record { kept = same_tail w.log }

  pub Kept-stop : {w : World Store} {e : Status} → Kept w.log (stop e w)
  Kept-stop {w} = record { kept = same_tail w.log }

  settle-Kept : (w : World Store) (r : Status × Store) → Kept w.log (settle w r)
  settle-Kept w r = record { kept = ground arith }

  pub ruleset kept_rules = (Kept-then, Kept-if, Kept-same, Kept-stop)

module _ {Store : Type 0} (p : Platform Store) where
  pub flash_write-Keeps : (a : ℕ) (bs : List ℕ) → Keeps (flash_write p a bs)
  unfolding flash_write
  flash_write-Keeps a bs w = settle-Kept w (qoraal_flash_write p w.store a bs)

  flash_erase-Keeps : (a b : ℕ) → Keeps (flash_erase p a b)
  unfolding flash_erase
  flash_erase-Keeps a b w = settle-Kept w (qoraal_flash_erase p w.store a b)

  pub sector_erase-Keeps : (i : ℕ) → Keeps (sector_erase p i)
  unfolding sector_erase
  sector_erase-Keeps i w = Kept-if _ Kept-stop (flash_erase-Keeps _ _ w)

  pub write_u32-Keeps : (a v : ℕ) → Keeps (write_u32 p a v)
  unfolding write_u32
  write_u32-Keeps a v w = flash_write-Keeps a (u32_bytes v) w

  pub write_pending_header-Keeps :
      (a : ℕ) (h : List ℕ) (v : ℕ) → Keeps (write_pending_header p a h v)
  unfolding write_pending_header
  write_pending_header-Keeps a h v w = elim (Bool-cases (leb (length h) 4)) [
    | inl short ↦ rw short Kept-stop
    | inr long ↦ rw long (Kept-then (write_u32-Keeps a v w) (λ _. flash_write-Keeps _ _))
  ]

  sector_write_header-Keeps : (i n v : ℕ) → Keeps (sector_write_header p i n v)
  unfolding sector_write_header
  sector_write_header-Keeps i n v w =
      Kept-then (write_pending_header-Keeps _ _ _ w) (λ _ w'. write_u32-Keeps _ v w')

  started-Kept : (i n : ℕ) (w : World Store) → Kept w.log (modify (started i n) w)
  unfolding started
  started-Kept i n w = record { kept = ground arith }

  pub sector_init-Keeps : (i n : ℕ) → Keeps (sector_init p i n)
  unfolding sector_init
  sector_init-Keeps i n w =
      Kept-then (sector_erase-Keeps i w)
        (λ _ w'. Kept-then (sector_write_header-Keeps i n state_valid w') (λ _. started-Kept i n))

  pub write_end_marker-Keeps : Keeps (write_end_marker p)
  unfolding write_end_marker
  write_end_marker-Keeps w =
      Kept-if _ Kept-same (Kept-if _ (write_u32-Keeps _ state_sector_end w) Kept-same)

  set_staged-Kept : (i : ℕ) (w : World Store) → Kept w.log (modify (set_staged i) w)
  set_staged-Kept i w = record { kept = ground arith }

  stage_readable-Keeps : (i : ℕ) (h : SectorHeader) → Keeps (stage_readable p i h)
  unfolding stage_readable
  stage_readable-Keeps i h w =
      Kept-if _ (set_staged-Kept i w)
        (Kept-then (write_u32-Keeps _ state_staged w) (λ _. set_staged-Kept i))

  stage_fresh-Keeps : (i : ℕ) → Keeps (stage_fresh p i)
  unfolding stage_fresh
  stage_fresh-Keeps i w =
      Kept-then (sector_erase-Keeps i w)
        (λ _ w'. Kept-then (sector_write_header-Keeps i _ state_staged w') (λ _. set_staged-Kept i))

  stage_read-Keeps : (i : ℕ) (r : Result SectorHeader) → Keeps (stage_read p i r)
  unfolding stage_read
  stage_read-Keeps i (ok h) w = stage_readable-Keeps i h w
  stage_read-Keeps i (err e) w = Kept-if _ (stage_fresh-Keeps i w) Kept-stop

  stage_sector-Keeps : (i : ℕ) → Keeps (stage_sector p i)
  unfolding stage_sector
  stage_sector-Keeps i w = Kept-if (leb w.log.sectorcount i) Kept-stop (
      Kept-if (i == w.log.current_sector) Kept-stop
        (stage_read-Keeps i (sector_header_read p w.log w.store i) w))

  pub ensure_staged_sector-Keeps : Keeps (ensure_staged_sector p)
  unfolding ensure_staged_sector
  ensure_staged_sector-Keeps w = stage_sector-Keeps _ w

  enter_staged_sector-Keeps : Keeps (enter_staged_sector p)
  unfolding enter_staged_sector
  enter_staged_sector-Keeps w =
      Kept-then (sector_init-Keeps _ _ w) (λ _. ensure_staged_sector-Keeps)

  pub advance_sector-Keeps : Keeps (advance_sector p)
  unfolding advance_sector
  advance_sector-Keeps w =
      Kept-if _ (Kept-then (ensure_staged_sector-Keeps w) (λ _. enter_staged_sector-Keeps))
        (enter_staged_sector-Keeps w)
