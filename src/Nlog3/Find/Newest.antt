-- ===== src/Nlog3/Find/Newest.antt =====
-- nlog3_find_newest_current_sector and nlog3_find_oldest_sector choose the extreme sequence.
use qoraal_flash.Common.{
  mul_room, ℕ, ◌+◌, ◌%◌, ◌^◌, ◌<◌, ◌≡◌, ◌≢◌, refl, sym, ◌∙◌, subst, ap, Bool, true, false, none,
  some, arith, ◌⊎◌, inl, inr, Bool-cases, ◌==◌, ◌&&◌, if◌then◌else◌,
}
use qoraal_flash.Common.Word.{u32_mod}
use qoraal_flash.Common.Run.{Status, e_notfound, Result, ok, err, done}
use qoraal_flash.Flash.{Platform}
use qoraal_flash.Nlog3.Format.{SectorHeader, state_valid}
use qoraal_flash.Nlog3.Layout.{Log, sector_addr, seq_after, seq_before}
use qoraal_flash.Nlog3.Layout.Sequence.{seq_after_lem}
use qoraal_flash.Nlog3.Sector.{sector_header_read, sector_header_check}
use qoraal_flash.Nlog3.Layout.Placed.{sector_addr_lem, sectorsize-gt}
use qoraal_flash.Flash.Nor.{NorFlash}
use qoraal_flash.Nlog3.Record.Read.{Mounted}
use qoraal_flash.Nlog3.Find.{
  Choice, chosen, skips, pick_newest, pick_oldest, find_newest_current_sector, find_oldest_sector,
}
use qoraal_flash.Nlog3.Find.Loop.{find_with-keeps}

-- The sequence of a sector whose header can be read and has the state VALID.
pub record IsCurrent {Store : Type 0} (p : Platform Store) (log : Log) (s : Store) (i sequence : ℕ)
    : Type 0 where
  pub header : SectorHeader
  pub read : sector_header_read p log s i ≡ ok header
  pub valid : header.state ≡ state_valid
  pub sequence_eq : header.sequence ≡ sequence

-- A sequence lies less than 2 ^ 31 steps behind a base.
abbrev pub Within : ℕ → ℕ → Type 0
Within base sequence = (d : ℕ) × (d < 2 ^ 31) × (sequence ≡ (base + d) % u32_mod)

-- In such a window the order of sequences is a linear order.
after_trans :
    (base x y z : ℕ)
    → Within base x
    → Within base y
    → Within base z
    → seq_after x y ≡ false
    → seq_after z y ≡ true
    → seq_after x z ≡ false
after_trans base x y z (dx, hx, ex) (dy, hy, ey) (dz, hz, ez) h k =
    let xy = seq_after_lem (base + dx) (base + dy) (omega arith) (omega arith) in
    let zy = seq_after_lem (base + dz) (base + dy) (omega arith) (omega arith) in
    let xz = seq_after_lem (base + dx) (base + dz) (omega arith) (omega arith) in
    ground (arith, xy, zy, xz, ex, ey, ez)

differ : (x y : ℕ) → (x == y) ≡ false → x ≢ y
differ x y h = ground arith

after_irrefl : (x : ℕ) → seq_after x x ≡ false
unfolding seq_after
after_irrefl x = ground arith

before_irrefl : (x : ℕ) → seq_before x x ≡ false
unfolding seq_before
before_irrefl x = after_irrefl x

before_trans :
    (base x y z : ℕ)
    → Within base x
    → Within base y
    → Within base z
    → seq_before x y ≡ false
    → seq_before z y ≡ true
    → seq_before x z ≡ false
unfolding seq_before
before_trans base x y z (dx, hx, ex) (dy, hy, ey) (dz, hz, ez) h k =
    let yx = seq_after_lem (base + dy) (base + dx) (omega arith) (omega arith) in
    let yz = seq_after_lem (base + dy) (base + dz) (omega arith) (omega arith) in
    let zx = seq_after_lem (base + dz) (base + dx) (omega arith) (omega arith) in
    ground (arith, yx, yz, zx, ex, ey, ez)

module _ {Store : Type 0} (p : Platform Store) (log : Log) (s : Store) where
  -- No sector below `n` that is current has a better sequence.
  abbrev pub NoBetter : (ℕ → ℕ → Bool) → ℕ → ℕ → Type 0
  NoBetter better n sequence = (i q : ℕ) → i < n → IsCurrent p log s i q → better q sequence ≡ false

  abbrev Best : (ℕ → ℕ → Bool) → ℕ → Choice → Type 0
  Best better n none = (i q : ℕ) → i < n → ¬ (IsCurrent p log s i q)
  Best better n (some (j, q)) = (j < n) × IsCurrent p log s j q × NoBetter better n q

  pub current_header :
      (i q : ℕ) (h : SectorHeader)
      → sector_header_read p log s i ≡ ok h
      → IsCurrent p log s i q
      → (h.state ≡ state_valid) × (h.sequence ≡ q)
  current_header i q h read c =
      let same : h ≡ c.header = cc (read, c.read) in
      (ap SectorHeader.state same ∙ c.valid, ap SectorHeader.sequence same ∙ c.sequence_eq)

  pub not_read :
      (i q : ℕ) (e : Status) → sector_header_read p log s i ≡ err e → ¬ (IsCurrent p log s i q)
  not_read i q e read c = cc (read, c.read)

  module _ (better : ℕ → ℕ → Bool) (base : ℕ)
      (window : (i q : ℕ) → IsCurrent p log s i q → Within base q)
      (irrefl : (x : ℕ) → better x x ≡ false)
      (trans : (x y z : ℕ)
        → Within base x
        → Within base y
        → Within base z
        → better x y ≡ false
        → better z y ≡ true
        → better x z ≡ false) where
    below : (i n : ℕ) → i < n + 1 → (i < n) ⊎ (i ≡ n)
    below i n h = omega arith

    Best-taken :
        (n : ℕ) (h : SectorHeader)
        → sector_header_read p log s n ≡ ok h
        → h.state ≡ state_valid
        → ((i q : ℕ) → i < n → IsCurrent p log s i q → better q h.sequence ≡ false)
        → Best better (n + 1) (some (n, h.sequence))
    Best-taken n h read valid rest = (
      omega arith,
      record { header = h; read = read; valid = valid; sequence_eq = refl },
      λ i q lt c. elim (below i n lt) [
        | inl less ↦ rest i q less c
        | inr same ↦
            let here = (current_header n q h read (subst (λ k. IsCurrent p log s k q) same c)).1 in
            subst (λ r. better r h.sequence ≡ false) here (irrefl h.sequence)
      ],
    )

    Best-kept :
        (n j q : ℕ)
        → ((r : ℕ) → IsCurrent p log s n r → better r q ≡ false)
        → Best better n (some (j, q))
        → Best better (n + 1) (some (j, q))
    Best-kept n j q here (lt, c, none_better) = (
      omega arith,
      c,
      λ i r l d. elim (below i n l) [
        | inl less ↦ none_better i r less d
        | inr same ↦ here r (subst (λ k. IsCurrent p log s k r) same d)
      ],
    )

    none_kept :
        (n : ℕ)
        → ((r : ℕ) → ¬ (IsCurrent p log s n r))
        → Best better n none
        → Best better (n + 1) none
    none_kept n here before i q l d = elim (below i n l) [
      | inl less ↦ before i q less d
      | inr same ↦ here q (subst (λ k. IsCurrent p log s k q) same d)
    ]

    Best-skip :
        (n : ℕ) (e : Status) (c : Choice)
        → sector_header_read p log s n ≡ err e
        → Best better n c
        → Best better (n + 1) c
    Best-skip n e none read b = none_kept n (λ r. not_read n r e read) b
    Best-skip n e (some (j, q)) read b = Best-kept n j q (λ r c. absurd (not_read n r e read c)) b

    module _ (pick : ℕ → SectorHeader → Choice → Choice)
        (at_none : (i : ℕ) (h : SectorHeader)
          → pick i h none ≡ (if h.state == state_valid then some (i, h.sequence) else none))
        (at_some : (i j q : ℕ) (h : SectorHeader)
          → pick i h (some (j, q)) ≡ (
              if (h.state == state_valid) && better h.sequence q
              then some (i, h.sequence)
              else some (j, q))) where
      Best-step :
          (n : ℕ) (h : SectorHeader) (c : Choice)
          → sector_header_read p log s n ≡ ok h
          → Best better n c
          → Best better (n + 1) (pick n h c)
      Best-step n h none read b =
          subst (Best better (n + 1)) (sym (at_none n h))
            (elim (Bool-cases (h.state == state_valid)) [
              | inl valid ↦
                  subst (λ v. Best better (n + 1) (if v then some (n, h.sequence) else none))
                    (sym valid) (Best-taken n h read (ground arith) (λ i q l c. absurd (b i q l c)))
              | inr other ↦
                  subst (λ v. Best better (n + 1) (if v then some (n, h.sequence) else none))
                    (sym other)
                    (none_kept n
                      (λ r c. differ h.state state_valid other (current_header n r h read c).0) b)
            ])
      Best-step n h (some (j, q)) read (lt, cur, none_better) =
          subst (Best better (n + 1)) (sym (at_some n j q h))
            (elim (Bool-cases (h.state == state_valid)) [
              | inr other ↦
                  subst
                    (λ v.
                      Best better (n + 1)
                        (if v && better h.sequence q then some (n, h.sequence) else some (j, q)))
                    (sym other)
                    (Best-kept n j q
                      (λ r c.
                        absurd (differ h.state state_valid other (current_header n r h read c).0))
                      (lt, cur, none_better))
              | inl valid ↦
                  subst
                    (λ v.
                      Best better (n + 1)
                        (if v && better h.sequence q then some (n, h.sequence) else some (j, q)))
                    (sym valid)
                    (elim (Bool-cases (better h.sequence q)) [
                      | inl more ↦
                          subst
                            (λ v.
                              Best better (n + 1) (if v then some (n, h.sequence) else some (j, q)))
                            (sym more)
                            (Best-taken n h read (ground arith) (λ i r l c.
                              trans r q h.sequence (window i r c) (window j q cur)
                                (window n h.sequence (record {
                                  header = h;
                                  read = read;
                                  valid = ground arith;
                                  sequence_eq = refl;
                                }))
                                (none_better i r l c) more))
                      | inr less ↦
                          subst
                            (λ v.
                              Best better (n + 1) (if v then some (n, h.sequence) else some (j, q)))
                            (sym less)
                            (Best-kept n j q
                              (λ r c.
                                subst (λ t. better t q ≡ false) (current_header n r h read c).1
                                  less)
                              (lt, cur, none_better))
                    ])
            ])

-- What a search gives: a current sector of the log that has no better one, or E_NOTFOUND where no
-- sector is current.
abbrev pub Chooses :
    {Store : Type 0} → Platform Store → Log → Store → (ℕ → ℕ → Bool) → Result (ℕ × ℕ) → Type 0
Chooses p log s better r =
    ((j : ℕ) × (q : ℕ) × (r ≡ ok (j, q))
      × (j < log.sectorcount)
      × IsCurrent p log s j q
      × NoBetter p log s better log.sectorcount q)
    ⊎ (r ≡ err e_notfound) × ((i q : ℕ) → i < log.sectorcount → ¬ (IsCurrent p log s i q))

module _ {Store : Type 0} {p : Platform Store} (F : NorFlash p) {log : Log} (m : Mounted F log)
    (s : Store) where
  harmless :
      (i : ℕ) (e : Status)
      → i < log.sectorcount
      → sector_header_read p log s i ≡ err e
      → skips e ≡ true
  unfolding sector_header_read sector_header_check
  harmless i e h fails =
      let inside : sector_addr log i + 28 < F.size = omega (
        arith,
        m.inside,
        sectorsize-gt m.placed,
        sector_addr_lem m.placed i h,
        mul_room log.sectorsize i log.sectorcount h,
      ) in
      let read = F.read_ok s (sector_addr log i) 28 inside in
      ground (arith, m.placed.valid, read, fails)

  Chooses-of :
      (better : ℕ → ℕ → Bool) (r : Result (ℕ × ℕ)) (c : Choice)
      → Best p log s better log.sectorcount c
      → r ≡ chosen (done tt c)
      → Chooses p log s better r
  Chooses-of better r none b e = inr (e, b)
  Chooses-of better r (some (j, q)) b e = inl (j, q, e, b.0, b.1, b.2)

  -- On a working flash, where the sequences of the current sectors lie in a window of 2 ^ 31 numbers,
  -- nlog3_find_newest_current_sector gives a current sector of the log such that no current sector has
  -- a later sequence, or E_NOTFOUND where no sector is current.
  pub find_newest_current_sector_lem :
      (base : ℕ)
      → ((i q : ℕ) → IsCurrent p log s i q → Within base q)
      → Chooses p log s seq_after (find_newest_current_sector p log s)
  unfolding find_newest_current_sector pick_newest
  find_newest_current_sector_lem base window =
      let (c, best, run) =
        find_with-keeps p log s pick_newest (Best p log s seq_after)
          (Best-step p log s seq_after base window after_irrefl (after_trans base) pick_newest
            (λ i h. refl) (λ i j q h. refl))
          (Best-skip p log s seq_after base window after_irrefl (after_trans base)) harmless
          (λ i r l cur. omega arith) in
      Chooses-of seq_after (find_newest_current_sector p log s) c best run

  -- Likewise nlog3_find_oldest_sector gives one such that no current sector has an earlier sequence.
  pub find_oldest_sector_lem :
      (base : ℕ)
      → ((i q : ℕ) → IsCurrent p log s i q → Within base q)
      → Chooses p log s seq_before (find_oldest_sector p log s)
  unfolding find_oldest_sector pick_oldest
  find_oldest_sector_lem base window =
      let (c, best, run) =
        find_with-keeps p log s pick_oldest (Best p log s seq_before)
          (Best-step p log s seq_before base window before_irrefl (before_trans base) pick_oldest
            (λ i h. refl) (λ i j q h. refl))
          (Best-skip p log s seq_before base window before_irrefl (before_trans base)) harmless
          (λ i r l cur. omega arith) in
      Chooses-of seq_before (find_oldest_sector p log s) c best run
