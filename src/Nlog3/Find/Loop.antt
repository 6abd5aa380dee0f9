-- ===== src/Nlog3/Find/Loop.antt =====
-- The loop over all sector headers that the three searches of nlog3 share.
use qoraal_flash.Common.{
  ℕ, zero, suc, ◌+◌, ◌≤◌, ◌<◌, ◌≡◌, refl, subst, ap, true, none, arith, inl, inr,
}
use qoraal_flash.Common.Run.{Status, ok, err, Result-cases, done}
use qoraal_flash.Flash.{Platform}
use qoraal_flash.Nlog3.Format.{SectorHeader}
use qoraal_flash.Nlog3.Layout.{Log}
use qoraal_flash.Nlog3.Sector.{sector_header_read}
use qoraal_flash.Nlog3.Find.{over_sectors, skips, Choice, find_with, chosen}

module _ {Store : Type 0} (p : Platform Store) (log : Log) (s : Store)
    (pick : ℕ → SectorHeader → Choice → Choice) (Inv : ℕ → Choice → Type 0)
    (step : (i : ℕ) (h : SectorHeader) (c : Choice)
      → sector_header_read p log s i ≡ ok h
      → Inv i c
      → Inv (i + 1) (pick i h c))
    (skip : (i : ℕ) (e : Status) (c : Choice)
      → sector_header_read p log s i ≡ err e
      → Inv i c
      → Inv (i + 1) c) where
  -- What each round keeps holds at the end of a loop that is not cut off by an error.
  over_sectors-keeps :
      (n i : ℕ) (c c' : Choice)
      → Inv i c
      → over_sectors p log s (λ j h d. done tt (pick j h d)) n i c ≡ done tt c'
      → Inv (i + n) c'
  unfolding over_sectors
  over_sectors-keeps zero i c c' inv run =
      let same : c ≡ c' = cc in
      let last : i + 0 ≡ i = omega arith in
      subst (λ k. Inv k c') (omega arith) (subst (Inv i) same inv)
  over_sectors-keeps (suc n) i c c' inv run =
      let sum : i + 1 + n ≡ i + suc n = omega arith in
      subst (λ k. Inv k c') sum
        (elim (Result-cases (sector_header_read p log s i)) [
          | inl (h, read) ↦
              over_sectors-keeps n (i + 1) (pick i h c) c' (step i h c read inv)
                (ground (arith, read))
          | inr (e, read) ↦
              over_sectors-keeps n (i + 1) c c' (skip i e c read inv) (ground (arith, read))
        ])

  -- Where every error of a header passes the sector over, the loop ends without one.
  over_sectors-done :
      ((i : ℕ) (e : Status)
        → i < log.sectorcount
        → sector_header_read p log s i ≡ err e
        → skips e ≡ true)
      → (n i : ℕ) (c : Choice) → i + n ≤ log.sectorcount
      → (c' : Choice) × (over_sectors p log s (λ j h d. done tt (pick j h d)) n i c ≡ done tt c')
  unfolding over_sectors
  over_sectors-done harmless zero i c le = (c, refl)
  over_sectors-done harmless (suc n) i c le = elim (Result-cases (sector_header_read p log s i)) [
    | inl (h, read) ↦
        let (c', run) = over_sectors-done harmless n (i + 1) (pick i h c) (omega arith) in
        (c', ground (arith, read, run))
    | inr (e, read) ↦
        let (c', run) = over_sectors-done harmless n (i + 1) c (omega arith) in
        (c', ground (arith, read, run, harmless i e (omega arith) read))
  ]

  -- Then the search ends with the property for all sectors, and its result is what it has found.
  pub find_with-keeps :
      ((i : ℕ) (e : Status)
        → i < log.sectorcount
        → sector_header_read p log s i ≡ err e
        → skips e ≡ true)
      → Inv 0 none
      → (c : Choice) × Inv log.sectorcount c × (find_with p pick log s ≡ chosen (done tt c))
  unfolding find_with
  find_with-keeps harmless inv =
      let (c, run) = over_sectors-done harmless log.sectorcount 0 none (omega arith) in
      let last : 0 + log.sectorcount ≡ log.sectorcount = omega arith in
      (
        c,
        subst (λ k. Inv k c) last (over_sectors-keeps log.sectorcount 0 none c inv run),
        ap chosen run,
      )
