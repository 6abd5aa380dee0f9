-- ===== src/Nvol3/View/Insert.antt =====
-- insert_lookup_table on a dictionary that is a map.
use qoraal_flash.Common.{
  ℕ, ◌≡◌, refl, sym, subst, ap, ◌∙◌, inl, inr, true, Option, none, some, [], arith, ◌==◌,
  if◌then◌else◌, Bool-cases,
}
use qoraal_flash.Common.Word.{sub32}
use qoraal_flash.Common.Run.{done}
use qoraal_flash.Nvol3.Dictionary.{same_key, Dictionary, IsMap, Entry, Key}
use qoraal_flash.Nvol3.Volume.{Config, Record, World, with_vol, malloc, u16}
use qoraal_flash.Nvol3.Table.{entry_of, key_of, insert_in, same_size, cached_size, local_of}
use qoraal_flash.Nvol3.View.{same_key-eq, same_key-ne, IsFitting}

-- An entry that caches nothing has an empty cache.
abbrev pub IsTight : Config → Option Entry → Type 0
IsTight cfg none = Unit
IsTight cfg (some e) = cached_size cfg e.length ≡ 0 → e.local ≡ []

pub entry_of-IsTight :
    (cfg : Config) (rec : Record) (i : ℕ)
    → IsFitting cfg rec
    → IsTight cfg (some (entry_of cfg rec i []))
unfolding entry_of cached_size
entry_of-IsTight cfg rec i f h =
    let size : u16 (sub32 rec.head.length cfg.key_size) ≡ sub32 rec.head.length cfg.key_size =
      omega (arith, f.has_key, f.short) in
    let none_cached : cached_size cfg (sub32 rec.head.length cfg.key_size) ≡ 0 =
      subst (λ n. cached_size cfg n ≡ 0) size h in
    rw none_cached refl

-- The cache that is kept does not show in the new entry.
kept_cache :
    (D : Dictionary) (cfg : Config) (rec : Record) (i : ℕ) (old : Option Entry)
    → IsTight cfg old
    → same_size D cfg rec old ≡ true
    → entry_of cfg rec i (local_of D cfg old) ≡ entry_of cfg rec i []
unfolding same_size entry_of
kept_cache D cfg rec i none t h = cc
kept_cache D cfg rec i (some e) t h =
    let size = sub32 rec.head.length cfg.key_size in
    let sizes : cached_size cfg e.length ≡ cached_size cfg size = ground arith in
    elim (Bool-cases (cached_size cfg size == 0)) [
      | inl nothing ↦
          let zero_cached : cached_size cfg e.length ≡ 0 = ground arith in rw (t zero_cached) refl
      | inr something ↦ rw something refl
    ]

module _ (D : Dictionary) (M : IsMap D) (cfg : Config) {Store : Type 0} where
  pub insert_in_lem :
      (d : D.Dict) (rec : Record) (i : ℕ) (w : World D.Dict Store)
      → w.allocations ≡ []
      → IsTight cfg (D.get d (key_of D cfg rec))
      → (d' : D.Dict) × (insert_in D cfg d rec i w
          ≡ done tt (with_vol (λ v. record v { dict = some d' }) w))
        × ((k : Key)
            → D.get d' k
              ≡ (if same_key (key_of D cfg rec) k then some (entry_of cfg rec i []) else D.get d k))
  unfolding insert_in malloc
  insert_in_lem d rec i w memory tight =
      let key = key_of D cfg rec in
      let entry = entry_of cfg rec i [] in
      elim (Bool-cases (same_size D cfg rec (D.get d key))) [
        | inl same ↦ (
          D.assign d key entry,
          rw (same, kept_cache D cfg rec i (D.get d key) tight same) refl,
          λ k. elim (Bool-cases (same_key key k)) [
            | inl e ↦ rw e (
                ap (D.get (D.assign d key entry)) (sym (same_key-eq key k e))
                ∙ M.get-assign d key entry)
            | inr e ↦ rw e (M.get-assign_ne d key k entry (same_key-ne key k e))
          ],
        )
        | inr differ ↦ (
          D.install (D.remove d key) key entry,
          rw (differ, memory) refl,
          λ k. elim (Bool-cases (same_key key k)) [
            | inl e ↦ rw e (
                ap (D.get (D.install (D.remove d key) key entry)) (sym (same_key-eq key k e))
                ∙ M.get-install (D.remove d key) key entry)
            | inr e ↦ rw e (
                M.get-install_ne (D.remove d key) key k entry (same_key-ne key k e)
                ∙ M.get-remove_ne d key k (same_key-ne key k e))
          ],
        )
      ]
