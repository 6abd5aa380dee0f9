-- ===== src/Regenum/Register.antt =====
-- regenum_register_type on a chain of types.
use qoraal_flash.Common.{
  ℕ, ◌+◌, ◌%◌, ◌≤◌, ◌<◌, ◌≡◌, ◌≢◌, refl, subst, sym, ap, ◌∙◌, Option, none, some, List, [], ◌∷◌,
  ◌++◌, length, length-append, ◌==◌, if◌then◌else◌, All, arith, ==_refl, Bool-cases, inl, inr,
}
use qoraal_flash.Common.Word.{pos, u32_mod, int32_of}
use qoraal_flash.Common.Run.{ok, done, stop, e_inval}
use qoraal_flash.Regenum.{
  EnumType, Name, Registry, type_id_max, same_int, type_by_id_internal, store, label, link,
  valid_id, register_checked, register_type, type_at,
}
use qoraal_flash.Regenum.Chain.{
  Linked, Distinct, first_such, last_from, last_of, walk_lem, find_tail_lem, Linked-kept,
  Linked-append, last_of-some, last_from-All,
}

-- The objects `xs` are registered, in this order: they are linked from the head, and their ids are
-- different and in range.
pub record IsRegistry (r : Registry) (xs : List ℕ) : Type 0 where
  pub linked : Linked r.cell r.head xs
  pub distinct : Distinct xs
  pub in_range : All (λ x. (r.cell x).id ≤ type_id_max) xs

-- An object is not among the registered ones, and none of them has the id.
pub record IsNew (r : Registry) (xs : List ℕ) (a id : ℕ) : Type 0 where
  pub apart : All (λ x. x ≢ a) xs
  pub unused : All (λ x. (r.cell x).id ≢ id) xs

All-map : (P Q : ℕ → Type 0) (xs : List ℕ) → ((x : ℕ) → P x → Q x) → All P xs → All Q xs
All-map P Q [] f h = tt
All-map P Q (x ∷ xs) f (h, hs) = (f x h, All-map P Q xs f hs)

All-both : (P Q : ℕ → Type 0) (xs : List ℕ) → All P xs → All Q xs → All (λ x. P x × Q x) xs
All-both P Q [] h k = tt
All-both P Q (x ∷ xs) (h, hs) (k, ks) = ((h, k), All-both P Q xs hs ks)

All-snoc : (P : ℕ → Type 0) (xs : List ℕ) (a : ℕ) → All P xs → P a → All P (xs ++ (a ∷ []))
All-snoc P [] a h p = (p, tt)
All-snoc P (x ∷ xs) a (h, hs) p = (h, All-snoc P xs a hs p)

Distinct-snoc :
    (xs : List ℕ) (a : ℕ) → Distinct xs → All (λ x. x ≢ a) xs → Distinct (xs ++ (a ∷ []))
Distinct-snoc [] a d n = (tt, tt)
Distinct-snoc (x ∷ xs) a (dx, d) (n, ns) =
    (All-snoc (λ y. y ≢ x) xs a dx (λ e. n (sym e)), Distinct-snoc xs a d ns)

pub plain_id : (id : ℕ) → id ≤ type_id_max → int32_of (id % u32_mod) ≡ pos id
unfolding int32_of
plain_id id small = ground arith

no_such :
    (cell : ℕ → EnumType) (id : ℕ) (xs : List ℕ)
    → All (λ x. (cell x).id ≢ id) xs
    → first_such (λ t. same_int (pos t.id) (pos id)) cell xs ≡ none
unfolding same_int
no_such cell id [] h = refl
no_such cell id (x ∷ xs) (h, hs) = ground (arith, no_such cell id xs hs)

found_last :
    (cell : ℕ → EnumType) (id : ℕ) (xs : List ℕ) (a : ℕ)
    → All (λ x. (cell x).id ≢ id) xs
    → (cell a).id ≡ id
    → first_such (λ t. same_int (pos t.id) (pos id)) cell (xs ++ (a ∷ [])) ≡ some a
unfolding same_int
found_last cell id [] a h e = ground arith
found_last cell id (x ∷ xs) a (h, hs) e = ground (arith, found_last cell id xs a hs e)

-- The list with one more object, linked behind the last one.
Linked-after :
    (a : ℕ) (ys : List ℕ) (q : Registry)
    → Linked q.cell q.head ys
    → Distinct ys
    → All (λ x. x ≢ a) ys
    → (q.cell a).next ≡ none
    → Linked (link (last_of none ys) a q).cell (link (last_of none ys) a q).head (ys ++ (a ∷ []))
unfolding link store
Linked-after a [] q l d n end = (refl, end)
Linked-after a (y ∷ ys) q l d n end =
    subst (λ t. Linked (link t a q).cell (link t a q).head (y ∷ (ys ++ (a ∷ []))))
      (sym (last_of-some y ys))
      (
        l.0,
        (Linked-append q.cell
            (λ x.
              if x == last_from y ys
              then record (q.cell (last_from y ys)) { next = some a }
              else q.cell x)
            y ys a (refl, l.1) d (λ x other more. ground arith) n
            (ground (arith, ==_refl (last_from y ys)))
            (let other : a ≢ last_from y ys =
                λ e. last_from-All (λ z. z ≢ a) y ys n.0 n.1 (sym e) in
              ground (arith, other, end))).1,
      )

module _ (r : Registry) (xs : List ℕ) (a id : ℕ) (reg : IsRegistry r xs) (new : IsNew r xs a id)
    (small : id ≤ type_id_max) where
  abbrev after : Registry
  after = link (last_of none xs) a (label a id r)

  label-cell : (x : ℕ) → x ≢ a → (label a id r).cell x ≡ r.cell x
  unfolding label store
  label-cell x n = ground arith

  labelled : (label a id r).cell a ≡ record (r.cell a) { id = id; next = none }
  unfolding label store
  labelled = let plain : id % 65536 ≡ id = omega arith in rw (plain, ==_refl a) refl

  label-Linked : Linked (label a id r).cell (label a id r).head xs
  unfolding label store
  label-Linked =
      Linked-kept r.cell (label a id r).cell r.head xs (All-map _ _ xs label-cell new.apart)
        reg.linked

  kept_id : (t : Option ℕ) (x : ℕ) → x ≢ a → ((link t a (label a id r)).cell x).id ≡ (r.cell x).id
  unfolding link store
  kept_id none x n = ap EnumType.id (label-cell x n)
  kept_id (some y) x n = ground (arith, label-cell x n)

  new_id : (t : Option ℕ) → ((link t a (label a id r)).cell a).id ≡ id
  unfolding link store
  new_id none = ap EnumType.id labelled
  new_id (some y) = ground (arith, labelled)

  after-IsRegistry : IsRegistry after (xs ++ (a ∷ []))
  after-IsRegistry = record {
    linked =
        Linked-after a xs (label a id r) label-Linked reg.distinct new.apart
          (ap EnumType.next labelled);
    distinct = Distinct-snoc xs a reg.distinct new.apart;
    in_range =
        All-snoc _ xs a
          (All-map _ _ xs (λ x h. omega (arith, kept_id (last_of none xs) x h.0, h.1))
            (All-both _ _ xs new.apart reg.in_range))
          (omega (arith, new_id (last_of none xs)));
  }

  after-found : (n : ℕ) → length xs + 1 < n → type_at n after id ≡ ok (some a)
  unfolding type_at type_by_id_internal
  after-found n h = rw (plain_id id small) (
      walk_lem _ after.cell after.head (xs ++ (a ∷ [])) n after-IsRegistry.linked
        (omega (arith, length-append xs (a ∷ [])))
      ∙ ap ok (
          found_last after.cell id xs a
            (All-map _ _ xs (λ x h e. h.1 (sym (kept_id (last_of none xs) x h.0) ∙ e))
              (All-both _ _ xs new.apart new.unused))
            (new_id (last_of none xs))))

  registered : (n : ℕ) → length xs < n → register_checked n a id r ≡ done tt after
  unfolding register_checked type_by_id_internal
  registered n h =
      let absent =
        walk_lem (λ t. same_int (pos t.id) (pos id)) r.cell r.head xs n reg.linked h
        ∙ ap ok (no_such r.cell id xs new.unused) in
      let tail = find_tail_lem (label a id r).cell (label a id r).head none xs n label-Linked h in
      ground (arith, absent, tail)

-- regenum_register_type of a new object with a name, under an id that is in range and not used: the
-- object becomes the last registered one, and regenum_type_at finds it under its id.
pub register_type_lem :
    (r : Registry) (xs : List ℕ) (a id n : ℕ) (name : Name)
    → IsRegistry r xs
    → IsNew r xs a id
    → id ≤ type_id_max
    → (r.cell a).type_name ≡ some name
    → length xs + 1 < n
    → (r' : Registry) × (register_type n (some a) (pos id) r ≡ done tt r')
      × IsRegistry r' (xs ++ (a ∷ []))
      × (type_at n r' id ≡ ok (some a))
unfolding register_type valid_id
register_type_lem r xs a id n name reg new small named enough = (
  after r xs a id reg new small,
  ground (arith, named, registered r xs a id reg new small n (omega arith)),
  after-IsRegistry r xs a id reg new small,
  after-found r xs a id reg new small n enough,
)

-- Some object of a list that has an object with the id is found.
found_such :
    (cell : ℕ → EnumType) (id : ℕ) (ys : List ℕ) (b : ℕ) (zs : List ℕ)
    → (cell b).id ≡ id
    → (c : ℕ) × (first_such (λ t. same_int (pos t.id) (pos id)) cell (ys ++ (b ∷ zs)) ≡ some c)
unfolding same_int
found_such cell id [] b zs e = (b, ground arith)
found_such cell id (y ∷ ys) b zs e = elim (Bool-cases ((cell y).id == id)) [
  | inl here ↦ (y, ground (arith, here))
  | inr other ↦ let (c, found) = found_such cell id ys b zs e in (c, ground (arith, other, found))
]

-- Where one of the registered objects has the id, in range, regenum_register_type of a named object
-- under it returns E_INVAL, and nothing changes: wherever in the list that object stands, and whether
-- it is the same object or another one.
pub register_type-duplicate :
    (r : Registry) (ys zs : List ℕ) (a b n : ℕ) (name : Name)
    → IsRegistry r (ys ++ (b ∷ zs))
    → (r.cell b).id ≤ type_id_max
    → (r.cell a).type_name ≡ some name
    → length (ys ++ (b ∷ zs)) < n
    → register_type n (some a) (pos (r.cell b).id) r ≡ stop e_inval r
unfolding register_type valid_id register_checked type_by_id_internal
register_type-duplicate r ys zs a b n name reg small named enough =
    let (c, there) = found_such r.cell (r.cell b).id ys b zs refl in
    let found =
      walk_lem (λ t. same_int (pos t.id) (pos (r.cell b).id)) r.cell r.head (ys ++ (b ∷ zs)) n
        reg.linked enough
      ∙ ap ok there in
    ground (arith, named, found)
