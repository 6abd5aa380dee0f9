-- ===== src/Regenum/Again.antt =====
-- An object that is registered twice.
use qoraal_flash.Common.{
  ℕ, zero, suc, ◌≤◌, ◌<◌, ◌≡◌, ◌≢◌, refl, ap, ◌∙◌, Bool, false, none, some, [], ◌∷◌, arith,
}
use qoraal_flash.Common.Word.{pos}
use qoraal_flash.Common.Run.{err, done, eok, out_of_rounds, state_of, status_of}
use qoraal_flash.Regenum.{
  EnumType, Name, Registry, type_id_max, same_int, walk, type_by_id_internal, store, label, link,
  valid_id, register_checked, register_type, type_at,
}
use qoraal_flash.Regenum.Chain.{walk_lem, find_tail_lem}
use qoraal_flash.Regenum.Register.{IsRegistry, plain_id}

-- A walk that comes to an object which points to itself does not leave it.
spin :
    (test : EnumType → Bool) (cell : ℕ → EnumType) (a n : ℕ)
    → test (cell a) ≡ false
    → (cell a).next ≡ some a
    → walk test n cell (some a) ≡ err out_of_rounds
unfolding walk
spin test cell a zero fails loops = refl
spin test cell a (suc n) fails loops = rw (fails, loops) (spin test cell a n fails loops)

module _ (r : Registry) (a id : ℕ) (reg : IsRegistry r (a ∷ [])) (small : id ≤ type_id_max)
    (other : (r.cell a).id ≢ id) where
  looped : Registry
  looped = link (some a) a (label a id r)

  registered_again : (n : ℕ) → 1 < n → register_checked n a id r ≡ done tt looped
  unfolding register_checked type_by_id_internal same_int label store looped
  registered_again n h =
      let absent =
        walk_lem (λ t. same_int (pos t.id) (pos id)) r.cell r.head (a ∷ []) n reg.linked h in
      let tail =
        find_tail_lem (label a id r).cell (label a id r).head none (a ∷ []) n
          (reg.linked.0, ground arith) h in
      ground (arith, absent, tail, other)

  looped-next : (looped.cell a).next ≡ some a
  unfolding looped link label store
  looped-next = ground arith

  looped-id : (looped.cell a).id ≡ id
  unfolding looped link label store
  looped-id = ground arith

  looped-head : looped.head ≡ some a
  unfolding looped link label store
  looped-head = reg.linked.0

-- regenum_register_type does not notice that its object is the registered one. Under another free id
-- the object that is alone in the list is taken once more, and becomes its own successor: from then
-- on the search for any other id goes on for as many rounds as it is given.
pub register_type-again :
    (r : Registry) (a id m n k : ℕ) (name : Name)
    → IsRegistry r (a ∷ [])
    → id ≤ type_id_max
    → (r.cell a).id ≢ id
    → (r.cell a).type_name ≡ some name
    → 1 < n
    → m ≤ type_id_max
    → m ≢ id
    → (status_of (register_type n (some a) (pos id) r) ≡ eok)
      × (type_at k (state_of (register_type n (some a) (pos id) r)) m ≡ err out_of_rounds)
unfolding register_type valid_id type_at type_by_id_internal same_int
register_type-again r a id m n k name reg small other named enough small_m differs =
    let run : register_type n (some a) (pos id) r ≡ done tt (looped r a id reg small other) =
      ground (arith, named, registered_again r a id reg small other n enough) in
    let fails : same_int (pos ((looped r a id reg small other).cell a).id) (pos m) ≡ false =
      ground (arith, looped-id r a id reg small other) in
    (
      ap status_of run,
      ap (λ q. type_at k (state_of q) m) run
          ∙ rw (plain_id m small_m, looped-head r a id reg small other)
              (spin (λ t. same_int (pos t.id) (pos m)) (looped r a id reg small other).cell a k
                fails (looped-next r a id reg small other)),
    )
