-- ===== src/Regenum/Tests.antt =====
-- Two enum types and the theorems of regenum.c at them.
use qoraal_flash.Common.{◌≡◌, refl, none, some, List, [], ◌∷◌, arith}
use qoraal_flash.Common.Word.{ℤ, pos, negsuc, int32_of}
use qoraal_flash.Common.Run.{ok, done, stop, e_inval, eok, err, out_of_rounds, state_of, status_of}
use qoraal_flash.Regenum.Again.{register_type-again}
use qoraal_flash.Regenum.{
  EnumValue, Registry, same_int, walk, register_type, type_at, type_by_id_internal, next_value,
  prev_value,
}
use qoraal_flash.Regenum.Chain.{first_such, walk_lem}
use qoraal_flash.Regenum.Register.{IsRegistry, register_type_lem, register_type-duplicate}
use qoraal_flash.Regenum.Values.{DistinctValues, next-prev}

-- { "off", 0 }, { "on", 1 }, { "err", -1 }
abbrev switch_values : List EnumValue
switch_values =
    (record { name = 111 ∷ 102 ∷ 102 ∷ []; value = pos 0 })
    ∷ (record { name = 111 ∷ 110 ∷ []; value = pos 1 })
    ∷ (record { name = 101 ∷ 114 ∷ 114 ∷ []; value = negsuc 0 })
    ∷ []

-- The object at address 0 is registered under the id 3.
abbrev one_type : Registry
one_type = record {
  cell =
      λ a. record { type_name = some (97 ∷ a ∷ []); values = switch_values; id = 3; next = none };
  head = some 0;
}

one_type-IsRegistry : IsRegistry one_type (0 ∷ [])
one_type-IsRegistry = record { linked = (refl, refl); distinct = (tt, tt); in_range = omega arith }

register_type_lem_example :
    (r' : Registry) × (register_type 4 (some 1) (pos 5) one_type ≡ done tt r')
    × IsRegistry r' (0 ∷ 1 ∷ [])
    × (type_at 4 r' 5 ≡ ok (some 1))
register_type_lem_example =
    register_type_lem one_type (0 ∷ []) 1 5 4 (97 ∷ 1 ∷ []) one_type-IsRegistry
      (record { apart = omega arith; unused = omega arith }) (omega arith) refl (omega arith)

type_at_three : type_at 4 one_type 3 ≡ ok (some 0)
unfolding type_at type_by_id_internal walk same_int int32_of
type_at_three = refl

register_type-duplicate_example : register_type 4 (some 1) (pos 3) one_type ≡ stop e_inval one_type
register_type-duplicate_example =
    register_type-duplicate one_type [] [] 1 0 4 (97 ∷ 1 ∷ []) one_type-IsRegistry (omega arith)
      refl (omega arith)

switch_values-distinct : DistinctValues switch_values
unfolding same_int
switch_values-distinct = ((refl, (refl, tt)), ((refl, tt), (tt, tt)))

next-prev_example :
    ((w : ℤ) × (next_value (negsuc 0) switch_values ≡ ok w)
      × (prev_value w switch_values ≡ ok (negsuc 0)))
    × ((w : ℤ) × (prev_value (negsuc 0) switch_values ≡ ok w)
        × (next_value w switch_values ≡ ok (negsuc 0)))
next-prev_example =
    next-prev switch_values 2 (record { name = 101 ∷ 114 ∷ 114 ∷ []; value = negsuc 0 })
      switch_values-distinct refl

walk_lem_example :
    walk (λ t. same_int (pos t.id) (pos 9)) 2 one_type.cell (some 0)
    ≡ ok (first_such (λ t. same_int (pos t.id) (pos 9)) one_type.cell (0 ∷ []))
walk_lem_example =
    walk_lem (λ t. same_int (pos t.id) (pos 9)) one_type.cell (some 0) (0 ∷ []) 2 (refl, refl)
      (omega arith)

register_type-again_example :
    (status_of (register_type 4 (some 0) (pos 5) one_type) ≡ eok)
    × (type_at 100 (state_of (register_type 4 (some 0) (pos 5) one_type)) 9 ≡ err out_of_rounds)
register_type-again_example =
    register_type-again one_type 0 5 9 4 100 (97 ∷ 0 ∷ []) one_type-IsRegistry (omega arith)
      (omega arith) refl (omega arith) (omega arith) (omega arith)
