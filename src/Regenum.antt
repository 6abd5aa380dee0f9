-- ===== src/Regenum.antt =====
-- The registered enum types: src/regenum.c and include/qoraal-flash/regenum.h.
-- A type is an object of the application that regenum_register_type links into a list, so types are
-- cells of a heap, addressed by numbers, and a pointer that may be NULL is an Option. The walks along
-- the `next` pointers take the number of their rounds.
pub mod Chain
pub mod Register
pub mod Values
pub mod Again
mod Tests
use qoraal_flash.Common.{
  ℕ, zero, suc, ◌+◌, ◌-◌, ◌%◌, Bool, true, false, not, ◌&&◌, ◌||◌, Option, none, some, List, [],
  ◌∷◌, length, ltb, leb, ◌==◌, if◌then◌else◌, get_elem?,
}
use qoraal_flash.Common.Word.{u32_mod, ℤ, pos, negsuc, int32_of}
use qoraal_flash.Common.Run.{
  e_parm, e_notfound, e_eof, e_inval, out_of_rounds, Result, ok, err, bind, Run, done, stop, Cmd,
  and_then, lift,
}

-- A string without its final zero byte.
abbrev pub Name : Type 0
Name = List ℕ

-- REGENUM_VALUE_T
pub record EnumValue : Type 0 where
  pub name : Name
  pub value : ℤ

-- REGENUM_TYPE_T; `values` holds the `count` values of the array.
pub record EnumType : Type 0 where
  pub type_name : Option Name
  pub values : List EnumValue
  pub id : ℕ
  pub next : Option ℕ

-- The objects, and `_regenum_head`.
pub record Registry : Type 0 where
  pub cell : ℕ → EnumType
  pub head : Option ℕ

-- REGENUM_TYPE_ID_MAX
abbrev pub type_id_max : ℕ
type_id_max = 0x1FFF

-- `strcmp(a, b) == 0`
unfoldable pub same_name : Name → Name → Bool
same_name [] [] = true
same_name [] (y ∷ ys) = false
same_name (x ∷ xs) [] = false
same_name (x ∷ xs) (y ∷ ys) = (x == y) && same_name xs ys

unfoldable pub same_int : ℤ → ℤ → Bool
same_int (pos m) (pos n) = m == n
same_int (negsuc m) (negsuc n) = m == n
same_int (pos m) (negsuc n) = false
same_int (negsuc m) (pos n) = false

-- `while (cur) { if (...) return cur; cur = cur->next; } return NULL`
unfoldable pub walk : (EnumType → Bool) → ℕ → (ℕ → EnumType) → Option ℕ → Result (Option ℕ)
walk test zero cell cur = err out_of_rounds
walk test (suc n) cell none = ok none
walk test (suc n) cell (some a) =
    let rest = walk test n cell (cell a).next in if test (cell a) then ok (some a) else rest

unfoldable pub type_by_id_internal : ℕ → Registry → ℤ → Result (Option ℕ)
type_by_id_internal n r id = walk (λ t. same_int (pos t.id) id) n r.cell r.head

-- `cur->type_name && strcmp(cur->type_name, type_name) == 0`
unfoldable pub has_name : Name → EnumType → Bool
has_name name t = elim t.type_name [ none ↦ false | some own ↦ same_name own name ]

unfoldable pub find_type_internal : ℕ → Registry → Option Name → Result (Option ℕ)
find_type_internal n r none = ok none
find_type_internal n r (some name) = walk (has_name name) n r.cell r.head

-- `while (cur) { tail = cur; cur = cur->next; }`
unfoldable pub find_tail : ℕ → (ℕ → EnumType) → Option ℕ → Option ℕ → Result (Option ℕ)
find_tail zero cell cur tail = err out_of_rounds
find_tail (suc n) cell none tail = ok tail
find_tail (suc n) cell (some a) tail = find_tail n cell (cell a).next (some a)

-- An assignment through a pointer.
unfoldable pub store : ℕ → EnumType → Registry → Registry
store a t r = record r { cell = λ x. if x == a then t else r.cell x }

-- `type->id = (uint16_t)id; type->next = NULL`
unfoldable pub label : ℕ → ℕ → Registry → Registry
label a id r = store a (record (r.cell a) { id = id % 65536; next = none }) r

-- `if (tail) tail->next = type; else _regenum_head = type`
unfoldable pub link : Option ℕ → ℕ → Registry → Registry
link none a r = record r { head = some a }
link (some t) a r = store t (record (r.cell t) { next = some a }) r

-- `id < 0 || id > REGENUM_TYPE_ID_MAX`, and the id otherwise.
unfoldable pub valid_id : ℤ → Option ℕ
valid_id (negsuc n) = none
valid_id (pos id) = if ltb type_id_max id then none else some id

-- regenum_register_type from its second `if` on.
unfoldable pub register_checked : ℕ → ℕ → ℕ → Cmd Registry (Unit {0})
register_checked n a id r = elim (type_by_id_internal n r (pos id)) [
  | err e ↦ stop e r
  | ok (some other) ↦ stop e_inval r
  | ok none ↦
      let r' = label a id r in
      elim (find_tail n r'.cell r'.head none) [
        | err e ↦ stop e r'
        | ok tail ↦ done tt (link tail a r')
      ]
]

unfoldable pub register_type : ℕ → Option ℕ → ℤ → Cmd Registry (Unit {0})
register_type n none id r = stop e_parm r
register_type n (some a) id r = elim (r.cell a).type_name [
  | none ↦ stop e_parm r
  | some name ↦ elim (valid_id id) [ none ↦ stop e_parm r | some i ↦ register_checked n a i r ]
]

unfoldable pub type_next : Registry → Option ℕ → Option ℕ
type_next r none = none
type_next r (some a) = (r.cell a).next

-- The argument is a `size_t`, cast to `int32_t`.
unfoldable pub type_at : ℕ → Registry → ℕ → Result (Option ℕ)
type_at n r id = type_by_id_internal n r (int32_of (id % u32_mod))

unfoldable pub type_count : ℕ → (ℕ → EnumType) → Option ℕ → Result ℕ
type_count zero cell cur = err out_of_rounds
type_count (suc n) cell none = ok 0
type_count (suc n) cell (some a) = bind (type_count n cell (cell a).next) (λ c. ok (suc c))

-- `if (!enum_type) return E_NOTFOUND`, and the object that the pointer points to.
unfoldable pub the_type : Registry → Option ℕ → Result EnumType
the_type r none = err e_notfound
the_type r (some a) = ok (r.cell a)

unfoldable pub type_name_at : ℕ → Registry → ℕ → Result (Option Name)
type_name_at n r id = bind (bind (type_at n r id) (the_type r)) (λ t. ok t.type_name)

unfoldable pub type_index : ℕ → Registry → Option Name → Result ℕ
type_index n r none = err e_parm
type_index n r (some name) =
    bind (bind (find_type_internal n r (some name)) (the_type r)) (λ t. ok t.id)

-- The loops over the values of a type.
unfoldable pub by_name : Name → List EnumValue → Result ℤ
by_name name [] = err e_notfound
by_name name (v ∷ vs) =
    let rest = by_name name vs in if same_name v.name name then ok v.value else rest

unfoldable pub by_value : ℤ → List EnumValue → Result Name
by_value value [] = err e_notfound
by_value value (v ∷ vs) =
    let rest = by_value value vs in if same_int v.value value then ok v.name else rest

unfoldable pub by_inx : ℕ → List EnumValue → Result EnumValue
by_inx i vs = elim (get_elem? vs i) [ none ↦ err e_eof | some v ↦ ok v ]

-- `for (i = 0; i < count; i++) if (values[i].value == value) break`
unfoldable pub position : ℤ → List EnumValue → ℕ
position value [] = 0
position value (v ∷ vs) =
    let rest = position value vs in if same_int v.value value then 0 else suc rest

unfoldable pub value_at : List EnumValue → ℕ → Result ℤ
value_at vs i = bind (by_inx i vs) (λ v. ok v.value)

unfoldable pub next_value : ℤ → List EnumValue → Result ℤ
next_value value vs =
    let i = position value vs in
    if length vs == 0
    then err e_notfound
    else value_at vs (if leb (length vs - 1) i then 0 else suc i)

unfoldable pub prev_value : ℤ → List EnumValue → Result ℤ
prev_value value vs =
    let i = position value vs in
    if length vs == 0
    then err e_notfound
    else value_at vs (if leb (length vs) i || (i == 0) then length vs - 1 else i - 1)

-- `!enum_type || !name`
unfoldable pub needs_name : {A : Type 0} → Option Name → (Name → Result A) → Result A
needs_name none f = err e_notfound
needs_name (some name) f = f name

module _ (n : ℕ) (r : Registry) where
  unfoldable pub type_named : Option Name → Result EnumType
  type_named type_name = bind (find_type_internal n r type_name) (the_type r)

  unfoldable pub type_with_id : ℤ → Result EnumType
  type_with_id id = bind (type_by_id_internal n r id) (the_type r)

  unfoldable pub get_by_name : Option Name → Option Name → Result ℤ
  get_by_name type_name name =
      bind (type_named type_name) (λ t. needs_name name (λ s. by_name s t.values))

  unfoldable pub get_by_id_and_name : ℤ → Option Name → Result ℤ
  get_by_id_and_name id name =
      bind (type_with_id id) (λ t. needs_name name (λ s. by_name s t.values))

  unfoldable pub get_by_value : Option Name → ℤ → Result Name
  get_by_value type_name value = bind (type_named type_name) (λ t. by_value value t.values)

  unfoldable pub get_by_id_and_value : ℤ → ℤ → Result Name
  get_by_id_and_value id value = bind (type_with_id id) (λ t. by_value value t.values)

  unfoldable pub get_by_inx : Option Name → ℕ → Result EnumValue
  get_by_inx type_name idx = bind (type_named type_name) (λ t. by_inx idx t.values)

  unfoldable pub get_by_id_and_inx : ℤ → ℕ → Result EnumValue
  get_by_id_and_inx id idx = bind (type_with_id id) (λ t. by_inx idx t.values)

  unfoldable pub get_next : Option Name → ℤ → Result ℤ
  get_next type_name value = bind (type_named type_name) (λ t. next_value value t.values)

  unfoldable pub get_next_by_id : ℤ → ℤ → Result ℤ
  get_next_by_id id value = bind (type_with_id id) (λ t. next_value value t.values)

  unfoldable pub get_prev : Option Name → ℤ → Result ℤ
  get_prev type_name value = bind (type_named type_name) (λ t. prev_value value t.values)

  unfoldable pub get_prev_by_id : ℤ → ℤ → Result ℤ
  get_prev_by_id id value = bind (type_with_id id) (λ t. prev_value value t.values)
