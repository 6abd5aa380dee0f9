-- ===== src/Common/Run.antt =====
-- Results of `int32_t` functions: a status that stands for the return code, a result with an error
-- status, and commands that change a state and may stop with a status.
use Prim.Native.Nat.{ℕ}
use mathlib.Core.Path.{◌≡◌, refl}
use mathlib.Core.Logic.{◌⊎◌, inl, inr}

-- The return codes that the sources name, `fail` for EFAIL, and `other` for any further code of a
-- flash driver. No code returns the last two: `out_of_rounds` marks a loop of the model that was given
-- too few rounds, which the theorems on rounds exclude, and `undefined` a null pointer that the code
-- would follow.
pub data Status : Type 0 where
  eok e_parm e_notfound e_corrupt e_bof e_eof e_empty e_notrdy e_inval e_unexp fail e_nomem
        e_version e_invalid e_unknown e_timeout e_busy out_of_rounds undefined :
      Status
  other : ℕ → Status

pub data Result {ℓ} (A : Type ℓ) : Type ℓ where
  ok : A → Result A
  err : Status → Result A

-- `ok` keeps the value, an error other than EOK is passed on.
abbrev pub check {ℓ} : {A : Type ℓ} → Status → A → Result A
check eok a = ok a
check e a = err e

abbrev pub bind {ℓ κ} : {A : Type ℓ} {B : Type κ} → Result A → (A → Result B) → Result B
bind (ok a) f = f a
bind (err e) f = err e

-- What a command leaves: a value and the state, or the status at which it returned and the state.
pub data Run (W A : Type 0) : Type 0 where
  done : A → W → Run W A
  stop : Status → W → Run W A

abbrev pub Cmd : Type 0 → Type 0 → Type 0
Cmd W A = W → Run W A

module _ {W A : Type 0} where
  abbrev pub state_of : Run W A → W
  state_of (done a w) = w
  state_of (stop e w) = w

  abbrev pub status_of : Run W A → Status
  status_of (done a w) = eok
  status_of (stop e w) = e

  abbrev pub lift : Result A → Cmd W A
  lift (ok a) w = done a w
  lift (err e) w = stop e w

  -- The changes that the code makes on its way out with an error.
  abbrev pub on_stop : (W → W) → Run W A → Run W A
  on_stop f (done a w) = done a w
  on_stop f (stop e w) = stop e (f w)

  abbrev pub and_then : {B : Type 0} → Run W A → (A → Cmd W B) → Run W B
  and_then (done a w) k = k a w
  and_then (stop e w) k = stop e w

-- A chain that succeeds has succeeded at its first part.
pub bind-eq-ok {ℓ κ} :
    {A : Type ℓ} {B : Type κ} (m : Result A) (f : A → Result B) {b : B}
    → bind m f ≡ ok b
    → (a : A) × (m ≡ ok a) × (f a ≡ ok b)
bind-eq-ok (ok a) f h = (a, refl, h)
bind-eq-ok (err e) f h = cc

pub Result-cases {ℓ} :
    {A : Type ℓ} (r : Result A) → ((a : A) × (r ≡ ok a)) ⊎ ((e : Status) × (r ≡ err e))
Result-cases (ok a) = inl (a, refl)
Result-cases (err e) = inr (e, refl)

pub check-cases {ℓ} : {A : Type ℓ} (e : Status) (a : A) → (e ≡ eok) ⊎ (check e a ≡ err e)
check-cases eok a = inl refl
check-cases e a = inr refl

pub and_then_assoc :
    {W A B C : Type 0} (r : Run W A) (f : A → Cmd W B) (g : B → Cmd W C)
    → and_then r (λ a w. and_then (f a w) g) ≡ and_then (and_then r f) g
and_then_assoc (done a w) f g = refl
and_then_assoc (stop e w) f g = refl
