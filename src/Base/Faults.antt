-- ===== src/Base/Faults.antt =====
-- Results of code that may do what C leaves undefined, fail a `CHECK` (src/utils.h) or not end.
use mathlib.Core.Path.{◌≡◌, refl}
use mathlib.Core.Bool.{Bool, true, false}
use mathlib.Core.Logic.{◌⊎◌, inl, inr}

-- `out_of_bounds`: an access outside an array. `int_overflow`: signed arithmetic out of range.
-- `unset`: a use of memory that nothing was written to.
-- `aborted`: a failed `CHECK`, which ends the process. `out_of_fuel`: the loop has not ended yet.
pub data Fault : Type 0 where
  out_of_bounds int_overflow unset aborted out_of_fuel : Fault

pub data Result {ℓ} (A : Type ℓ) : Type ℓ where
  ok : A → Result A
  fault : Fault → Result A

-- What follows a step runs only if the step did not fault.
infixl 5 ◌>>=◌
abbrev pub ◌>>=◌ {ℓ ℓ'} : {A : Type ℓ} {B : Type ℓ'} (m : Result A) (next : A → Result B) → Result B
fault x >>= next = fault x
ok x >>= next = next x

module _ {ℓ κ} {A : Type ℓ} {B : Type κ} where
  abbrev pub map_ok : (A → B) → Result A → Result B
  map_ok f (ok a) = ok (f a)
  map_ok f (fault e) = fault e

  pub map_ok-eq-fault : (f : A → B) (m : Result A) {e : Fault} → map_ok f m ≡ fault e → m ≡ fault e
  map_ok-eq-fault f (ok a) h = cc
  map_ok-eq-fault f (fault e) h = cc

  pub >>=-eq-ok :
      (m : Result A) (next : A → Result B) {y : B}
      → (m >>= next) ≡ ok y
      → (x : A) × (m ≡ ok x) × (next x ≡ ok y)
  >>=-eq-ok (fault z) next h = cc
  >>=-eq-ok (ok x) next h = (x, refl, h)

-- `CHECK(b)`, and the bounds of an access.
abbrev pub guard : (b : Bool) (x : Fault) → Result (Unit {0})
guard false x = fault x
guard true x = ok tt

infixl 5 ◌>>◌
abbrev pub ◌>>◌ {κ} : {B : Type κ} (check : Result (Unit {0})) (rest : Result B) → Result B
check >> rest = check >>= λ unit. rest

module _ {ℓ} {A : Type ℓ} where
  pub >>=_assoc {κ μ} :
      {B : Type κ} {C : Type μ} (m : Result A) (f : A → Result B) (g : B → Result C)
      → (m >>= f >>= g) ≡ (m >>= λ a. f a >>= g)
  >>=_assoc (ok a) f g = refl
  >>=_assoc (fault e) f g = refl

  pub >>=_ok : (m : Result A) → (m >>= λ a. ok a) ≡ m
  >>=_ok (ok a) = refl
  >>=_ok (fault e) = refl

  pub Result-cases : (m : Result A) → ((a : A) × (m ≡ ok a)) ⊎ ((e : Fault) × (m ≡ fault e))
  Result-cases (ok a) = inl (a, refl)
  Result-cases (fault e) = inr (e, refl)

abbrev pub IsOk {ℓ} : {A : Type ℓ} → Result A → Type 0
IsOk (ok a) = Unit
IsOk (fault e) = ⊥
