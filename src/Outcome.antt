-- ===== src/Outcome.antt =====
-- How a call can end: with a result, by a fault (a failed assertion, `exit`, or a read through NULL),
-- or unfinished, because the fuel of the model ran out.
use c_strider.Prelude.{◌≡◌, ◌≢◌, refl, Option, none, some}

pub data Outcome (A : Type 0) : Type 0 where
  done : A → Outcome A
  fault : Outcome A
  out_of_fuel : Outcome A

module _ {A B : Type 0} where
  infixl 5 ◌>>=◌
  abbrev pub ◌>>=◌ : Outcome A → (A → Outcome B) → Outcome B
  done a >>= f = f a
  fault >>= f = fault
  out_of_fuel >>= f = out_of_fuel

  pub >>=-ne-out_of_fuel :
      (m : Outcome A) (f : A → Outcome B)
      → m ≢ out_of_fuel
      → ((a : A) → m ≡ done a → f a ≢ out_of_fuel)
      → (m >>= f) ≢ out_of_fuel
  >>=-ne-out_of_fuel (done a) f h k = k a refl
  >>=-ne-out_of_fuel fault f h k = λ e. cc
  >>=-ne-out_of_fuel out_of_fuel f h k = absurd (h refl)

abbrev pub or_fault : {A : Type 0} → Option A → Outcome A
or_fault none = fault
or_fault (some a) = done a
