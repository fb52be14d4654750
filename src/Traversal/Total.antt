-- ===== src/Traversal/Total.antt =====
-- Total correctness of a run, rule by rule, and what a service owes the traversal of
-- src/transform.c.
use c_strider.Prelude.{ℕ, ◌<◌, ◌≡◌, ◌≢◌, refl, Bool, true, false, Option, none, some, if◌then◌else◌}
use c_strider.Outcome.{Outcome, done, fault, out_of_fuel, or_fault, ◌>>=◌}
use c_strider.Table.{find}
use c_strider.Types.{TypeEntry, TypeTable, no_type}
use c_strider.Traversal.State.{World, Env, Visit}

-- The run ends, and a result has the property. (A fault is an end.)
abbrev pub Ends : {A : Type 0} → (A → Type 0) → Outcome A → Type 0
Ends P (done a) = P a
Ends P fault = Unit
Ends P out_of_fuel = ⊥

pub Ends-bind :
    {A B : Type 0} (P : A → Type 0) (Q : B → Type 0) (m : Outcome A) (f : A → Outcome B)
    → Ends P m
    → ((a : A) → P a → Ends Q (f a))
    → Ends Q (m >>= f)
Ends-bind P Q (done a) f h k = k a h
Ends-bind P Q fault f h k = tt
Ends-bind P Q out_of_fuel f h k = absurd h

pub Ends-or_fault :
    {A B : Type 0} (Q : B → Type 0) (o : Option A) (f : A → Outcome B)
    → ((a : A) → o ≡ some a → Ends Q (f a))
    → Ends Q (or_fault o >>= f)
Ends-or_fault Q none f k = tt
Ends-or_fault Q (some a) f k = k a refl

pub Ends-if :
    {A : Type 0} (P : A → Type 0) (b : Bool) (x y : Outcome A)
    → (b ≡ true → Ends P x)
    → (b ≡ false → Ends P y)
    → Ends P (if b then x else y)
Ends-if P true x y h k = h refl
Ends-if P false x y h k = k refl

-- `rank` falls from a pointer type to its target and from an array type to its elements' type.
pub record FallsFor (rank : ℕ → ℕ) (t : ℕ) (e : TypeEntry) : Type 0 where
  pub target : e.target_type ≢ no_type → rank e.target_type < rank t
  pub elements : e.arrlen ≢ 0 → rank e.arrbase < rank t

abbrev pub Falls : (ℕ → ℕ) → TypeTable → Type 0
Falls rank tbl = (t : ℕ) (e : TypeEntry) → find t tbl ≡ some e → FallsFor rank t e

-- Visits of the types below `bound` end and keep the types ranked.
abbrev pub EndsBelow : {U : Type 0} → (ℕ → ℕ) → ℕ → Visit U → Type 0
EndsBelow {U} rank bound rec =
    (t : ℕ)
    → rank t < bound
    → (input output : ℕ) (w : World U) → Falls rank w.types
    → Ends (λ w'. Falls rank w'.types) (rec input t output w)

-- What a service has to do for the traversal to end: its callbacks for a type end, and keep the
-- types ranked, if the visits do that they make of types of lower rank.
pub record Lawful {U : Type 0} (rank : ℕ → ℕ) (env : Env U) : Type 0 where
  pub prim_ends :
      (rec : Visit U) (t : ℕ)
      → EndsBelow rank (rank t) rec
      → (input output : ℕ) (w : World U) → Falls rank w.types
      → Ends (λ w'. Falls rank w'.types) (env.perfaction_prim rec input t output w)
  pub struct_ends :
      (rec : Visit U) (t : ℕ)
      → EndsBelow rank (rank t) rec
      → (input output : ℕ) (w : World U) → Falls rank w.types
      → Ends (λ r. Falls rank (r.1.types)) (env.perfaction_struct rec input t output w)
  pub ptr_ends :
      (rec : Visit U) (t : ℕ)
      → EndsBelow rank (rank t) rec
      → (input output : ℕ) (w : World U) → Falls rank w.types
      → Ends (λ r. Falls rank (r.1.types)) (env.perfaction_ptr rec input t output w)
  pub mapped_ends :
      (rec : Visit U) (t : ℕ)
      → EndsBelow rank (rank t) rec
      → (input lookup : ℕ) (w : World U) → Falls rank w.types
      → Ends (λ r. Falls rank (r.1.types)) (env.perfaction_ptr_mapped rec input t lookup w)
