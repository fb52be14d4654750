-- ===== src/Traversal/Grows.antt =====
-- Results of a run of src/transform.c, rule by rule, and the growth of the mapping table.
use c_strider.Prelude.{
  ℕ, ◌≡◌, ◌≢◌, refl, sym, ◌∙◌, Bool, true, false, Option, none, some, if◌then◌else◌, arith,
}
use c_strider.Outcome.{Outcome, done, fault, out_of_fuel, or_fault, ◌>>=◌}
use c_strider.Table.{find-add}
use c_strider.Traversal.State.{World, Env, Visit, find_mapping, add_mapping}

-- A result, if there is one, has the property.
abbrev pub After : {A : Type 0} → (A → Type 0) → Outcome A → Type 0
After P (done a) = P a
After P fault = Unit
After P out_of_fuel = Unit

pub After-bind :
    {A B : Type 0} (P : A → Type 0) (Q : B → Type 0) (m : Outcome A) (f : A → Outcome B)
    → After P m
    → ((a : A) → P a → After Q (f a))
    → After Q (m >>= f)
After-bind P Q (done a) f h k = k a h
After-bind P Q fault f h k = tt
After-bind P Q out_of_fuel f h k = tt

pub After-or_fault :
    {A B : Type 0} (Q : B → Type 0) (o : Option A) (f : A → Outcome B)
    → ((a : A) → After Q (f a))
    → After Q (or_fault o >>= f)
After-or_fault Q none f k = tt
After-or_fault Q (some a) f k = k a

pub After-if :
    {A : Type 0} (P : A → Type 0) (b : Bool) (x y : Outcome A)
    → (b ≡ true → After P x)
    → (b ≡ false → After P y)
    → After P (if b then x else y)
After-if P true x y h k = h refl
After-if P false x y h k = k refl

pub After-weaken :
    {A : Type 0} (P Q : A → Type 0) (m : Outcome A) → ((a : A) → P a → Q a) → After P m → After Q m
After-weaken P Q (done a) f h = f a h
After-weaken P Q fault f h = tt
After-weaken P Q out_of_fuel f h = tt

-- What is mapped stays mapped, to the same address.
pub record Grows {U : Type 0} (w w' : World U) : Type 0 where
  pub kept : (k : ℕ) → find_mapping k w ≢ 0 → find_mapping k w' ≡ find_mapping k w

abbrev pub VisitGrows : {U : Type 0} → Visit U → Type 0
VisitGrows {U} rec = (input t output : ℕ) (w : World U) → After (Grows w) (rec input t output w)

-- The callbacks of a service keep mappings if the visits that they make do.
pub record KeepsMappings {U : Type 0} (env : Env U) : Type 0 where
  pub prim_keeps :
      (rec : Visit U)
      → VisitGrows rec
      → (input t output : ℕ) (w : World U)
      → After (Grows w) (env.perfaction_prim rec input t output w)
  pub struct_keeps :
      (rec : Visit U)
      → VisitGrows rec
      → (input t output : ℕ) (w : World U)
      → After (λ r. Grows w (r.1)) (env.perfaction_struct rec input t output w)
  pub ptr_keeps :
      (rec : Visit U)
      → VisitGrows rec
      → (input t output : ℕ) (w : World U)
      → After (λ r. Grows w (r.1)) (env.perfaction_ptr rec input t output w)
  pub mapped_keeps :
      (rec : Visit U)
      → VisitGrows rec
      → (input t lookup : ℕ) (w : World U)
      → After (λ r. Grows w (r.1)) (env.perfaction_ptr_mapped rec input t lookup w)

module _ {U : Type 0} where
  pub Grows-trans : {u v w : World U} → Grows u v → Grows v w → Grows u w
  Grows-trans g h = record {
    kept = λ k ne. h.kept k (λ e. ne (sym (g.kept k ne) ∙ e)) ∙ g.kept k ne;
  }

  -- The mappings themselves are the same.
  pub same-Grows : (w w' : World U) → w'.mappings ≡ w.mappings → Grows w w'
  unfolding find_mapping
  same-Grows w w' e = record { kept = λ k ne. ground arith }

  pub After-trans :
      (u v : World U) (m : Outcome (World U)) → Grows u v → After (Grows v) m → After (Grows u) m
  After-trans u v (done w) g h = Grows-trans g h
  After-trans u v fault g h = tt
  After-trans u v out_of_fuel g h = tt

  pub add_mapping-Grows : (input output : ℕ) (w : World U) → Grows w (add_mapping input output w)
  unfolding add_mapping find_mapping
  add_mapping-Grows input output w = record {
    kept = λ k ne. ground (arith, find-add input k output w.mappings);
  }

  -- A pointer that is not mapped is mapped to the address that is given for it.
  pub add_mapping_lem :
      (input output : ℕ) (w : World U)
      → input ≢ 0
      → find_mapping input w ≡ 0
      → find_mapping input (add_mapping input output w) ≡ output
  unfolding add_mapping find_mapping
  add_mapping_lem input output w ne e = ground (arith, find-add input input output w.mappings)
