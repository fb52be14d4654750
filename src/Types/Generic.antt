-- ===== src/Types/Generic.antt =====
-- The type constructor `mktypfromgenargs` of src/cstrider_api.c.
use c_strider.Prelude.{
  ℕ, zero, suc, ◌<◌, ◌≡◌, ◌≢◌, inl, inr, ◌&&◌, none, some, List, ◌++◌, ◌==◌, if◌then◌else◌,
  Bool-cases, Option-cases, arith,
}
use c_strider.Hash.{super_fast_hash}
use c_strider.Table.{find, add}
use c_strider.Types.{TypeEntry, TypeTable, no_type}
use c_strider.Types.Construct.{bytes}
use c_strider.Outcome.{Outcome, done, out_of_fuel, or_fault, ◌>>=◌, >>=-ne-out_of_fuel}

-- The key that is hashed: a `hashgencs`.
abbrev pub gen_key : ℕ → ℕ → ℕ → ℕ → List ℕ
gen_key pad type numargs genargs =
    bytes 8 type ++ (bytes 4 numargs ++ (bytes 4 pad ++ bytes 8 genargs))

-- The type that a new generic type is made of: `te` with other arguments and the target `target`.
abbrev pub with_args : TypeEntry → ℕ → ℕ → ℕ → ℕ → ℕ → TypeEntry
with_args te combo t target numargs genargs = record te {
  type = combo;
  out_type = te.type;
  target_type = target;
  num_gen_args = numargs;
  args = genargs;
  maintype = t;
}

-- `rec` makes the generic type of the target.
pub make_generic :
    (ℕ → TypeTable → Outcome (ℕ × TypeTable)) → ℕ → ℕ → ℕ → ℕ → TypeTable → Outcome (ℕ × TypeTable)
make_generic rec combo t numargs genargs tbl = or_fault (find t tbl) >>= λ te.
    (if te.target_type == no_type then done (no_type, tbl) else rec te.target_type tbl) >>= λ r.
    done (combo, add combo (with_args te combo t r.0 numargs genargs) r.1)

pub generic_step :
    (ℕ → TypeTable → Outcome (ℕ × TypeTable)) → ℕ → ℕ → ℕ → ℕ → TypeTable → Outcome (ℕ × TypeTable)
generic_step rec pad t numargs genargs tbl =
    or_fault (super_fast_hash (some (gen_key pad t numargs genargs)) 24) >>= λ combo.
    elim (find combo tbl) [
      | none ↦ make_generic rec combo t numargs genargs tbl
      | some te ↦
          if te.num_gen_args == numargs && te.args == genargs
          then done (te.type, tbl)
          else make_generic rec combo t numargs genargs tbl
    ]

-- The recursion follows `target_type`, on fuel. `pad t` is the padding in the call for `t`.
pub mktypfromgenargs : ℕ → (ℕ → ℕ) → ℕ → ℕ → ℕ → TypeTable → Outcome (ℕ × TypeTable)
mktypfromgenargs zero pad t numargs genargs tbl = out_of_fuel
mktypfromgenargs (suc fuel) pad t numargs genargs tbl =
    generic_step (λ t'. mktypfromgenargs fuel pad t' numargs genargs) (pad t) t numargs genargs tbl

-- `rank` falls from a type to what it points to.
abbrev pub FallsAlongTargets : (ℕ → ℕ) → TypeTable → Type 0
FallsAlongTargets rank tbl =
    (t : ℕ) (e : TypeEntry)
    → find t tbl ≡ some e
    → e.target_type ≢ no_type
    → rank e.target_type < rank t

module _ (rank : ℕ → ℕ) (tbl : TypeTable) (falls : FallsAlongTargets rank tbl) where
  make_generic-ends :
      (rec : ℕ → TypeTable → Outcome (ℕ × TypeTable)) (combo t numargs genargs : ℕ)
      → ((t' : ℕ) → rank t' < rank t → rec t' tbl ≢ out_of_fuel)
      → make_generic rec combo t numargs genargs tbl ≢ out_of_fuel
  unfolding make_generic
  make_generic-ends rec combo t numargs genargs ends = elim (Option-cases (find t tbl)) [
    | inl unknown ↦ rw unknown (λ e. cc)
    | inr (te, known) ↦ elim (Bool-cases (te.target_type == no_type)) [
      | inl last ↦ ground (arith, known, last)
      | inr on ↦
          rw (known, on)
            (>>=-ne-out_of_fuel (rec te.target_type tbl) _
              (ends te.target_type (falls t te known (ground arith))) (λ a e. λ e'. cc))
    ]
  ]

  generic_step-ends :
      (rec : ℕ → TypeTable → Outcome (ℕ × TypeTable)) (pad t numargs genargs : ℕ)
      → ((t' : ℕ) → rank t' < rank t → rec t' tbl ≢ out_of_fuel)
      → generic_step rec pad t numargs genargs tbl ≢ out_of_fuel
  unfolding generic_step
  generic_step-ends rec pad t numargs genargs ends =
      elim (Option-cases (super_fast_hash (some (gen_key pad t numargs genargs)) 24)) [
        | inl e ↦ rw e (λ e'. cc)
        | inr (combo, e) ↦
            let made : make_generic rec combo t numargs genargs tbl ≢ out_of_fuel =
              make_generic-ends rec combo t numargs genargs ends in
            ground (arith, e, made)
      ]

  -- If no chain of pointer types goes round, `mktypfromgenargs` ends: any fuel above the rank of the
  -- type serves.
  pub mktypfromgenargs-ends :
      (fuel : ℕ) (pad : ℕ → ℕ) (t numargs genargs : ℕ)
      → rank t < fuel
      → mktypfromgenargs fuel pad t numargs genargs tbl ≢ out_of_fuel
  unfolding mktypfromgenargs
  mktypfromgenargs-ends zero pad t numargs genargs h = absurd (omega arith)
  mktypfromgenargs-ends (suc fuel) pad t numargs genargs h =
      generic_step-ends (λ t'. mktypfromgenargs fuel pad t' numargs genargs) (pad t) t numargs
        genargs (λ t' lower. mktypfromgenargs-ends fuel pad t' numargs genargs (omega arith))
