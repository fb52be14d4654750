-- ===== src/Traversal/Memo.antt =====
-- The mapping table during a traversal of src/transform.c: what is mapped stays mapped, and a
-- pointer that has been visited is mapped.
use c_strider.Prelude.{
  ℕ, zero, suc, ◌+◌, ◌≡◌, ◌≢◌, refl, sym, ◌∙◌, subst, Bool, true, false, some, ◌==◌, if◌then◌else◌,
  ◌||◌, not, arith,
}
use c_strider.Outcome.{done, ◌>>=◌}
use c_strider.Table.{find}
use c_strider.Types.{TypeEntry, no_type}
use c_strider.Traversal.{
  memoized_is_ptr, memoized_is_funptr, visit_mapped, visit_new, visit_ptr, visit_entry, visit_step,
  visit,
}
use c_strider.Traversal.State.{World, Env, Visit, find_mapping, add_mapping, store}
use c_strider.Traversal.Grows.{
  After, After-if, After-weaken, Grows, VisitGrows, KeepsMappings, add_mapping_lem,
}
use c_strider.Traversal.Keeps.{visit_step-Grows}

-- With a service whose callbacks keep the mappings, a visit keeps each address mapped to what it
-- was mapped to.
pub visit-Grows :
    {U : Type 0} (env : Env U) (keeps : KeepsMappings env) (fuel : ℕ) → VisitGrows (visit env fuel)
unfolding visit
visit-Grows env keeps zero input t output w = tt
visit-Grows env keeps (suc fuel) input t output w =
    visit_step-Grows env keeps (visit env fuel) (visit-Grows env keeps fuel) input t output w

-- The state after the count of the calls of `visit` has gone up.
abbrev pub counted : {U : Type 0} → World U → World U
counted w = record w { visitcalls = w.visitcalls + 1 }

-- `visit` of a type that is known as a pointer type.
pub record IsPointer {U : Type 0} (env : Env U) (t : ℕ) (w : World U) : Type 0 where
  pub proper : t ≢ no_type
  pub composite : env.program.is_prim t ≡ false
  pub entry : TypeEntry
  pub known : find t w.types ≡ some entry
  pub pointer : memoized_is_ptr entry ≡ true

module _ {U : Type 0} (env : Env U) where
  visit-pointer :
      (fuel input t output : ℕ) (w : World U) (p : IsPointer env t w)
      → input ≢ 0
      → visit env (suc fuel) input t output w ≡ (
          if find_mapping (w.mem input) (counted w) == 0
          then visit_new env (visit env fuel) p.entry input t output (counted w)
          else visit_mapped env
              (visit env fuel)
              input
              t
              output
              (find_mapping (w.mem input) (counted w))
              (counted w))
  unfolding visit visit_step visit_entry visit_ptr
  visit-pointer fuel input t output w p ne =
      let real : (t == no_type) ≡ false = ground (arith, p.proper) in
      let live : (input == 0) ≡ false = ground arith in
      rw (real, p.composite, p.known, p.pointer, live)

  visit_new-maps :
      (rec : Visit U) (grows : VisitGrows rec) (te : TypeEntry) (input t output p : ℕ) (w : World U)
      {more : Bool} {w1 : World U}
      → env.perfaction_ptr rec input t output w ≡ done (more, w1)
      → w1.mem input ≡ p
      → p ≢ 0
      → w1.mem output ≢ 0
      → find_mapping p w1 ≡ 0
      → After (λ w'. find_mapping p w' ≡ w1.mem output) (visit_new env rec te input t output w)
  unfolding visit_new
  visit_new-maps rec grows te input t output p w {more} {w1} ran same live kept free =
      let q = w1.mem output in
      let w2 = add_mapping (w1.mem input) q w1 in
      let mapped : find_mapping p w2 ≡ q =
        subst (λ a. find_mapping p (add_mapping a q w1) ≡ q) (sym same)
          (add_mapping_lem p q w1 live free) in
      rw ran (
        After-if (λ w'. find_mapping p w' ≡ q) (not more || memoized_is_funptr te) _ _ (λ _. mapped)
          (λ _.
            After-weaken (Grows w2) (λ w'. find_mapping p w' ≡ q)
              (rec (w2.mem input) te.target_type (w2.mem output) w2)
              (λ w' g. g.kept p (λ e. kept (sym mapped ∙ e)) ∙ mapped)
              (grows (w2.mem input) te.target_type (w2.mem output) w2)))

  find_mapping-counted : (k : ℕ) (w : World U) → find_mapping k (counted w) ≡ find_mapping k w
  unfolding find_mapping
  find_mapping-counted k w = refl

  -- A pointer, not NULL, that is visited for the first time is mapped, if the visit returns, to what
  -- `perfaction_ptr` has left for it in the output, provided that the callbacks keep mappings and
  -- that this call of `perfaction_ptr` leaves the pointer as it is and unmapped, and the output not
  -- NULL.
  pub visit_maps :
      (keeps : KeepsMappings env) (fuel input t output : ℕ) (w : World U) (p : IsPointer env t w)
      {more : Bool} {w1 : World U}
      → input ≢ 0
      → w.mem input ≢ 0
      → find_mapping (w.mem input) w ≡ 0
      → env.perfaction_ptr (visit env fuel) input t output (counted w) ≡ done (more, w1)
      → w1.mem input ≡ w.mem input
      → w1.mem output ≢ 0
      → find_mapping (w.mem input) w1 ≡ 0
      → After
          (λ w'. find_mapping (w.mem input) w' ≡ w1.mem output)
          (visit env (suc fuel) input t output w)
  visit_maps keeps fuel input t output w p ne live unmapped ran same kept free =
      let first : find_mapping (w.mem input) (counted w) ≡ 0 =
        find_mapping-counted (w.mem input) w ∙ unmapped in
      rw (visit-pointer fuel input t output w p ne, first)
        (visit_new-maps (visit env fuel) (visit-Grows env keeps fuel) p.entry input t output
          (w.mem input) (counted w) ran same live kept free)

  -- A visit of a cell whose pointer is mapped does not follow it: it hands the mapped address to
  -- `perfaction_ptr_mapped` and stores what that makes of it in the output.
  pub visit-mapped_again :
      (fuel input t output : ℕ) (w : World U) (p : IsPointer env t w)
      → input ≢ 0
      → find_mapping (w.mem input) w ≢ 0
      → visit env (suc fuel) input t output w ≡ (
          env.perfaction_ptr_mapped
            (visit env fuel)
            input
            t
            (find_mapping (w.mem input) w)
            (counted w)
          >>= λ r. done (store output (r.0) (r.1)))
  unfolding visit_mapped
  visit-mapped_again fuel input t output w p ne mapped =
      let again : (find_mapping (w.mem input) (counted w) == 0) ≡ false =
        ground (arith, find_mapping-counted (w.mem input) w) in
      visit-pointer fuel input t output w p ne ∙ rw (again, find_mapping-counted (w.mem input) w)
