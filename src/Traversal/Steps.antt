-- ===== src/Traversal/Steps.antt =====
-- A visit of src/transform.c, by what is visited.
use c_strider.Prelude.{ℕ, suc, ◌+◌, ◌≡◌, ◌≢◌, true, false, some, ◌==◌, arith}
use c_strider.Table.{find}
use c_strider.Types.{TypeEntry, no_type}
use c_strider.Traversal.{memoized_is_ptr, visit, visit_step, visit_entry, visit_ptr, visit_new}
use c_strider.Traversal.State.{World, Env, find_mapping}

abbrev pub counted_visit : {U : Type 0} → World U → World U
counted_visit w = record w { visitcalls = w.visitcalls + 1 }

module _ {U : Type 0} (env : Env U) (f input t output : ℕ) (w : World U)
    (is_type : t ≢ no_type) where
  pub visit-prim :
      env.program.is_prim t ≡ true
      → visit env (suc f) input t output w
        ≡ env.perfaction_prim (visit env f) input t output (counted_visit w)
  unfolding visit visit_step
  visit-prim p = let known : (t == no_type) ≡ false = ground arith in rw (known, p)

  -- A pointer that is met for the first time.
  pub visit-pointer :
      (e : TypeEntry)
      → env.program.is_prim t ≡ false
      → find t w.types ≡ some e
      → memoized_is_ptr e ≡ true
      → input ≢ 0
      → find_mapping (w.mem input) w ≡ 0
      → visit env (suc f) input t output w
        ≡ visit_new env (visit env f) e input t output (counted_visit w)
  unfolding visit visit_step visit_entry visit_ptr find_mapping
  visit-pointer e p found ptr live new =
      let known : (t == no_type) ≡ false = ground arith in
      let proper : (input == 0) ≡ false = ground arith in rw (known, p, found, ptr, new, proper)
