-- ===== src/Counters/Pointers.antt =====
-- What examples/heap_profile/profile.c counts when `visit` handles a pointer.
use c_strider.Prelude.{
  ℕ, ◌+◌, ◌%◌, ◌^◌, ◌≡◌, ◌≢◌, ap, ◌∙◌, true, false, some, ◌==◌, if◌then◌else◌, arith, Bool-cases,
  ==_refl, inl, inr,
}
use c_strider.Outcome.{done}
use c_strider.Types.{TypeEntry, get_maintype}
use c_strider.Traversal.{visit_ptr, visit_new, visit_mapped, memoized_is_funptr}
use c_strider.Traversal.State.{World, Env, Visit, store, find_mapping, add_mapping}
use c_strider.Traversal.Mappings.{add_mapping-user}
use c_strider.Counters.{
  Counted, Counters, with_counters, count_if, count_pointer, profile_ptr, profile_ptr_mapped,
  counting,
}

module _ (ts : Counted) (env : Env Counters) (rec : Visit Counters) (te : TypeEntry)
    (input output main : ℕ) (w : World Counters) where
  -- A pointer of the type `fptr_ll *`, which is not that of `baz *` and no function pointer, in a cell.
  -- Whether its target is mapped or not, num_fptr_ll_pointers has grown by one; num_ptr has grown by
  -- one if it is not, and only then is the target visited, in the state with these counts.
  pub fptr_ll_counted :
      input ≢ 0
      → ts.type_fptr_ll_ptr ≢ ts.type_baz_ptr
      → get_maintype w.types ts.type_fptr_ll_ptr ≡ some main
      → memoized_is_funptr te ≡ false
      → (w' : World Counters) × (visit_ptr
            (counting ts env)
            rec
            te
            input
            ts.type_fptr_ll_ptr
            output
            w
          ≡ (if find_mapping (w.mem input) w == 0
              then rec (w'.mem input) te.target_type (w'.mem output) w'
              else done w'))
        × (w'.user.num_fptr_ll_pointers ≡ (w.user.num_fptr_ll_pointers + 1) % 2 ^ 32)
        × (w'.user.num_ptr ≡ (
            if find_mapping (w.mem input) w == 0
            then (w.user.num_ptr + 1) % 2 ^ 32
            else w.user.num_ptr))
  unfolding visit_ptr visit_new visit_mapped profile_ptr profile_ptr_mapped count_pointer count_if
  fptr_ll_counted cell other known object =
      let type : ℕ = ts.type_fptr_ll_ptr in
      let proper : (input == 0) ≡ false = ground arith in
      let no_baz : (type == ts.type_baz_ptr) ≡ false = ground arith in
      elim (Bool-cases (find_mapping (w.mem input) w == 0)) [
        | inl new ↦
            let m : World Counters =
              with_counters
                (record w.user {
                  num_ptr = count_if true w.user.num_ptr;
                  num_list = count_if (main == ts.type_list_ptr) w.user.num_list;
                  num_fptr_ll_pointers = count_if (type == type) w.user.num_fptr_ll_pointers;
                })
                w in
            let w1 : World Counters = add_mapping (m.mem input) (m.mem output) m in
            let same : w1.user ≡ m.user = add_mapping-user (m.mem input) (m.mem output) m in
            (
              w1,
              rw (proper, new, no_baz, known, object),
              ap (λ u. u.num_fptr_ll_pointers) same ∙ rw (==_refl type),
              ap (λ u. u.num_ptr) same ∙ rw new,
            )
        | inr old ↦ (
          store output (find_mapping (w.mem input) w) (
              with_counters
                (record w.user {
                  num_fptr_ll_pointers = count_if (type == type) w.user.num_fptr_ll_pointers;
                  num_dummy_dups = count_if (type == ts.type_dummy_ptr) w.user.num_dummy_dups;
                })
                w),
          rw (proper, old),
          rw (==_refl type),
          rw old,
        )
      ]
