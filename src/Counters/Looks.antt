-- ===== src/Counters/Looks.antt =====
-- A traversal in place with `funs` of examples/heap_profile/profile.c, which only looks.
use c_strider.Prelude.{ℕ, ◌+◌, ◌≡◌, refl, true, false, ◌==◌}
use c_strider.Types.{get_maintype}
use c_strider.Traversal.{visit}
use c_strider.Traversal.State.{World, Env, Visit}
use c_strider.Traversal.Grows.{After, After-bind, After-or_fault, After-if}
use c_strider.Traversal.Still.{
  Still, Stays, VisitStays, LooksOnly, same-Stays, Stays-trans, After-Stays,
}
use c_strider.Traversal.InPlace.{visit_in_place}
use c_strider.Counters.{
  Counted, Counters, with_counters, count_if, count_pointer, visit_baz, profile_ptr,
  profile_ptr_mapped, profile_prim, profile_struct, counting,
}

-- The counters may change.
abbrev pub nothing : Counters → Unit {0}
nothing c = tt

module _ (ts : Counted) where
  counters-Stays :
      (c : Counters) (w : World Counters) → Still w → Stays nothing w (with_counters c w)
  counters-Stays c w s = same-Stays nothing w (with_counters c w) s refl refl refl s.in_place refl

  visit_baz-Stays :
      (rec : Visit Counters)
      → VisitStays nothing rec
      → (a : ℕ) (w : World Counters) → Still w
      → After (Stays nothing w) (visit_baz ts rec a w)
  unfolding visit_baz
  visit_baz-Stays rec stays a w s =
      After-bind (Stays nothing w) (Stays nothing w)
        (rec (a + ts.baz_len) ts.type_int (a + ts.baz_len) w) _
        (stays (a + ts.baz_len) ts.type_int w s)
        (λ w1 g.
          After-if (Stays nothing w) (a == 0) _ _ (λ _. tt)
            (λ _.
              After-Stays nothing w w1 _ g
                (stays (a + ts.baz_stupid) ts.type_fptr_ll_ptr w1 g.still)))

  profile_ptr-Stays :
      (rec : Visit Counters)
      → VisitStays nothing rec
      → (a t : ℕ) (w : World Counters) → Still w
      → After (λ r. Stays nothing w (r.1)) (profile_ptr ts rec a t a w)
  unfolding profile_ptr count_pointer
  profile_ptr-Stays rec stays a t w s =
      let w1 : World Counters =
        with_counters (record w.user { num_ptr = count_if true w.user.num_ptr }) w in
      let first : Stays nothing w w1 = counters-Stays w1.user w s in
      After-if (λ r. Stays nothing w (r.1)) (t == ts.type_baz_ptr) _ _
        (λ _.
          After-bind (Stays nothing w) (λ r. Stays nothing w (r.1)) (visit_baz ts rec (w1.mem a) w1)
            _
            (After-Stays nothing w w1 _ first (visit_baz-Stays rec stays (w1.mem a) w1 first.still))
            (λ w2 g. g))
        (λ _.
          After-bind (Stays nothing w) (λ r. Stays nothing w (r.1)) (count_pointer ts t w1) _
            (After-or_fault (Stays nothing w) (get_maintype w1.types t) _
              (λ main. Stays-trans nothing first (counters-Stays _ w1 first.still)))
            (λ w2 g. g))

  counting-LooksOnly : (env : Env Counters) → LooksOnly nothing (counting ts env)
  unfolding profile_prim profile_struct profile_ptr_mapped
  counting-LooksOnly env = record {
    prim_looks = λ rec stays a t w s. counters-Stays _ w s;
    struct_looks = λ rec stays a t w s. counters-Stays _ w s;
    ptr_looks = λ rec stays a t w s. profile_ptr-Stays rec stays a t w s;
    mapped_looks = λ rec stays a t w s. (counters-Stays _ w s, refl);
  }

  -- A visit in place with the callbacks that count, without helper threads, where what is mapped is
  -- mapped to itself, no type changes its size and what the queues hold is to be worked on in place:
  -- whenever it returns, the memory and the type table are as they were, and what is mapped is mapped
  -- to itself.
  pub counting_looks_only :
      (env : Env Counters) (fuel a t : ℕ) (w : World Counters)
      → env.is_parallel ≡ false
      → Still w
      → After (Stays nothing w) (visit (counting ts env) fuel a t a w)
  counting_looks_only env fuel a t w alone s =
      visit_in_place nothing (counting ts env) (counting-LooksOnly env) alone fuel a t w s
