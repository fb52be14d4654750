-- ===== src/Lifecycle/InPlace.antt =====
-- A whole traversal, from `init` to `finish` of src/cstrider_api.c, without helper threads, by a
-- service whose callbacks only look.
use c_strider.Prelude.{
  ℕ, ◌≡◌, refl, sym, ap, ◌∙◌, subst, false, some, List, [], ◌∷◌, Option-cases, Bool-cases, inl, inr,
  arith,
}
use c_strider.Outcome.{done}
use c_strider.Table.{iter}
use c_strider.Queue.{start_dequeue}
use c_strider.Queue.Slots.{update-EachSlot}
use c_strider.Roots.{visit_roots, visit_globals, visit_all}
use c_strider.Traversal.{visit, process_loop}
use c_strider.Traversal.State.{World, Env, Visit}
use c_strider.Traversal.Grows.{After, After-bind}
use c_strider.Traversal.Still.{
  InPlace, Still, Stays, VisitStays, LooksOnly, After-Stays, same-Stays,
}
use c_strider.Traversal.InPlace.{visit_in_place}
use c_strider.Traversal.LoopInPlace.{GeneratedLooks, process_loop_in_place}
use c_strider.Lifecycle.{
  Runtime, RootCode, init, transform_init, launch_queues, launch_helpers, run_visit_all, enter_loop,
  init_thread_local, delayedfree, perform_delayedfree, helpers_wait, transform_free, finish,
}

-- The memory is the same, and so is what `kept` tells of the service's state.
pub record Untouched {U K : Type 0} (kept : U → K) (w w' : World U) : Type 0 where
  pub same_mem : w'.mem ≡ w.mem
  pub same_kept : kept w'.user ≡ kept w.user

module _ {U K : Type 0} (kept : U → K) (env : Env U) (code : RootCode U)
    (alone : env.is_parallel ≡ false) where
  launch_helpers-Untouched : (r : Runtime U) → Untouched kept r.world (launch_helpers env r).world
  unfolding launch_helpers launch_queues
  launch_helpers-Untouched r = elim (Bool-cases r.launched_helpers) [
    | inl already ↦ rw already (record { same_mem = refl; same_kept = refl })
    | inr first ↦ rw first (record { same_mem = refl; same_kept = refl })
  ]

  transform_init-Untouched :
      (r : Runtime U) → Untouched kept r.world (transform_init env code r).world
  unfolding transform_init
  transform_init-Untouched r = rw alone (record { same_mem = refl; same_kept = refl })

  pub init-Untouched :
      (r r1 : Runtime U) → init env code r ≡ done r1 → Untouched kept r.world r1.world
  unfolding init
  init-Untouched r r1 e = elim (Option-cases (code.register_init r.symbols)) [
    | inl unknown ↦ absurd (ground (arith, e, unknown))
    | inr (symbols, known) ↦
        (let r0 : Runtime U = transform_init env code (record r { symbols = symbols }) in
          let same : launch_helpers env r0 ≡ r1 = ground (arith, e, known) in
          let first = transform_init-Untouched (record r { symbols = symbols }) in
          let second = launch_helpers-Untouched r0 in
          subst (λ r'. Untouched kept r.world r'.world) same
            (record {
              same_mem = second.same_mem ∙ first.same_mem;
              same_kept = second.same_kept ∙ first.same_kept;
            }))
  ]

  launch_helpers-symbols : (r : Runtime U) → (launch_helpers env r).symbols ≡ r.symbols
  unfolding launch_helpers
  launch_helpers-symbols r = elim (Bool-cases r.launched_helpers) [
    | inl already ↦ rw already refl
    | inr first ↦ rw first refl
  ]

  -- The symbols after init are those that the program's generated code has registered.
  pub init-symbols :
      (r r1 : Runtime U)
      → init env code r ≡ done r1
      → code.register_init r.symbols ≡ some r1.symbols
  unfolding init transform_init
  init-symbols r r1 e = elim (Option-cases (code.register_init r.symbols)) [
    | inl unknown ↦ absurd (ground (arith, e, unknown))
    | inr (symbols, known) ↦
        (let r0 : Runtime U = transform_init env code (record r { symbols = symbols }) in
          let same : launch_helpers env r0 ≡ r1 = ground (arith, e, known) in
          known ∙ ap some (sym (launch_helpers-symbols r0) ∙ ap (λ k. k.symbols) same))
  ]

  module _ (looks : LooksOnly kept env) (generated : GeneratedLooks kept env)
      (roots : (key : ℕ) (w : World U) → Still w → After (Stays kept w) (code.run_root key w)) where
    visit_globals-Stays :
        (keys : List (ℕ × ℕ)) (w : World U)
        → Still w
        → After (Stays kept w) (visit_globals code.run_root keys w)
    unfolding visit_globals
    visit_globals-Stays [] w s = same-Stays kept w w s refl refl refl s.in_place refl
    visit_globals-Stays ((key, n) ∷ rest) w s =
        After-bind (Stays kept w) (Stays kept w) (code.run_root key w) _ (roots key w s)
          (λ w' g. After-Stays kept w w' _ g (visit_globals-Stays rest w' g.still))

    visit_roots-Stays :
        (rec : Visit U)
        → VisitStays kept rec
        → (keys : List (ℕ × ℕ)) (w : World U) → Still w
        → After (Stays kept w) (visit_roots rec keys w)
    unfolding visit_roots
    visit_roots-Stays rec stays [] w s = same-Stays kept w w s refl refl refl s.in_place refl
    visit_roots-Stays rec stays ((key, t) ∷ rest) w s =
        After-bind (Stays kept w) (Stays kept w) (rec key t key w) _ (stays key t w s)
          (λ w' g. After-Stays kept w w' _ g (visit_roots-Stays rec stays rest w' g.still))

    pub run_visit_all-Stays :
        (depth : ℕ) (r : Runtime U)
        → Still r.world
        → After (λ r'. Stays kept r.world r'.world) (run_visit_all env code depth r)
    unfolding run_visit_all visit_all
    run_visit_all-Stays depth r s =
        let w : World U = r.world in
        After-bind (Stays kept w) (λ r'. Stays kept w r'.world)
          (visit_all (visit env depth) code.run_root r.visit_all_hash r.registered w) _
          (After-bind (Stays kept w) (Stays kept w)
            (visit_globals code.run_root (iter r.visit_all_hash) w) _
            (visit_globals-Stays (iter r.visit_all_hash) w s)
            (λ w1 g. After-Stays kept w w1 _ g (
              visit_roots-Stays (visit env depth) (visit_in_place kept env looks alone depth)
                (iter r.registered) w1 g.still)))
          (λ w' g. g)

    pub finish-Untouched :
        (fuel depth : ℕ) (r : Runtime U)
        → Still r.world
        → After (λ r'. Untouched kept r.world r'.world) (finish env fuel depth r)
    unfolding finish helpers_wait transform_free perform_delayedfree enter_loop start_dequeue
        init_thread_local delayedfree
    finish-Untouched fuel depth r s =
        let w : World U = r.world in
        let entered : Stays kept w (enter_loop w) =
          same-Stays kept w (enter_loop w) s refl refl refl
            (update-EachSlot InPlace w.queues 0 (start_dequeue (w.queues 0)) s.in_place
              (s.in_place 0))
            refl in
        After-bind (λ r'. Untouched kept w r'.world) (λ r'. Untouched kept w r'.world)
          (helpers_wait env fuel depth r) _
          (After-bind (Stays kept w) (λ r'. Untouched kept w r'.world)
            (process_loop env fuel depth (enter_loop w)) _
            (After-Stays kept w (enter_loop w) _ entered (
              process_loop_in_place kept env looks generated alone fuel depth (enter_loop w)
                entered.still))
            (λ w' g. record { same_mem = g.same_mem; same_kept = g.same_kept }))
          (λ r' g. rw alone (record { same_mem = g.same_mem; same_kept = g.same_kept }))
