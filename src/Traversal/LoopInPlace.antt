-- ===== src/Traversal/LoopInPlace.antt =====
-- The loop of `processqueue` of src/transform.c without helper threads, when all is done in place by a
-- service whose callbacks only look.
use c_strider.Prelude.{ℕ, zero, suc, ◌≡◌, refl, subst, false, Option, none, some}
use c_strider.Outcome.{done}
use c_strider.Table.{find}
use c_strider.Queue.{QueueArray, dequeue}
use c_strider.Queue.Slots.{dequeue-EachSlot, finished-EachSlot}
use c_strider.Types.{Xformer, prim, fptr, generated}
use c_strider.Traversal.{visit, callxformer, process_task, process_loop}
use c_strider.Traversal.State.{Task, World, Env, Visit}
use c_strider.Traversal.Grows.{After, After-bind, After-or_fault, After-if}
use c_strider.Traversal.Still.{
  InPlace, Still, Stays, VisitStays, LooksOnly, Stays-trans, After-Stays, same-Stays,
}
use c_strider.Traversal.InPlace.{transform_array-Stays, visit_in_place}

-- The generated code of a struct visits the fields where they are, and does nothing else.
abbrev pub GeneratedLooks : {U K : Type 0} → (U → K) → Env U → Type 0
GeneratedLooks {U} kept env =
    (rec : Visit U)
    → VisitStays kept rec
    → (i a t : ℕ) (w : World U) → Still w
    → After (Stays kept w) (env.run_generated rec i a a t w)

module _ {U K : Type 0} (kept : U → K) (env : Env U) (looks : LooksOnly kept env)
    (code : GeneratedLooks kept env) (alone : env.is_parallel ≡ false) where
  run-Stays :
      (rec : Visit U)
      → VisitStays kept rec
      → (x : Xformer) (a t : ℕ) (w : World U) → Still w
      → After (Stays kept w) (elim x [
        | generated i ↦ env.run_generated rec i a a t w
        | prim ↦ rec a t a w
        | fptr ↦ rec a t a w
      ])
  run-Stays rec stays (generated i) a t w s = code rec stays i a t w s
  run-Stays rec stays prim a t w s = stays a t w s
  run-Stays rec stays fptr a t w s = stays a t w s

  callxformer-Stays :
      (rec : Visit U)
      → VisitStays kept rec
      → (task : Task) (w : World U) → Still w
      → InPlace task
      → After (Stays kept w) (callxformer env rec task w)
  unfolding callxformer
  callxformer-Stays rec stays task w s e =
      subst (λ o. After (Stays kept w) (callxformer env rec (record task { output = o }) w)) e
        (After-or_fault (Stays kept w) (find task.type w.types) _ λ te.
          After-if (Stays kept w) task.issplit _ _
            (λ _. transform_array-Stays kept env looks alone rec stays task.input task.type w s)
            (λ _. run-Stays rec stays te.corresp_func_ptr task.input task.type w s))

  -- A round, if there was a task.
  abbrev Round : World U → Option (World U) → Type 0
  Round w none = Unit
  Round w (some w') = Stays kept w w'

  process_task-Stays :
      (rec : Visit U)
      → VisitStays kept rec
      → (w : World U) → Still w
      → (r : Option Task × QueueArray Task) → dequeue w.queues 1 0 0 ≡ r
      → After (Round w) (process_task env rec w r)
  unfolding process_task
  process_task-Stays rec stays w s (none, queues) e = tt
  process_task-Stays rec stays w s (some t, queues) e =
      let taken = dequeue-EachSlot InPlace w.queues 1 0 0 s.in_place e in
      let w1 : World U = record w { queues = queues } in
      let g : Stays kept w w1 = same-Stays kept w w1 s refl refl refl (taken.1) refl in
      After-bind (Stays kept w) (Round w) (callxformer env rec t w1) _
        (After-Stays kept w w1 _ g (callxformer-Stays rec stays t w1 g.still (taken.0)))
        (λ w2 h. Stays-trans kept h (
          same-Stays kept w2 _ h.still refl refl refl
            (finished-EachSlot InPlace w2.queues 0 h.still.in_place) refl))

  -- The loop of processqueue, without helper threads, where all that is queued is to be worked on in
  -- place, what is mapped is mapped to itself and no type changes its size, with callbacks that only
  -- look and generated code that only visits fields: whenever the loop returns, the memory, the types
  -- and what `kept` tells of the service's state are as they were before it.
  pub process_loop_in_place :
      (fuel depth : ℕ) (w : World U)
      → Still w
      → After (Stays kept w) (process_loop env fuel depth w)
  unfolding process_loop
  process_loop_in_place zero depth w s = tt
  process_loop_in_place (suc fuel) depth w s =
      After-bind (Round w) (Stays kept w)
        (process_task env (visit env depth) w (dequeue w.queues 1 0 0)) _
        (process_task-Stays (visit env depth) (visit_in_place kept env looks alone depth) w s
          (dequeue w.queues 1 0 0) refl)
        (next (λ w' s'. process_loop_in_place fuel depth w' s'))
    where
      next :
          ((w' : World U) → Still w' → After (Stays kept w') (process_loop env fuel depth w'))
          → (r : Option (World U)) → Round w r
          → After
              (Stays kept w)
              (elim r [ none ↦ done w | some w' ↦ process_loop env fuel depth w' ])
      next rest none h = same-Stays kept w w s refl refl refl s.in_place refl
      next rest (some w') h = After-Stays kept w w' _ h (rest w' h.still)
