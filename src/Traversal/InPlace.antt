-- ===== src/Traversal/InPlace.antt =====
-- A visit in place, by a service whose callbacks only look, of src/transform.c without helper threads.
use c_strider.Prelude.{
  if◌then◌else◌, inl, inr, Option-cases, ℕ, zero, suc, ◌+◌, ◌≡◌, refl, sym, ap, ◌∙◌, subst, false,
  ◌==◌, ◌||◌, not, arith,
}
use c_strider.Table.{find}
use c_strider.Queue.{enqueue}
use c_strider.Queue.Slots.{enqueue-EachSlot}
use c_strider.Types.{TypeEntry, no_type, get_num_array_elems, get_size, get_array_base_type}
use c_strider.Traversal.{
  memoized_is_ptr, memoized_is_funptr, memoized_is_array, visit_mapped, visit_new, visit_ptr,
  visit_struct, visit_entry, visit_step, visit,
}
use c_strider.Traversal.State.{
  Task, World, Env, Visit, find_mapping, add_mapping, store, addtoqueue, num_threads,
}
use c_strider.Traversal.Arrays.{array_loop, transform_array, transform_split_array}
use c_strider.Traversal.Grows.{After, After-bind, After-or_fault, After-if}
use c_strider.Traversal.Still.{
  InPlace, Still, Stays, VisitStays, LooksOnly, Stays-trans, After-Stays, same-Stays,
  add_mapping-Stays, store-Stays,
}

module _ {U K : Type 0} (kept : U → K) (env : Env U) (looks : LooksOnly kept env)
    (alone : env.is_parallel ≡ false) (rec : Visit U) (stays : VisitStays kept rec) where
  array_loop-Stays :
      (base size count a : ℕ) (w : World U)
      → Still w
      → After (Stays kept w) (array_loop rec base size size count a a w)
  unfolding array_loop
  array_loop-Stays base size zero a w s = same-Stays kept w w s refl refl refl s.in_place refl
  array_loop-Stays base size (suc count) a w s =
      After-bind (Stays kept w) (Stays kept w) (rec a base a w) _ (stays a base w s)
        (λ w' g. After-Stays kept w w' _ g (array_loop-Stays base size count (a + size) w' g.still))

  pub transform_array-Stays :
      (a t : ℕ) (w : World U) → Still w → After (Stays kept w) (transform_array rec a t a w)
  unfolding transform_array
  transform_array-Stays a t w s =
      After-or_fault (Stays kept w) (get_num_array_elems w.types t) _ λ count.
        elim (Option-cases (get_size w.types t)) [
          | inl none_known ↦ rw none_known tt
          | inr (size, known) ↦
              rw (known, s.same_size t ∙ known)
                (After-or_fault (Stays kept w) (get_array_base_type w.types t) _
                  λ base. array_loop-Stays base size count a w s)
        ]

  addtoqueue-Stays :
      (a t : ℕ) (w : World U) → Still w → After (Stays kept w) (addtoqueue env a t a false w)
  unfolding addtoqueue
  addtoqueue-Stays a t w s =
      let task : Task = record { input = a; type = t; output = a; issplit = false } in
      After-if (Stays kept w) (a == 0) _ _
        (λ _. same-Stays kept w w s refl refl refl s.in_place refl)
        (λ _.
          elim (Option-cases
            (enqueue w.queues (if env.is_parallel then num_threads else 1) task (env.busy w))) [
              | inl full ↦ rw full tt
              | inr (queues, room) ↦ rw room (
                  same-Stays kept w (record w { queues = queues }) s refl refl refl
                    (enqueue-EachSlot InPlace w.queues (if env.is_parallel then num_threads else 1)
                      task (env.busy w) s.in_place refl room)
                    refl)
            ])

  visit_mapped-Stays :
      (a t lookup : ℕ) (w : World U)
      → Still w
      → lookup ≡ w.mem a
      → After (Stays kept w) (visit_mapped env rec a t a lookup w)
  unfolding visit_mapped
  visit_mapped-Stays a t lookup w s e =
      After-bind (λ r. Stays kept w (r.1) × (r.0 ≡ w.mem a)) (Stays kept w)
        (env.perfaction_ptr_mapped rec a t lookup w) _
        (subst
          (λ l.
            After (λ r. Stays kept w (r.1) × (r.0 ≡ w.mem a))
              (env.perfaction_ptr_mapped rec a t l w))
          (sym e) (looks.mapped_looks rec stays a t w s))
        (λ r g.
          let same : r.0 ≡ r.1.mem a = g.1 ∙ ap (λ m. m a) (sym g.0.same_mem) in
          subst (λ x. Stays kept w (store a x (r.1))) (sym same)
            (Stays-trans kept (g.0) (store-Stays kept a (r.1) g.0.still)))

  visit_new-Stays :
      (te : TypeEntry) (a t : ℕ) (w : World U)
      → Still w
      → After (Stays kept w) (visit_new env rec te a t a w)
  unfolding visit_new
  visit_new-Stays te a t w s =
      After-bind (λ r. Stays kept w (r.1)) (Stays kept w) (env.perfaction_ptr rec a t a w) _
        (looks.ptr_looks rec stays a t w s)
        (λ r g.
          let w' = add_mapping (r.1.mem a) (r.1.mem a) (r.1) in
          let g' : Stays kept w w' =
            Stays-trans kept g (add_mapping-Stays kept (r.1.mem a) (r.1) g.still) in
          After-if (Stays kept w) (not (r.0) || memoized_is_funptr te) _ _ (λ _. g')
            (λ _. After-Stays kept w w' _ g' (stays (w'.mem a) te.target_type w' g'.still)))

  visit_ptr-Stays :
      (te : TypeEntry) (a t : ℕ) (w : World U)
      → Still w
      → After (Stays kept w) (visit_ptr env rec te a t a w)
  unfolding visit_ptr
  visit_ptr-Stays te a t w s =
      After-if (Stays kept w) (a == 0) _ _
        (λ _. same-Stays kept w w s refl refl refl s.in_place refl)
        (λ _.
          After-if (Stays kept w) (find_mapping (w.mem a) w == 0) _ _
            (λ _. visit_new-Stays te a t w s)
            (λ known.
              visit_mapped-Stays a t (find_mapping (w.mem a) w) w s
                (s.to_itself (w.mem a) (ground arith))))

  visit_struct-Stays :
      (a t : ℕ) (w : World U) → Still w → After (Stays kept w) (visit_struct env rec a t a w)
  unfolding visit_struct
  visit_struct-Stays a t w s =
      After-bind (λ r. Stays kept w (r.1)) (Stays kept w) (env.perfaction_struct rec a t a w) _
        (looks.struct_looks rec stays a t w s)
        (λ r g.
          After-if (Stays kept w) (r.0) _ _
            (λ _. After-Stays kept w (r.1) _ g (addtoqueue-Stays a t (r.1) g.still)) (λ _. g))

  visit_entry-Stays :
      (te : TypeEntry) (a t : ℕ) (w : World U)
      → Still w
      → After (Stays kept w) (visit_entry env rec te a t a w)
  unfolding visit_entry transform_split_array
  visit_entry-Stays te a t w s =
      After-if (Stays kept w) (memoized_is_ptr te) _ _ (λ _. visit_ptr-Stays te a t w s)
        (λ _.
          After-if (Stays kept w) (memoized_is_array te) _ _
            (λ _. rw alone (transform_array-Stays a t w s)) (λ _. visit_struct-Stays a t w s))

  visit_step-Stays : VisitStays kept (visit_step env rec)
  unfolding visit_step
  visit_step-Stays a t w s =
      let w' = record w { visitcalls = w.visitcalls + 1 } in
      let g : Stays kept w w' = same-Stays kept w w' s refl refl refl s.in_place refl in
      After-if (Stays kept w) (t == no_type) _ _
        (λ _. same-Stays kept w w s refl refl refl s.in_place refl)
        (λ _.
          After-if (Stays kept w) (env.program.is_prim t) _ _
            (λ _. After-Stays kept w w' _ g (looks.prim_looks rec stays a t w' g.still))
            (λ _.
              After-or_fault (Stays kept w) (find t w.types) _
                (λ te. After-Stays kept w w' _ g (visit_entry-Stays te a t w' g.still))))

-- A visit in place, without helper threads, by a service whose callbacks only look, where what is
-- mapped is mapped to itself and no type changes its size: whenever it returns, the memory, the
-- types and what `kept` tells of the service's state are as they were, and what is mapped is mapped
-- to itself.
pub visit_in_place :
    {U K : Type 0} (kept : U → K) (env : Env U)
    → LooksOnly kept env
    → env.is_parallel ≡ false
    → (fuel : ℕ) → VisitStays kept (visit env fuel)
unfolding visit
visit_in_place kept env looks alone zero a t w s = tt
visit_in_place kept env looks alone (suc fuel) a t w s =
    visit_step-Stays kept env looks alone (visit env fuel)
      (visit_in_place kept env looks alone fuel) a t w s
