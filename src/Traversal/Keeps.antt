-- ===== src/Traversal/Keeps.antt =====
-- Each step of `visit` in src/transform.c keeps what is mapped.
use c_strider.Prelude.{
  ℕ, zero, suc, ◌+◌, ◌-◌, ◌/◌, ◌*◌, refl, Bool, true, false, Option, none, some, ◌==◌, ◌||◌, not,
  ltb,
}
use c_strider.Outcome.{Outcome, done, fault, out_of_fuel}
use c_strider.Table.{find}
use c_strider.Queue.{QueueArray}
use c_strider.Types.{
  TypeEntry, no_type, get_num_array_elems, get_size, get_out_size, get_array_base_type,
}
use c_strider.Types.Construct.{mktyparr}
use c_strider.Traversal.{
  memoized_is_ptr, memoized_is_funptr, memoized_is_array, visit_mapped, visit_new, visit_ptr,
  visit_struct, visit_entry, visit_step,
}
use c_strider.Traversal.State.{
  Task, World, Env, Visit, find_mapping, add_mapping, store, addtoqueue, split,
}
use c_strider.Traversal.Arrays.{
  array_loop, transform_array, transform_split_array, split_shares, enqueue_shares, make_array_type,
}
use c_strider.Traversal.Grows.{
  After, After-bind, After-or_fault, After-if, Grows, VisitGrows, KeepsMappings, Grows-trans,
  After-trans, same-Grows, add_mapping-Grows,
}

module _ {U : Type 0} (env : Env U) (keeps : KeepsMappings env) (rec : Visit U)
    (grows : VisitGrows rec) where
  array_loop-Grows :
      (base si so count input output : ℕ) (w : World U)
      → After (Grows w) (array_loop rec base si so count input output w)
  unfolding array_loop
  array_loop-Grows base si so zero input output w = same-Grows _ _ refl
  array_loop-Grows base si so (suc count) input output w =
      After-bind (Grows w) (Grows w) (rec input base output w) _ (grows input base output w)
        (λ w' g. After-trans w w' _ g (array_loop-Grows base si so count _ _ w'))

  transform_array-Grows :
      (input t output : ℕ) (w : World U) → After (Grows w) (transform_array rec input t output w)
  unfolding transform_array
  transform_array-Grows input t output w =
      After-or_fault (Grows w) (get_num_array_elems w.types t) _ λ count.
        After-or_fault (Grows w) (get_size w.types t) _ λ si.
          After-or_fault (Grows w) (get_out_size w.types t) _ λ so.
            After-or_fault (Grows w) (get_array_base_type w.types t) _
              λ base. array_loop-Grows base si so count input output w

  addtoqueue-Grows :
      (input t output : ℕ) (issplit : Bool) (w : World U)
      → After (Grows w) (addtoqueue env input t output issplit w)
  unfolding addtoqueue find_mapping
  addtoqueue-Grows input t output issplit w =
      After-if (Grows w) (input == 0) _ _ (λ _. same-Grows _ _ refl) (λ _. queued _)
    where
      queued :
          (q : Option (QueueArray Task))
          → After
              (Grows w)
              (elim q [ none ↦ fault | some queues ↦ done (record w { queues = queues }) ])
      queued none = tt
      queued (some queues) = same-Grows _ _ refl

  enqueue_shares-Grows :
      (st si so share rounds i input output : ℕ) (w : World U)
      → After (Grows w) (enqueue_shares env st si so share rounds i input output w)
  unfolding enqueue_shares
  enqueue_shares-Grows st si so share zero i input output w = same-Grows _ _ refl
  enqueue_shares-Grows st si so share (suc rounds) i input output w =
      After-bind (Grows w) (Grows w)
        (addtoqueue env (input + si * i * share) st (output + so * i * share) true w) _
        (addtoqueue-Grows (input + si * i * share) st (output + so * i * share) true w)
        (λ w' g.
          After-trans w w' _ g (enqueue_shares-Grows st si so share rounds (i + 1) input output w'))

  make_array_type-Grows :
      (arrlen type : ℕ) (w : World U)
      → After (λ r. Grows w (r.1)) (make_array_type env arrlen type w)
  unfolding make_array_type find_mapping
  make_array_type-Grows arrlen type w =
      After-or_fault (λ r. Grows w (r.1)) (mktyparr (env.stack_junk w) arrlen type w.types) _
        (λ r. same-Grows _ _ refl)

  split_shares-Grows :
      (count si so base input output : ℕ) (w : World U)
      → After (Grows w) (split_shares env rec count si so base input output w)
  unfolding split_shares
  split_shares-Grows count si so base input output w =
      let share = count / split in
      let last = split - 1 in
      After-bind (λ r. Grows w (r.1)) (Grows w) (make_array_type env share base w) _
        (make_array_type-Grows share base w)
        (λ s g.
          After-bind (Grows w) (Grows w)
            (enqueue_shares env (s.0) si so share last 0 input output (s.1)) _
            (After-trans w (s.1) _ g
              (enqueue_shares-Grows (s.0) si so share last 0 input output (s.1)))
            (λ w1 g1.
              After-bind (λ r. Grows w (r.1)) (Grows w)
                (make_array_type env (count - last * share) base w1) _
                (pair_trans w w1 _ g1 (make_array_type-Grows (count - last * share) base w1))
                (λ r g2. After-trans w (r.1) _ g2 (transform_array-Grows _ (r.0) _ (r.1)))))
    where
      pair_trans :
          (u v : World U) (m : Outcome (ℕ × World U))
          → Grows u v
          → After (λ r. Grows v (r.1)) m
          → After (λ r. Grows u (r.1)) m
      pair_trans u v (done r) g h = Grows-trans g h
      pair_trans u v fault g h = tt
      pair_trans u v out_of_fuel g h = tt

  transform_split_array-Grows :
      (input t output : ℕ) (w : World U)
      → After (Grows w) (transform_split_array env rec input t output w)
  unfolding transform_split_array
  transform_split_array-Grows input t output w =
      After-if (Grows w) (not env.is_parallel) _ _ (λ _. transform_array-Grows input t output w)
        (λ _. After-or_fault (Grows w) (get_num_array_elems w.types t) _ λ count.
          After-if (Grows w) (ltb count split) _ _ (λ _. transform_array-Grows input t output w)
            (λ _. After-or_fault (Grows w) (get_size w.types t) _ λ si.
              After-or_fault (Grows w) (get_out_size w.types t) _ λ so.
                After-or_fault (Grows w) (get_array_base_type w.types t) _
                  λ base. split_shares-Grows count si so base input output w))

  visit_mapped-Grows :
      (input t output lookup : ℕ) (w : World U)
      → After (Grows w) (visit_mapped env rec input t output lookup w)
  unfolding visit_mapped find_mapping
  visit_mapped-Grows input t output lookup w =
      After-bind (λ r. Grows w (r.1)) (Grows w) (env.perfaction_ptr_mapped rec input t lookup w) _
        (keeps.mapped_keeps rec grows input t lookup w)
        (λ r g. Grows-trans g (same-Grows (r.1) (store output (r.0) (r.1)) refl))

  pub visit_new-Grows :
      (te : TypeEntry) (input t output : ℕ) (w : World U)
      → After (Grows w) (visit_new env rec te input t output w)
  unfolding visit_new
  visit_new-Grows te input t output w =
      After-bind (λ r. Grows w (r.1)) (Grows w) (env.perfaction_ptr rec input t output w) _
        (keeps.ptr_keeps rec grows input t output w)
        (λ r g.
          let w' = add_mapping (r.1.mem input) (r.1.mem output) (r.1) in
          let g' : Grows w w' = Grows-trans g (add_mapping-Grows _ _ (r.1)) in
          After-if (Grows w) (not (r.0) || memoized_is_funptr te) _ _ (λ _. g')
            (λ _. After-trans w w' _ g' (grows _ te.target_type _ w')))

  visit_ptr-Grows :
      (te : TypeEntry) (input t output : ℕ) (w : World U)
      → After (Grows w) (visit_ptr env rec te input t output w)
  unfolding visit_ptr
  visit_ptr-Grows te input t output w =
      After-if (Grows w) (input == 0) _ _ (λ _. same-Grows _ _ refl)
        (λ _.
          After-if (Grows w) (find_mapping (w.mem input) w == 0) _ _
            (λ _. visit_new-Grows te input t output w) (λ _. visit_mapped-Grows input t output _ w))

  visit_struct-Grows :
      (input t output : ℕ) (w : World U) → After (Grows w) (visit_struct env rec input t output w)
  unfolding visit_struct
  visit_struct-Grows input t output w =
      After-bind (λ r. Grows w (r.1)) (Grows w) (env.perfaction_struct rec input t output w) _
        (keeps.struct_keeps rec grows input t output w)
        (λ r g.
          After-if (Grows w) (r.0) _ _
            (λ _. After-trans w (r.1) _ g (addtoqueue-Grows input t output false (r.1))) (λ _. g))

  visit_entry-Grows :
      (te : TypeEntry) (input t output : ℕ) (w : World U)
      → After (Grows w) (visit_entry env rec te input t output w)
  unfolding visit_entry
  visit_entry-Grows te input t output w =
      After-if (Grows w) (memoized_is_ptr te) _ _ (λ _. visit_ptr-Grows te input t output w)
        (λ _.
          After-if (Grows w) (memoized_is_array te) _ _
            (λ _. transform_split_array-Grows input t output w)
            (λ _. visit_struct-Grows input t output w))

  pub visit_step-Grows : VisitGrows (visit_step env rec)
  unfolding visit_step
  visit_step-Grows input t output w =
      let w' = record w { visitcalls = w.visitcalls + 1 } in
      let g : Grows w w' = same-Grows w w' refl in
      After-if (Grows w) (t == no_type) _ _ (λ _. same-Grows w w refl)
        (λ _.
          After-if (Grows w) (env.program.is_prim t) _ _
            (λ _. After-trans w w' _ g (keeps.prim_keeps rec grows input t output w'))
            (λ _.
              After-or_fault (Grows w) (find t w.types) _
                (λ te. After-trans w w' _ g (visit_entry-Grows te input t output w'))))
