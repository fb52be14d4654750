-- ===== src/Traversal/Ends.antt =====
-- The traversal of src/transform.c ends: how deep `visit` can recurse.
use c_strider.Prelude.{
  ℕ, zero, suc, ◌+◌, ◌<◌, ◌≡◌, ◌≢◌, ap, sym, subst, Bool, true, false, Option, none, some, ◌==◌,
  arith, ◌||◌, not,
}
use c_strider.Outcome.{done, fault}
use c_strider.Table.{find}
use c_strider.Queue.{QueueArray}
use c_strider.Types.{
  TypeEntry, no_type, get_num_array_elems, get_size, get_out_size, get_array_base_type,
  get_array_base_type-known,
}
use c_strider.Traversal.{
  memoized_is_ptr, memoized_is_funptr, memoized_is_array, visit_mapped, visit_new, visit_ptr,
  visit_struct, visit_entry, visit_step, visit,
}
use c_strider.Traversal.State.{Task, World, Env, Visit, find_mapping, add_mapping, addtoqueue}
use c_strider.Traversal.Arrays.{array_loop, transform_array, transform_split_array}
use c_strider.Traversal.Total.{
  Ends, Ends-bind, Ends-or_fault, Ends-if, FallsFor, Falls, EndsBelow, Lawful,
}

-- A pointer type that is followed has a target.
follows :
    (te : TypeEntry) (more : Bool)
    → memoized_is_ptr te ≡ true
    → (not more || memoized_is_funptr te) ≡ false
    → te.target_type ≢ no_type
follows te more ptr on = ground arith

module _ {U : Type 0} (rank : ℕ → ℕ) where
  abbrev Ranked : World U → Type 0
  Ranked w = Falls rank w.types

  abbrev Ranked' : {A : Type 0} → A × World U → Type 0
  Ranked' r = Falls rank (r.1.types)

  array_loop-Ends :
      (rec : Visit U) (base sz_in sz_out count : ℕ)
      → ((input output : ℕ) (w : World U) → Ranked w → Ends Ranked (rec input base output w))
      → (input output : ℕ) (w : World U) → Ranked w
      → Ends Ranked (array_loop rec base sz_in sz_out count input output w)
  unfolding array_loop
  array_loop-Ends rec base si so zero ends input output w r = r
  array_loop-Ends rec base si so (suc count) ends input output w r =
      Ends-bind Ranked Ranked (rec input base output w) _ (ends input output w r)
        (λ w' r'. array_loop-Ends rec base si so count ends (input + si) (output + so) w' r')

  transform_array-Ends :
      (rec : Visit U) (t : ℕ) (te : TypeEntry) (input output : ℕ) (w : World U)
      → find t w.types ≡ some te
      → te.arrlen ≢ 0
      → Ranked w
      → EndsBelow rank (rank t) rec
      → Ends Ranked (transform_array rec input t output w)
  unfolding transform_array
  transform_array-Ends rec t te input output w known ne r below =
      Ends-or_fault Ranked (get_num_array_elems w.types t) _ λ count _.
        Ends-or_fault Ranked (get_size w.types t) _ λ si _.
          Ends-or_fault Ranked (get_out_size w.types t) _ λ so _.
            Ends-or_fault Ranked (get_array_base_type w.types t) _ λ base found.
              let same : te.arrbase ≡ base =
                cc (get_array_base_type-known w.types t known, found) in
              array_loop-Ends rec base si so count
                (below base (omega (arith, (r t te known).elements ne, ap rank same))) input output
                w r

  types-add_mapping :
      (input output : ℕ) (w : World U) → (add_mapping input output w).types ≡ w.types
  unfolding add_mapping
  types-add_mapping input output w = ground arith

  module _ (env : Env U) (law : Lawful rank env) (rec : Visit U) (t : ℕ)
      (below : EndsBelow rank (rank t) rec) where
    visit_mapped-Ends :
        (input output lookup : ℕ) (w : World U)
        → Ranked w
        → Ends Ranked (visit_mapped env rec input t output lookup w)
    unfolding visit_mapped
    visit_mapped-Ends input output lookup w r =
        Ends-bind Ranked' Ranked (env.perfaction_ptr_mapped rec input t lookup w) _
          (law.mapped_ends rec t below input lookup w r) (λ a r'. r')

    visit_new-Ends :
        (te : TypeEntry)
        → FallsFor rank t te
        → memoized_is_ptr te ≡ true
        → (input output : ℕ) (w : World U) → Ranked w
        → Ends Ranked (visit_new env rec te input t output w)
    unfolding visit_new
    visit_new-Ends te falls ptr input output w r =
        Ends-bind Ranked' Ranked (env.perfaction_ptr rec input t output w) _
          (law.ptr_ends rec t below input output w r)
          λ a ra.
            let w' = add_mapping (a.1.mem input) (a.1.mem output) (a.1) in
            let kept : Falls rank w'.types =
              subst (Falls rank) (sym (types-add_mapping (a.1.mem input) (a.1.mem output) (a.1)))
                ra in
            Ends-if Ranked (not (a.0) || memoized_is_funptr te) _ _ (λ _. kept)
              (λ on.
                below te.target_type (falls.target (follows te (a.0) ptr on)) (w'.mem input)
                  (w'.mem output) w' kept)

    addtoqueue-Ends :
        (input output : ℕ) (issplit : Bool) (w : World U)
        → Ranked w
        → Ends Ranked (addtoqueue env input t output issplit w)
    unfolding addtoqueue
    addtoqueue-Ends input output issplit w r =
        Ends-if Ranked (input == 0) _ _ (λ _. r) (λ _. queued _)
      where
        queued :
            (q : Option (QueueArray Task))
            → Ends Ranked
                (elim q [ none ↦ fault | some queues ↦ done (record w { queues = queues }) ])
        queued none = tt
        queued (some queues) = r

    visit_struct-Ends :
        (input output : ℕ) (w : World U)
        → Ranked w
        → Ends Ranked (visit_struct env rec input t output w)
    unfolding visit_struct
    visit_struct-Ends input output w r =
        Ends-bind Ranked' Ranked (env.perfaction_struct rec input t output w) _
          (law.struct_ends rec t below input output w r)
          (λ a ra.
            Ends-if Ranked (a.0) _ _ (λ _. addtoqueue-Ends input output false (a.1) ra) (λ _. ra))

    visit_ptr-Ends :
        (te : TypeEntry)
        → FallsFor rank t te
        → memoized_is_ptr te ≡ true
        → (input output : ℕ) (w : World U) → Ranked w
        → Ends Ranked (visit_ptr env rec te input t output w)
    unfolding visit_ptr
    visit_ptr-Ends te falls ptr input output w r =
        Ends-if Ranked (input == 0) _ _ (λ _. r)
          (λ _.
            Ends-if Ranked (find_mapping (w.mem input) w == 0) _ _
              (λ _. visit_new-Ends te falls ptr input output w r)
              (λ _. visit_mapped-Ends input output (find_mapping (w.mem input) w) w r))

    visit_entry-Ends :
        env.is_parallel ≡ false
        → (te : TypeEntry) (input output : ℕ) (w : World U) → find t w.types ≡ some te
        → Ranked w
        → Ends Ranked (visit_entry env rec te input t output w)
    unfolding visit_entry transform_split_array
    visit_entry-Ends serial te input output w known r =
        Ends-if Ranked (memoized_is_ptr te) _ _
          (λ ptr. visit_ptr-Ends te (r t te known) ptr input output w r)
          (λ _.
            Ends-if Ranked (memoized_is_array te) _ _
              (λ arr.
                Ends-if Ranked (not env.is_parallel) _ _
                  (λ _. transform_array-Ends rec t te input output w known (ground arith) r below)
                  (λ e. cc (serial, e)))
              (λ _. visit_struct-Ends input output w r))

  -- Without helper threads, with a lawful service and a table of types in which no chain of pointer
  -- and array types goes round, `visit` of a type ends, in a fault or with a result whose types go
  -- round no more: any fuel above the rank of the type serves.
  pub visit-Ends :
      (env : Env U) (law : Lawful rank env)
      → env.is_parallel ≡ false
      → (fuel t : ℕ) → rank t < fuel
      → (input output : ℕ) (w : World U) → Falls rank w.types
      → Ends (λ w'. Falls rank w'.types) (visit env fuel input t output w)
  unfolding visit visit_step
  visit-Ends env law serial zero t h input output w r = absurd (omega arith)
  visit-Ends env law serial (suc fuel) t h input output w r =
      let below : EndsBelow rank (rank t) (visit env fuel) =
        λ t' lower i o w' r'. visit-Ends env law serial fuel t' (omega arith) i o w' r' in
      let w' = record w { visitcalls = w.visitcalls + 1 } in
      Ends-if Ranked (t == no_type) _ _ (λ _. r)
        (λ _.
          Ends-if Ranked (env.program.is_prim t) _ _
            (λ _. law.prim_ends (visit env fuel) t below input output w' r)
            (λ _. Ends-or_fault Ranked (find t w.types) _ (λ te known.
              visit_entry-Ends env law (visit env fuel) t below serial te input output w' known r)))
