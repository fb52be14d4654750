-- ===== src/Traversal.antt =====
-- The traversal of src/transform.c, with the mapping table of src/cstrider_api.c.
-- An address is a number, 0 is NULL, and `mem` holds the pointers that the traversal itself reads
-- and writes. `visit` and the code that it calls back are mutually recursive: a step takes `visit`
-- as the argument `rec`, and `visit` runs on fuel.
pub mod State
pub mod Arrays
pub mod Total
pub mod Ends
pub mod Grows
pub mod Keeps
pub mod Mappings
pub mod Memo
pub mod Steps
pub mod Still
pub mod InPlace
pub mod LoopInPlace
pub mod Split
pub mod Queued
pub mod Queries
use c_strider.Prelude.{
  ℕ, zero, suc, ◌+◌, ◌-◌, ◌*◌, ◌/◌, Bool, true, false, not, ◌&&◌, ◌||◌, Option, none, some, ◌==◌,
  if◌then◌else◌, ltb, update,
}
use c_strider.Outcome.{Outcome, done, fault, out_of_fuel, or_fault, ◌>>=◌}
use c_strider.Table.{find}
use c_strider.Queue.{QueueArray, dequeue, deq_task_finished}
use c_strider.Types.{TypeEntry, Xformer, prim, fptr, generated, is_fptr, no_type, type_funptr}
use State.{World, Env, Visit, Task, find_mapping, add_mapping, store, addtoqueue}
use Arrays.{transform_array, transform_split_array}

-- `memoized_is_ptr`, `memoized_is_funptr`, `memoized_is_array`
abbrev pub memoized_is_ptr : TypeEntry → Bool
memoized_is_ptr te =
    (not (te.target_type == no_type) || te.type == type_funptr || is_fptr te.corresp_func_ptr)
    && te.arrlen == 0

abbrev pub memoized_is_funptr : TypeEntry → Bool
memoized_is_funptr te = te.type == type_funptr || is_fptr te.corresp_func_ptr

abbrev pub memoized_is_array : TypeEntry → Bool
memoized_is_array te = not (te.arrlen == 0)

module _ {U : Type 0} (env : Env U) (rec : Visit U) where
  -- A pointer whose target is mapped.
  unfoldable pub visit_mapped : ℕ → ℕ → ℕ → ℕ → World U → Outcome (World U)
  visit_mapped input type output lookup w =
      env.perfaction_ptr_mapped rec input type lookup w >>= λ r. done (store output r.0 r.1)

  -- A pointer that is met for the first time.
  unfoldable pub visit_new : TypeEntry → ℕ → ℕ → ℕ → World U → Outcome (World U)
  visit_new te input type output w = env.perfaction_ptr rec input type output w >>= λ r.
      (let w' = add_mapping (r.1.mem input) (r.1.mem output) (r.1) in
        if not (r.0) || memoized_is_funptr te
        then done w'
        else rec (w'.mem input) te.target_type (w'.mem output) w')

  unfoldable pub visit_ptr : TypeEntry → ℕ → ℕ → ℕ → World U → Outcome (World U)
  visit_ptr te input type output w =
      let lookup = find_mapping (w.mem input) w in
      if input == 0
      then done w
      else if lookup == 0
      then visit_new te input type output w
      else visit_mapped input type output lookup w

  unfoldable pub visit_struct : ℕ → ℕ → ℕ → World U → Outcome (World U)
  visit_struct input type output w = env.perfaction_struct rec input type output w >>= λ r.
      (if r.0 then addtoqueue env input type output false (r.1) else done (r.1))

  unfoldable pub visit_entry : TypeEntry → ℕ → ℕ → ℕ → World U → Outcome (World U)
  visit_entry te input type output w =
      if memoized_is_ptr te
      then visit_ptr te input type output w
      else if memoized_is_array te
      then transform_split_array env rec input type output w
      else visit_struct input type output w

  unfoldable pub visit_step : Visit U
  visit_step input type output w =
      let w' = record w { visitcalls = w.visitcalls + 1 } in
      if type == no_type
      then done w
      else if env.program.is_prim type
      then env.perfaction_prim rec input type output w'
      else or_fault (find type w.types) >>= λ te. visit_entry te input type output w'

  unfoldable pub callxformer : Task → World U → Outcome (World U)
  callxformer t w = or_fault (find t.type w.types) >>= λ te.
      (if t.issplit
        then transform_array rec t.input t.type t.output w
        else elim te.corresp_func_ptr [
          | generated i ↦ env.run_generated rec i t.input t.output t.type w
          | prim ↦ rec t.input t.type t.output w
          | fptr ↦ rec t.input t.type t.output w
        ])

module _ {U : Type 0} (env : Env U) where
  unfoldable pub visit : ℕ → Visit U
  visit zero input type output w = out_of_fuel
  visit (suc fuel) input type output w = visit_step env (visit fuel) input type output w

  -- What the loop of `processqueue` without helper threads does with what it has dequeued; `none` if
  -- that is NULL.
  unfoldable pub process_task :
      Visit U → World U → Option Task × QueueArray Task → Outcome (Option (World U))
  process_task rec w (none, queues) = done none
  process_task rec w (some t, queues) =
      callxformer env rec t (record w { queues = queues }) >>= λ w'.
      done (some (record w' { queues = update w'.queues 0 (deq_task_finished (w'.queues 0)) }))

  -- The loop of `processqueue` without helper threads.
  unfoldable pub process_loop : ℕ → ℕ → World U → Outcome (World U)
  process_loop zero depth w = out_of_fuel
  process_loop (suc fuel) depth w = process_task (visit depth) w (dequeue w.queues 1 0 0) >>= λ r.
      elim r [ none ↦ done w | some w' ↦ process_loop fuel depth w' ]
