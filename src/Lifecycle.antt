-- ===== src/Lifecycle.antt =====
-- A traversal from `init` to `finish`, in src/cstrider_api.c and src/transform.c, and the delayed
-- frees. Without helper threads `processqueue` runs in the main thread, with 0 as its home queue; the
-- threads of a parallel traversal are in Pool.
pub mod Clean
pub mod InPlace
use mathlib.Core.List.{reverse}
use c_strider.Prelude.{
  ℕ, zero, suc, ◌+◌, ◌-◌, ◌^◌, Bool, true, false, not, Option, none, some, List, [], ◌∷◌, ◌==◌,
  if◌then◌else◌, ltb, update,
}
use c_strider.Outcome.{Outcome, done, or_fault, ◌>>=◌}
use c_strider.Table.{Table, add, iter}
use c_strider.Queue.{init_queue, start_dequeue}
use c_strider.Types.{Generated}
use c_strider.Types.Init.{type_init}
use c_strider.Symbols.{Symbols}
use c_strider.Roots
use c_strider.Roots.{Globals, populate_upto}
use c_strider.Traversal.{visit, process_loop}
use c_strider.Traversal.State.{World, Env, num_threads, add_mapping}

-- The global state of the runtime.
pub record Runtime (U : Type 0) : Type 0 where
  pub world : World U
  pub ptsto_type_array : ℕ → ℕ
  pub visit_all_hash : Globals
  pub registered : Roots.Registered
  pub symbols : Symbols
  pub launched_helpers : Bool

-- What is generated for a program's symbols and roots: `cstrider_register_init`, `visitalls` with
-- its length, and the functions that it holds.
pub record RootCode (U : Type 0) : Type 0 where
  pub register_init : Symbols → Option Symbols
  pub visitalls : ℕ → ℕ
  pub visit_all_len : ℕ
  pub run_root : ℕ → World U → Outcome (World U)

module _ {V : Type 0} where
  -- HASH_DEL of the entry that HASH_ITER begins with.
  pub drop_oldest : Table V → Table V
  drop_oldest [] = []
  drop_oldest (e ∷ []) = []
  drop_oldest (e ∷ e' ∷ t) = e ∷ drop_oldest (e' ∷ t)

  -- HASH_ITER over the entries of a list, with HASH_DEL of each.
  pub drain : List (ℕ × V) → Table V → Table V
  drain [] t = t
  drain (e ∷ rest) t = drain rest (drop_oldest t)

  -- `cstrider_type_free`, `cstrider_visit_free`
  pub free_table : Table V → Table V
  free_table t = drain (iter t) t

-- What one entry frees.
pub free_entry : ℕ × ℕ → List ℕ → List ℕ
free_entry (addr, closure) freed =
    if not (closure == 0)
    then addr ∷ closure ∷ freed
    else if not (addr == 0)
    then addr ∷ freed
    else freed

pub free_entries : List (ℕ × ℕ) → List ℕ → List ℕ
free_entries [] freed = freed
free_entries (e ∷ rest) freed = free_entries rest (free_entry e freed)

module _ {U : Type 0} where
  -- `transform_delayedfree`
  unfoldable pub delayedfree : ℕ → ℕ → World U → World U
  delayedfree addr closure_with_args w = record w {
    freelater = add addr closure_with_args w.freelater;
  }

  -- `transform_perform_delayedfree`
  pub perform_delayedfree : World U → World U
  perform_delayedfree w = record w {
    freelater = free_table w.freelater;
    freed = free_entries (iter w.freelater) w.freed;
  }

  -- `init_thread_local`, and the second half of `init_parallel_tbls`
  unfoldable pub init_thread_local : World U → World U
  init_thread_local w = delayedfree 0 0 w

  pub init_parallel_tbls : World U → World U
  init_parallel_tbls w = init_thread_local (add_mapping (2 ^ 32 - 1) (2 ^ 32 - 1) w)

  -- The main thread on its way into the loop of `processqueue(0)`.
  unfoldable pub enter_loop : World U → World U
  enter_loop w =
      let w' = init_thread_local w in
      record w' { queues = update w'.queues 0 (start_dequeue (w'.queues 0)) }

  module _ (env : Env U) where
    -- The queues that `launch_helpers` initialises.
    unfoldable pub launch_queues : World U → World U
    launch_queues w =
        let n = if env.is_parallel then num_threads else 1 in
        record w { queues = λ j. if ltb j n then init_queue (w.queues j) else w.queues j }

    unfoldable pub launch_helpers : Runtime U → Runtime U
    launch_helpers r =
        if r.launched_helpers
        then r
        else record r { launched_helpers = true; world = launch_queues r.world }

    -- `processqueue(0)` and `kitsune_helpers_wait`, without helper threads
    pub helpers_wait : ℕ → ℕ → Runtime U → Outcome (Runtime U)
    helpers_wait fuel depth r = process_loop env fuel depth (enter_loop r.world) >>= λ w.
        done (record r { world = perform_delayedfree w; launched_helpers = false })

    pub transform_free : Runtime U → Runtime U
    transform_free r =
        let w = if env.is_parallel then r.world else perform_delayedfree r.world in
        record r {
          world = record w { types = free_table w.types; mappings = []; visitcalls = 0 };
          visit_all_hash = free_table r.visit_all_hash;
        }

    pub finish : ℕ → ℕ → Runtime U → Outcome (Runtime U)
    finish fuel depth r = helpers_wait fuel depth r >>= λ r'. done (transform_free r')

  module _ (env : Env U) (code : RootCode U) where
    unfoldable pub transform_init : Runtime U → Runtime U
    transform_init r =
        let built = type_init env.program (r.world.types, r.ptsto_type_array) in
        let w = record r.world { types = built.0 } in
        record r {
          world = if env.is_parallel then init_parallel_tbls w else w;
          ptsto_type_array = built.1;
          visit_all_hash = populate_upto code.visitalls code.visit_all_len r.visit_all_hash;
        }

    unfoldable pub init : Runtime U → Outcome (Runtime U)
    init r = or_fault (code.register_init r.symbols) >>= λ symbols.
        done (launch_helpers env (transform_init (record r { symbols = symbols })))

    -- `visit_all`, on the global state
    pub run_visit_all : ℕ → Runtime U → Outcome (Runtime U)
    run_visit_all depth r =
        Roots.visit_all (visit env depth) code.run_root r.visit_all_hash r.registered r.world
        >>= λ w. done (record r { world = w })
