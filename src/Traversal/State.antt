-- ===== src/Traversal/State.antt =====
-- The state that src/transform.c works on, what a program and a service provide, and the helpers
-- that change the state.
use c_strider.Prelude.{ℕ, Bool, List, Option, none, some, ◌==◌, if◌then◌else◌, update}
use c_strider.Outcome.{Outcome, done, fault}
use c_strider.Table.{Table, find, add}
use c_strider.Queue.{QueueArray, enqueue}
use c_strider.Types.{TypeTable, Generated}

-- NUM_THREADS
abbrev pub num_threads : ℕ
num_threads = 4

-- SPLIT
abbrev pub split : ℕ
split = 4

-- `task`
pub record Task : Type 0 where
  pub input : ℕ
  pub type : ℕ
  pub output : ℕ
  pub issplit : Bool

-- `user` is what the callbacks own. `freelater` is `freelater_hash` of the main thread, a closure by
-- the address; `freed` is what has been given to `free`, the last first, as far as a program's memory
-- is concerned.
pub record World (U : Type 0) : Type 0 where
  pub mem : ℕ → ℕ
  pub types : TypeTable
  pub mappings : Table ℕ
  pub queues : QueueArray Task
  pub visitcalls : ℕ
  pub freelater : Table ℕ
  pub freed : List ℕ
  pub user : U

-- `visit(in, type, out)`
abbrev pub Visit : Type 0 → Type 0
Visit U = ℕ → ℕ → ℕ → World U → Outcome (World U)

-- The generated code of a program, and the callbacks of a service, which may call `visit`. The
-- result of a callback that changes `lookup` is the changed value. `stack_junk` is what an `int`'s
-- padding holds, and `busy` how often `pthread_mutex_trylock` finds a lock taken.
pub record Env (U : Type 0) : Type 0 where
  pub program : Generated
  pub is_parallel : Bool
  pub run_generated : Visit U → ℕ → ℕ → ℕ → ℕ → World U → Outcome (World U)
  pub perfaction_prim : Visit U → Visit U
  pub perfaction_struct : Visit U → ℕ → ℕ → ℕ → World U → Outcome (Bool × World U)
  pub perfaction_ptr : Visit U → ℕ → ℕ → ℕ → World U → Outcome (Bool × World U)
  pub perfaction_ptr_mapped : Visit U → ℕ → ℕ → ℕ → World U → Outcome (ℕ × World U)
  pub stack_junk : World U → ℕ
  pub busy : World U → ℕ

abbrev pub addr_of : Option ℕ → ℕ
addr_of none = 0
addr_of (some addr) = addr

module _ {U : Type 0} where
  abbrev pub store : ℕ → ℕ → World U → World U
  store a v w = record w { mem = update w.mem a v }

  -- NULL where nothing is mapped.
  unfoldable pub find_mapping : ℕ → World U → ℕ
  find_mapping input w = if input == 0 then 0 else addr_of (find input w.mappings)

  unfoldable pub add_mapping : ℕ → ℕ → World U → World U
  add_mapping input output w =
      if input == 0
      then w
      else if find_mapping input w == 0
      then record w { mappings = add input output w.mappings }
      else w

  -- `addtoqueue(transform_make_enq(in, type, out, issplit))`
  unfoldable pub addtoqueue : Env U → ℕ → ℕ → ℕ → Bool → World U → Outcome (World U)
  addtoqueue env input type output issplit w =
      let task : Task = record { input = input; type = type; output = output; issplit = issplit } in
      let n = if env.is_parallel then num_threads else 1 in
      if input == 0 then done w else elim (enqueue w.queues n task (env.busy w)) [
        | none ↦ fault
        | some queues ↦ done (record w { queues = queues })
      ]
