-- ===== src/Tests/Loop.antt =====
-- The loop of `processqueue` of src/transform.c on a queue with two tasks.
use c_strider.Prelude.{
  ℕ, ◌+◌, ◌<◌, ◌≡◌, ◌≢◌, refl, some, [], ◌∷◌, arith, true, false, ◌==◌, Bool-cases, inl, inr,
}
use c_strider.Outcome.{done, fault}
use c_strider.Queue.{QueueArray, dequeue, dequeue_from, pop, deq_task_finished, start_dequeue}
use c_strider.Queue.Fifo.{contents}
use c_strider.Table.{find}
use c_strider.Types.{
  TypeTable, no_type, get_num_array_elems, get_size, get_out_size, get_array_base_type,
}
use c_strider.Traversal.{visit, visit_step, callxformer, process_loop}
use c_strider.Traversal.State.{World, Task, store}
use c_strider.Traversal.Arrays.{array_loop, transform_array}
use c_strider.Traversal.Total.{Ends}
use c_strider.Traversal.Memo.{counted}
use c_strider.Traversal.Queued.{process_loop-Ends, settled}
use c_strider.Lifecycle.{Runtime, enter_loop, init_thread_local, delayedfree, finish}
use c_strider.Lifecycle.Clean.{Clean, finish_lem}
use c_strider.Tests.Visits.{copier, entry, at_start}

abbrev int_only : TypeTable
int_only = (0, entry 0 no_type) ∷ []

abbrev TypesKept : World ℕ → Type 0
TypesKept w = w.types ≡ int_only

abbrev queued : World ℕ → ℕ
queued w = (w.queues 0).count

dequeue_lt :
    (qs qs' : QueueArray Task) (t : Task)
    → dequeue qs 1 0 0 ≡ (some t, qs')
    → (qs' 0).count < (qs 0).count
unfolding dequeue dequeue_from pop
dequeue_lt qs qs' t e = ground arith

served :
    (t : Task) (w : World ℕ)
    → TypesKept w
    → t.type ≡ 0
    → t.issplit ≡ false
    → callxformer copier (visit copier 1) t w ≡ done (store t.output (w.mem t.input) (counted w))
unfolding callxformer visit visit_step find
served t w kept int whole = rw (whole, kept, int, visit_step, int, kept)

served_share :
    (t : Task) (w : World ℕ)
    → TypesKept w
    → t.type ≡ 0
    → t.issplit ≡ true
    → callxformer copier (visit copier 1) t w ≡ done w
unfolding callxformer visit visit_step find transform_array get_num_array_elems get_size
    get_out_size get_array_base_type array_loop
served_share t w kept int share = rw (share, kept, int)

refused :
    (t : Task) (w : World ℕ)
    → TypesKept w
    → t.type ≢ 0
    → callxformer copier (visit copier 1) t w ≡ fault
unfolding callxformer find
refused t w kept other = ground arith

callxformer-Ends :
    (P : World ℕ → Type 0) (t : Task) (w : World ℕ)
    → TypesKept w
    → P w
    → P (store t.output (w.mem t.input) (counted w))
    → Ends P (callxformer copier (visit copier 1) t w)
callxformer-Ends P t w kept same stored = elim (Bool-cases (t.type == 0)) [
  | inr e ↦ rw (refused t w kept (ground arith)) tt
  | inl e ↦ elim (Bool-cases t.issplit) [
    | inl share ↦ rw (served_share t w kept (ground arith) share) same
    | inr whole ↦ rw (served t w kept (ground arith) whole) stored
  ]
]

less_queued :
    (w : World ℕ) (t : Task) (queues : QueueArray Task)
    → dequeue w.queues 1 0 0 ≡ (some t, queues)
    → queued (settled copier 1 TypesKept queued (record w { queues = queues })) < queued w
unfolding deq_task_finished
less_queued w t queues e = ground (arith, dequeue_lt w.queues queues t e)

tasks_fall :
    (w : World ℕ) (t : Task) (queues : QueueArray Task)
    → TypesKept w
    → dequeue w.queues 1 0 0 ≡ (some t, queues)
    → Ends
        (λ w'.
          TypesKept (settled copier 1 TypesKept queued w')
          × (queued (settled copier 1 TypesKept queued w') < queued w))
        (callxformer copier (visit copier 1) t (record w { queues = queues }))
tasks_fall w t queues kept e =
    callxformer-Ends _ t (record w { queues = queues }) kept (kept, less_queued w t queues e)
      (kept, less_queued w t queues e)

-- Two copies of an `int` are to be made.
abbrev two_queued : World ℕ
two_queued = record at_start {
  types = int_only;
  queues = λ j. record {
    content = λ i. record { input = 3000; type = 0; output = 7000 + i; issplit = false };
    front = 0;
    rear = 1;
    thread_started = 1;
    count = 2;
    inflight = 0;
  };
}

process_loop-Ends_example :
    Ends (λ w'. TypesKept w' × (contents (w'.queues 0) ≡ [])) (process_loop copier 3 1 two_queued)
process_loop-Ends_example =
    process_loop-Ends copier 1 TypesKept queued tasks_fall 3 two_queued refl (omega arith)

-- The runtime that ends a traversal with the two tasks, with a delayed free.
abbrev two_left : Runtime ℕ
two_left = record {
  world = record two_queued { freelater = (8000, 8100) ∷ [] };
  ptsto_type_array = λ i. 0;
  visit_all_hash = [];
  registered = [];
  symbols = record { by_name = []; by_addr = [] };
  launched_helpers = true;
}

finish_lem_example : Ends (Clean copier two_left) (finish copier 3 1 two_left)
unfolding enter_loop init_thread_local delayedfree start_dequeue
finish_lem_example =
    finish_lem copier 1 TypesKept queued refl tasks_fall 3 two_left refl (omega arith)
