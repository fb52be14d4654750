-- ===== src/Tests/Queues.antt =====
-- The queues of src/queue.c on concrete data.
use c_strider.Prelude.{
  ℕ, ◌+◌, ◌<◌, ◌≤◌, ◌≡◌, ◌≢◌, ◌%◌, refl, true, false, some, [], ◌∷◌, ◌++◌, arith, ◌==◌,
  if◌then◌else◌,
}
use c_strider.Queue.{
  Queue, QueueArray, queue_size, int_mod, enqueue, dequeue, dequeue_from, allqempty, any_queue,
}
use c_strider.Queue.IsValid.{IsValid}
use c_strider.Queue.Fifo.{contents}
use c_strider.Queue.Array.{AllValid, enqueue_lem, dequeue_lem}

-- A queue with two tasks, the second past the end of the array.
abbrev two_tasks : Queue ℕ
two_tasks = record {
  content = λ i. i + 10;
  front = 249999;
  rear = 0;
  thread_started = 1;
  count = 2;
  inflight = 0;
}

abbrev no_tasks : Queue ℕ
no_tasks = record {
  content = λ i. i + 20;
  front = 7;
  rear = 6;
  thread_started = 1;
  count = 0;
  inflight = 0;
}

-- The first queue has two tasks, the others have none.
abbrev queues : QueueArray ℕ
queues j = if j == 0 then two_tasks else no_tasks

two_tasks-IsValid : IsValid two_tasks
two_tasks-IsValid = omega arith

queues-AllValid : AllValid 3 queues
queues-AllValid j h = ground arith

queues_have_room : (j : ℕ) → j < 3 → (queues j).count < queue_size
queues_have_room j h = ground arith

queues_fit : (j : ℕ) → j < 3 → (queues j).count ≤ queue_size
queues_fit j h = ground arith

enqueue_lem_example :
    (qs' : QueueArray ℕ) × (k : ℕ) × (enqueue queues 3 5 1 ≡ some qs')
    × (k < 3)
    × (contents (qs' k) ≡ contents (queues k) ++ (5 ∷ []))
    × ((j : ℕ) → j ≢ k → qs' j ≡ queues j)
    × AllValid 3 qs'
enqueue_lem_example = enqueue_lem 3 queues queues-AllValid (omega arith) 5 1 queues_have_room

first_queue_first : (queues (dequeue_from queues 3 0 0)).count ≢ 0
unfolding dequeue_from
first_queue_first = omega arith

dequeue_lem_example :
    (x : ℕ) × (qs' : QueueArray ℕ) × (k : ℕ) × (dequeue queues 3 0 0 ≡ (some x, qs'))
    × (k < 3)
    × (contents (queues k) ≡ x ∷ contents (qs' k))
    × ((j : ℕ) → j ≢ k → contents (qs' j) ≡ contents (queues j))
    × ((j : ℕ)
        → (qs' j).inflight
          ≡ (if j == 0 then ((queues j).inflight + 1) % int_mod else (queues j).inflight))
    × AllValid 3 qs'
dequeue_lem_example =
    dequeue_lem 3 queues queues-AllValid (omega arith) 0 0 (omega arith) first_queue_first

-- Queues that have nothing to do.
abbrev idle_queues : QueueArray ℕ
idle_queues j = no_tasks

all_idle : (allqempty false idle_queues 2).0 ≡ true
unfolding allqempty any_queue
all_idle = refl
