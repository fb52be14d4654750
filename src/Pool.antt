-- ===== src/Pool.antt =====
-- The threads of a parallel traversal, from src/transform.c: `launch_helpers`, the loop of
-- `processqueue` and the calls of `enqueue` by the code that a task runs, interleaved in any order.
-- What a task does besides adding tasks is left open. A call that runs under a queue's lock is one
-- step: `dequeue` raises `inflight` under the lock of the queue that it takes from, and `allqempty`
-- decides under all locks. Its first pass takes no lock: it may find work that is just being
-- finished, so `allqempty` may also return 0 in any state (`look_again`).
pub mod Inv
pub mod Safety
pub mod Latch
pub mod Leaving
use c_strider.Prelude.{ℕ, ◌+◌, ◌-◌, ◌<◌, ◌≡◌, Bool, true, false, Option, none, some, update}
use c_strider.Queue.{
  Queue, QueueArray, init_queue, start_dequeue, enqueue, dequeue, deq_task_finished, allqempty,
}

-- Where a thread stands in `processqueue`.
pub data Pc (A : Type 0) : Type 0 where
  waiting : Pc A  -- before `start_dequeue`; the main thread visits the roots
  fetching : Pc A  -- before `dequeue`
  polling : Pc A  -- `dequeue` returned NULL
  working : (task : A) → Pc A  -- in `callxformer`
  left : Pc A  -- past the loop

-- `added` and `finished` count the tasks that were enqueued and that have been worked off. They are
-- no part of the program.
pub record System (A : Type 0) : Type 0 where
  pub queues : QueueArray A
  pub allqdone : Bool
  pub pc : ℕ → Pc A
  pub added : ℕ
  pub finished : ℕ

module _ {A : Type 0} where
  abbrev pub set_pc : System A → ℕ → Pc A → System A
  set_pc s i p = record s { pc = update s.pc i p }

  -- After `launch_helpers`: all queues are initialised. `allqdone` keeps the value that it had.
  unfoldable pub launch_helpers : Bool → QueueArray A → System A
  launch_helpers allqdone qs = record {
    queues = λ j. init_queue (qs j);
    allqdone = allqdone;
    pc = λ _. waiting;
    added = 0;
    finished = 0;
  }

  -- `start_dequeue(&queue_array[home_queue])`
  abbrev pub after_start : System A → ℕ → System A
  after_start s i = record s {
    queues = update s.queues i (start_dequeue (s.queues i));
    pc = update s.pc i fetching;
  }

  -- `deq_task_finished(&queue_array[home_queue])`
  abbrev pub after_finish : System A → ℕ → System A
  after_finish s i = record s {
    queues = update s.queues i (deq_task_finished (s.queues i));
    pc = update s.pc i fetching;
    finished = s.finished + 1;
  }

  abbrev pub after_enqueue : System A → QueueArray A → System A
  after_enqueue s qs = record s { queues = qs; added = s.added + 1 }

  abbrev pub after_dequeue : System A → ℕ → A → QueueArray A → System A
  after_dequeue s i x qs = record s { queues = qs; pc = update s.pc i (working x) }

-- One step of thread `i` of `n`. The last thread is the main thread.
pub data Step {A : Type 0} (n : ℕ) (s : System A) : System A → Type 0 where
  root :
      (i : ℕ) (x : A) (busy : ℕ) {qs : QueueArray A}
      → i + 1 ≡ n
      → s.pc i ≡ waiting
      → enqueue s.queues n x busy ≡ some qs
      → Step n s (after_enqueue s qs)
  start : (i : ℕ) → i < n → s.pc i ≡ waiting → Step n s (after_start s i)
  take :
      (i : ℕ) (busy : ℕ) {x : A} {qs : QueueArray A}
      → i < n
      → s.pc i ≡ fetching
      → dequeue s.queues n i busy ≡ (some x, qs)
      → Step n s (after_dequeue s i x qs)
  miss :
      (i : ℕ) (busy : ℕ) {qs : QueueArray A}
      → i < n
      → s.pc i ≡ fetching
      → dequeue s.queues n i busy ≡ (none, qs)
      → Step n s (record s { queues = qs; pc = update s.pc i polling })
  spawn :
      (i : ℕ) (x y : A) (busy : ℕ) {qs : QueueArray A}
      → i < n
      → s.pc i ≡ working x
      → enqueue s.queues n y busy ≡ some qs
      → Step n s (after_enqueue s qs)
  finish : (i : ℕ) (x : A) → i < n → s.pc i ≡ working x → Step n s (after_finish s i)
  look_again : (i : ℕ) → i < n → s.pc i ≡ polling → Step n s (set_pc s i fetching)
  poll_more :
      (i : ℕ) {d : Bool}
      → i < n
      → s.pc i ≡ polling
      → allqempty s.allqdone s.queues n ≡ (false, d)
      → Step n s (record s { allqdone = d; pc = update s.pc i fetching })
  poll_done :
      (i : ℕ) {d : Bool}
      → i < n
      → s.pc i ≡ polling
      → allqempty s.allqdone s.queues n ≡ (true, d)
      → Step n s (record s { allqdone = d; pc = update s.pc i left })

pub data Reach {A : Type 0} (n : ℕ) (s : System A) : System A → Type 0 where
  here : Reach n s s
  next : {t u : System A} → Reach n s t → Step n t u → Reach n s u

pub Reach-trans : {A : Type 0} {n : ℕ} {s t u : System A} → Reach n s t → Reach n t u → Reach n s u
Reach-trans r here = r
Reach-trans r (next q st) = next (Reach-trans r q) st
