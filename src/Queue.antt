-- ===== src/Queue.antt =====
-- The task queues of src/queue.c and src/queue.h.
-- A queue array is a function of the index. A task pointer in a queue is the only reference to its
-- task, so a queue holds elements of a type `A`. An `int` that can be decremented at 0 is its bit
-- pattern below 2^32. The outcomes of `pthread_mutex_trylock` are an argument: `busy` counts the
-- calls that return EBUSY before the first one that succeeds.
pub mod IsValid
pub mod Fifo
pub mod Choice
pub mod Array
pub mod Done
pub mod Effect
pub mod Slots
use c_strider.Prelude.{
  ℕ, zero, suc, ◌+◌, ◌-◌, ◌%◌, ◌^◌, Bool, true, false, ◌&&◌, ◌||◌, not, Option, none, some, ltb,
  leb, ◌==◌, if◌then◌else◌, update,
}

-- QUEUESIZE
abbrev pub queue_size : ℕ
queue_size = 250000

abbrev pub int_mod : ℕ
int_mod = 2 ^ 32

-- `x > 0` for an `int` given by its bit pattern.
abbrev pub positive : ℕ → Bool
positive x = ltb 0 x && ltb x (2 ^ 31)

pub record Queue (A : Type 0) : Type 0 where
  pub content : ℕ → A
  pub front : ℕ
  pub rear : ℕ
  pub thread_started : ℕ
  pub count : ℕ
  pub inflight : ℕ

abbrev pub QueueArray : Type 0 → Type 0
QueueArray A = ℕ → Queue A

module _ {A : Type 0} where
  unfoldable pub init_queue : Queue A → Queue A
  init_queue q = record q {
    front = 0;
    rear = queue_size - 1;
    thread_started = 0;
    count = 0;
    inflight = 0;
  }

  unfoldable pub start_dequeue : Queue A → Queue A
  start_dequeue q = record q { thread_started = 1 }

  -- The first pass of `allqempty`: a queue that has not been started, or has a task in flight.
  abbrev pub unready : Queue A → Bool
  unready q = not (q.thread_started == 1) || positive q.inflight

  -- The second pass, under all locks.
  abbrev pub unfinished : Queue A → Bool
  unfinished q = not (q.inflight == 0) || not (q.count == 0) || not (q.thread_started == 1)

  -- Whether a test holds of one of the first `n` queues.
  unfoldable pub any_queue : (Queue A → Bool) → ℕ → QueueArray A → Bool
  any_queue p zero qs = false
  any_queue p (suc n) qs = any_queue p n qs || p (qs n)

  -- The result, and the new value of the global `allqdone`.
  unfoldable pub allqempty : Bool → QueueArray A → ℕ → Bool × Bool
  allqempty allqdone qs n =
      if allqdone
      then (true, true)
      else if any_queue unready n qs
      then (false, allqdone)
      else if any_queue unfinished n qs
      then (false, allqdone)
      else (true, true)

  -- The loops of `lowest` and `highest` from index `i`, with `k` rounds left.
  unfoldable pub lowest_from : QueueArray A → ℕ → ℕ → ℕ → ℕ → ℕ
  lowest_from qs zero i lowqueue lowcount = lowqueue
  lowest_from qs (suc k) i lowqueue lowcount =
      let c = (qs i).count in
      lowest_from qs k (i + 1) (if ltb c lowcount then i else lowqueue)
        (if ltb c lowcount then c else lowcount)

  unfoldable pub lowest : QueueArray A → ℕ → ℕ
  lowest qs n = lowest_from qs n 0 0 queue_size

  unfoldable pub highest_from : QueueArray A → ℕ → ℕ → ℕ → ℕ → ℕ
  highest_from qs zero i highqueue highcount = highqueue
  highest_from qs (suc k) i highqueue highcount =
      let c = (qs i).count in
      highest_from qs k (i + 1) (if ltb highcount c then i else highqueue)
        (if ltb highcount c then c else highcount)

  unfoldable pub highest : QueueArray A → ℕ → ℕ
  highest qs n = highest_from qs n 0 0 0

-- The queue that `while (err == EBUSY)` gets, from `qnum` and after `busy` failures.
unfoldable pub next_free : ℕ → ℕ → ℕ → ℕ
next_free n zero qnum = qnum
next_free n (suc busy) qnum = next_free n busy ((qnum + 1) % n)

module _ {A : Type 0} where
  -- What `enqueue` and `dequeue` do to the queue that they have locked.
  unfoldable pub push : Queue A → A → Queue A
  push q x =
      let rear = (q.rear + 1) % queue_size in
      record q { rear = rear; content = update q.content rear x; count = q.count + 1 }

  unfoldable pub pop : Queue A → Queue A
  pop q = record q { front = (q.front + 1) % queue_size; count = q.count - 1 }

  -- `none` is the failed assertion of a full queue.
  unfoldable pub enqueue : QueueArray A → ℕ → A → ℕ → Option (QueueArray A)
  enqueue qs n x busy =
      let qnum = next_free n busy (lowest qs n) in
      if leb queue_size (qs qnum).count then none else some (update qs qnum (push (qs qnum) x))

  unfoldable pub deq_task_finished : Queue A → Queue A
  deq_task_finished q = record q { inflight = (q.inflight + int_mod - 1) % int_mod }

  -- The queue that `dequeue` locks: the home queue, or one found from the fullest.
  unfoldable pub dequeue_from : QueueArray A → ℕ → ℕ → ℕ → ℕ
  dequeue_from qs n homeq zero = homeq
  dequeue_from qs n homeq (suc busy) = next_free n busy (highest qs n)

  abbrev pub take_off : Queue A → Queue A
  take_off q = record q { inflight = (q.inflight + 1) % int_mod }

  -- `none` is NULL, from an empty queue.
  unfoldable pub dequeue : QueueArray A → ℕ → ℕ → ℕ → Option A × QueueArray A
  dequeue qs n homeq busy =
      let qnum = dequeue_from qs n homeq busy in
      let q = qs qnum in
      let qs' = update qs qnum (pop q) in
      if q.count == 0
      then (none, qs)
      else (some (q.content q.front), update qs' homeq (take_off (qs' homeq)))
