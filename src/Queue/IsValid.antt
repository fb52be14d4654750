-- ===== src/Queue/IsValid.antt =====
-- The representation invariant of one queue of src/queue.c.
use c_strider.Prelude.{◌+◌, ◌%◌, ◌≤◌, ◌<◌, ◌≡◌, ◌≢◌, arith}
use c_strider.Queue.{
  Queue, queue_size, init_queue, start_dequeue, push, pop, deq_task_finished, take_off,
}

-- All indices are in range, and `rear` is the place before the end of the `count` elements that
-- begin at `front`.
pub record IsValid {A : Type 0} (q : Queue A) : Type 0 where
  pub front_in : q.front < queue_size
  pub rear_in : q.rear < queue_size
  pub fits : q.count ≤ queue_size
  pub closed : (q.front + q.count) % queue_size ≡ (q.rear + 1) % queue_size

module _ {A : Type 0} where
  pub init_queue-IsValid : (q : Queue A) → IsValid (init_queue q)
  unfolding init_queue
  init_queue-IsValid q = omega arith

  pub start_dequeue-IsValid : {q : Queue A} → IsValid q → IsValid (start_dequeue q)
  unfolding start_dequeue
  start_dequeue-IsValid v = omega arith

  pub push-IsValid : {q : Queue A} (x : A) → q.count < queue_size → IsValid q → IsValid (push q x)
  unfolding push
  push-IsValid x h v = omega arith

  pub pop-IsValid : {q : Queue A} → q.count ≢ 0 → IsValid q → IsValid (pop q)
  unfolding pop
  pop-IsValid h v = omega arith

  pub deq_task_finished-IsValid : {q : Queue A} → IsValid q → IsValid (deq_task_finished q)
  unfolding deq_task_finished
  deq_task_finished-IsValid v = omega arith

  pub take_off-IsValid : {q : Queue A} → IsValid q → IsValid (take_off q)
  take_off-IsValid v = omega arith
