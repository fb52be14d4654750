-- ===== src/Tests/Threads.antt =====
-- The threads of src/transform.c in a short run.
use c_strider.Prelude.{ℕ, ◌+◌, ◌<◌, ◌≡◌, ◌≢◌, refl, update, [], ◌∷◌, arith, total, false, true}
use c_strider.Queue.{QueueArray}
use c_strider.Queue.Array.{AllValid, held}
use c_strider.Queue.Fifo.{contents}
use c_strider.Queue.Done.{AllIdle}
use c_strider.Queue.{
  init_queue, start_dequeue, allqempty, any_queue, lowest_from, lowest, next_free, push, pop,
  enqueue, dequeue_from, dequeue, deq_task_finished,
}
use c_strider.Pool.{
  System, Reach, here, next, launch_helpers, left, root, start, take, finish, miss, poll_done,
  polling, waiting, after_enqueue, after_start, after_dequeue, after_finish,
}
use c_strider.Pool.Inv.{busy_with}
use c_strider.Pool.Safety.{left-over, no_task_lost}
use c_strider.Pool.Leaving.{all_can_leave}
use c_strider.Pool.Latch.{root_can_be_lost}

abbrev raw_queues : QueueArray ℕ
raw_queues j = record {
  content = λ i. 0;
  front = 0;
  rear = 0;
  thread_started = 0;
  count = 0;
  inflight = 0;
}

root_can_be_lost_example :
    (s : System ℕ) × Reach 2 (launch_helpers true raw_queues) s
    × ((j : ℕ) → j < 2 → s.pc j ≡ left)
    × (contents (s.queues 0) ≡ 5 ∷ [])
root_can_be_lost_example = root_can_be_lost 2 raw_queues 5 (omega arith)

-- One thread adds a root's task, takes it, works it off, finds nothing more, and leaves.
abbrev s0 : System ℕ
s0 = launch_helpers false raw_queues

abbrev s1 : System ℕ
s1 = after_enqueue s0 (update s0.queues 0 (push (s0.queues 0) 5))

abbrev s2 : System ℕ
s2 = after_start s1 0

abbrev s3 : System ℕ
s3 = after_dequeue s2 0 5 (dequeue s2.queues 1 0 0).1

abbrev s4 : System ℕ
s4 = after_finish s3 0

abbrev s5 : System ℕ
s5 = record s4 { pc = update s4.pc 0 polling }

abbrev s6 : System ℕ
s6 = record s5 { allqdone = true; pc = update s5.pc 0 left }

run : Reach 1 s0 s6
unfolding launch_helpers init_queue start_dequeue allqempty any_queue lowest_from lowest next_free
    push pop enqueue dequeue_from dequeue deq_task_finished
run =
    next
      (next
        (next
          (next (next (next here (root 0 5 0 refl refl refl)) (start 0 (omega arith) refl))
            (take 0 0 (omega arith) refl refl))
          (finish 0 5 (omega arith) refl))
        (miss 0 0 (omega arith) refl refl))
      (poll_done 0 (omega arith) refl refl)

left-over_example :
    AllIdle 1 s6.queues
    × ((j : ℕ) → j < 1 → (busy_with (s6.pc j) ≡ 0) × (s6.pc j ≢ waiting))
    × (s6.added ≡ s6.finished)
left-over_example = left-over 1 raw_queues 0 run refl

no_task_lost_example :
    AllValid 1 s6.queues
    × ((j : ℕ) → j < 1 → (s6.queues j).inflight ≡ busy_with (s6.pc j))
    × (s6.added ≡ held 1 s6.queues + total busy_with 1 s6.pc + s6.finished)
no_task_lost_example = no_task_lost 1 raw_queues run

-- Two threads start and find nothing; the second has left, the first is still to look.
abbrev u1 : System ℕ
u1 = after_start s0 0

abbrev u2 : System ℕ
u2 = record u1 { pc = update u1.pc 0 polling }

abbrev u3 : System ℕ
u3 = after_start u2 1

abbrev u4 : System ℕ
u4 = record u3 { pc = update u3.pc 1 polling }

abbrev u5 : System ℕ
u5 = record u4 { allqdone = true; pc = update u4.pc 1 left }

run_of_two : Reach 2 s0 u5
unfolding launch_helpers init_queue start_dequeue allqempty any_queue dequeue dequeue_from
run_of_two =
    next
      (next
        (next (next (next here (start 0 (omega arith) refl)) (miss 0 0 (omega arith) refl refl))
          (start 1 (omega arith) refl))
        (miss 1 0 (omega arith) refl refl))
      (poll_done 1 (omega arith) refl refl)

all_can_leave_example : (t : System ℕ) × Reach 2 u5 t × ((j : ℕ) → j < 2 → t.pc j ≡ left)
all_can_leave_example = all_can_leave 2 raw_queues 1 run_of_two refl
