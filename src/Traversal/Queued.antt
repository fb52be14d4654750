-- ===== src/Traversal/Queued.antt =====
-- The work that is queued during a traversal of src/transform.c without helper threads.
use c_strider.Prelude.{ℕ, zero, suc, ◌<◌, ◌≡◌, refl, Option, none, some, [], update, arith}
use c_strider.Outcome.{done}
use c_strider.Queue.{QueueArray, dequeue, deq_task_finished}
use c_strider.Queue.Array.{dequeue-none}
use c_strider.Queue.Fifo.{contents}
use c_strider.Traversal.{visit, callxformer, process_task, process_loop}
use c_strider.Traversal.State.{Task, World, Env}
use c_strider.Traversal.Total.{Ends, Ends-bind}

module _ {U : Type 0} (env : Env U) (depth : ℕ) (I : World U → Type 0) (left : World U → ℕ) where
  -- After `deq_task_finished(&queue_array[0])`.
  abbrev pub settled : World U → World U
  settled w = record w { queues = update w.queues 0 (deq_task_finished (w.queues 0)) }

  below : (a b n : ℕ) → a < b → b < suc n → a < n
  below a b n h k = omega arith

  -- Each task ends, keeps the invariant and leaves less to do.
  abbrev pub Falling : Type 0
  Falling =
      (w : World U) (t : Task) (queues : QueueArray Task)
      → I w
      → dequeue w.queues 1 0 0 ≡ (some t, queues)
      → Ends (λ w'. I (settled w') × (left (settled w') < left w))
          (callxformer env (visit env depth) t (record w { queues = queues }))

  -- Either the queue was empty, or the measure has fallen.
  abbrev Progress : World U → Option (World U) → Type 0
  Progress w none = contents (w.queues 0) ≡ []
  Progress w (some w') = I w' × (left w' < left w)

  process_task-Progress :
      Falling
      → (w : World U) → I w
      → (r : Option Task × QueueArray Task) → dequeue w.queues 1 0 0 ≡ r
      → Ends (Progress w) (process_task env (visit env depth) w r)
  unfolding process_task
  process_task-Progress falling w i (none, queues) e = dequeue-none 1 w.queues 0 e
  process_task-Progress falling w i (some t, queues) e =
      Ends-bind (λ w'. I (settled w') × (left (settled w') < left w)) (Progress w)
        (callxformer env (visit env depth) t (record w { queues = queues })) _
        (falling w t queues i e) (λ w' k. k)

  -- If each task ends, in a fault or in a state that keeps the invariant `I` and leaves less to do,
  -- then the loop of `processqueue` without helper threads ends, with any fuel above what is left to
  -- do: in a fault, or with the invariant kept and the queue empty.
  pub process_loop-Ends :
      Falling
      → (fuel : ℕ) (w : World U) → I w
      → left w < fuel
      → Ends (λ w'. I w' × (contents (w'.queues 0) ≡ [])) (process_loop env fuel depth w)
  unfolding process_loop
  process_loop-Ends falling zero w i h = absurd (omega arith)
  process_loop-Ends falling (suc fuel) w i h =
      Ends-bind (Progress w) (λ w'. I w' × (contents (w'.queues 0) ≡ []))
        (process_task env (visit env depth) w (dequeue w.queues 1 0 0)) _
        (process_task-Progress falling w i (dequeue w.queues 1 0 0) refl)
        (next_round w i h (process_loop-Ends falling fuel))
    where
      next_round :
          (w : World U)
          → I w
          → left w < suc fuel
          → ((w' : World U)
              → I w'
              → left w' < fuel
              → Ends
                  (λ w''. I w'' × (contents (w''.queues 0) ≡ []))
                  (process_loop env fuel depth w'))
          → (r : Option (World U)) → Progress w r
          → Ends
              (λ w'. I w' × (contents (w'.queues 0) ≡ []))
              (elim r [ none ↦ done w | some w' ↦ process_loop env fuel depth w' ])
      next_round w i h rest none e = (i, e)
      next_round w i h rest (some w') k = rest w' (k.0) (below (left w') (left w) fuel (k.1) h)
