-- ===== src/Pool/Safety.antt =====
-- What holds of every reachable state of the threads of src/transform.c in the first traversal.
use c_strider.Prelude.{
  ℕ, ◌+◌, ◌<◌, ◌≡◌, ◌≢◌, refl, sym, ap, subst, update, false, arith, total, total-zero,
}
use c_strider.Queue.{QueueArray, init_queue}
use c_strider.Queue.IsValid.{init_queue-IsValid}
use c_strider.Queue.Effect.{enqueue-Enqueued, dequeue-Dequeued, dequeue-same}
use c_strider.Queue.Array.{AllValid, held}
use c_strider.Queue.Done.{AllIdle, allqempty-AllIdle}
use c_strider.Pool.{
  waiting, fetching, polling, working, left, System, launch_helpers, Step, root, start, take, miss,
  spawn, finish, look_again, poll_more, poll_done, Reach, here, next,
}
use c_strider.Pool.Inv.{
  Inv, busy_with, woken, not_done, enqueue-Inv, start-Inv, finish-Inv, take-Inv, move-Inv,
}

module _ {A : Type 0} where
  pub launch_helpers-Inv : (n : ℕ) (qs : QueueArray A) → Inv n (launch_helpers false qs)
  unfolding launch_helpers init_queue
  launch_helpers-Inv n qs = record {
    valid = λ j h. init_queue-IsValid (qs j);
    flight = λ j h. refl;
    started = λ j h. refl;
    done = λ h. cc;
    exited = λ j h. cc;
    tally = omega (
      arith,
      total-zero (λ q. q.count) n (launch_helpers false qs).queues (λ j h. refl),
      total-zero busy_with n (launch_helpers false qs).pc (λ j h. refl),
    );
  }

  pub Step-Inv : {n : ℕ} {s t : System A} → Step n s t → Inv n s → Inv n t
  Step-Inv {n} {s} (root i x busy h e q) inv =
      enqueue-Inv inv (not_done inv i (omega arith) waiting e (omega arith))
        (enqueue-Enqueued n s.queues x busy (omega arith) inv.valid q)
  Step-Inv (start i h e) inv = start-Inv inv i h e
  Step-Inv {n} {s} (take i busy {x} h e q) inv =
      take-Inv inv i x h e (dequeue-Dequeued n s.queues i busy h inv.valid q)
  Step-Inv {n} {s} (miss i busy h e q) inv =
      subst (λ qs. Inv n (record s { queues = qs; pc = update s.pc i polling }))
        (sym (dequeue-same n s.queues i busy q))
        (move-Inv inv i fetching polling s.allqdone h e refl refl inv.done (λ d. d) (λ l. cc))
  Step-Inv {n} {s} (spawn i x y busy h e q) inv =
      enqueue-Inv inv (not_done inv i h (working x) e (omega arith))
        (enqueue-Enqueued n s.queues y busy (omega arith) inv.valid q)
  Step-Inv (finish i x h e) inv = finish-Inv inv i x h e
  Step-Inv {n} {s} (look_again i h e) inv =
      move-Inv inv i polling fetching s.allqdone h e refl refl inv.done (λ d. d) (λ l. cc)
  Step-Inv {n} {s} (poll_more i h e q) inv =
      let (idle, keep, out) = allqempty-AllIdle s.allqdone s.queues n inv.done q in
      move-Inv inv i polling fetching _ h e refl refl idle keep (λ l. cc)
  Step-Inv {n} {s} (poll_done i h e q) inv =
      let (idle, keep, out) = allqempty-AllIdle s.allqdone s.queues n inv.done q in
      move-Inv inv i polling left _ h e refl refl idle keep (λ l. out refl)

  pub Reach-Inv : {n : ℕ} {s t : System A} → Inv n s → Reach n s t → Inv n t
  Reach-Inv inv here = inv
  Reach-Inv inv (next r st) = Step-Inv st (Reach-Inv inv r)

  -- In a traversal that begins with `allqdone` clear, a thread leaves the loop of `processqueue` only
  -- when the traversal is over: all threads have started, no queue holds a task, no thread works on
  -- one, and as many tasks have been finished as were added.
  pub left-over :
      (n : ℕ) (qs : QueueArray A) {s : System A} (i : ℕ)
      → Reach n (launch_helpers false qs) s
      → s.pc i ≡ left
      → AllIdle n s.queues
        × ((j : ℕ) → j < n → (busy_with (s.pc j) ≡ 0) × (s.pc j ≢ waiting))
        × (s.added ≡ s.finished)
  left-over n qs {s} i r e =
      let inv : Inv n s = Reach-Inv (launch_helpers-Inv n qs) r in
      let idle : AllIdle n s.queues = inv.done (inv.exited i e) in
      let quiet : (j : ℕ) → j < n → busy_with (s.pc j) ≡ 0 =
        λ j h. omega (arith, inv.flight j h, (idle j h).settled) in
      (
        idle,
        (λ j h. (quiet j h, λ w. omega (arith, inv.started j h, (idle j h).started, ap woken w))),
        omega (
          arith,
          inv.tally,
          total-zero (λ q. q.count) n s.queues (λ j h. (idle j h).empty),
          total-zero busy_with n s.pc quiet,
        ),
      )

  -- In every state of a traversal that begins with `allqdone` clear, all queues are valid, each
  -- `inflight` is 1 if its thread works on a task and 0 if not, and as many tasks have been added as
  -- are in queues, worked on or finished.
  pub no_task_lost :
      (n : ℕ) (qs : QueueArray A) {s : System A}
      → Reach n (launch_helpers false qs) s
      → AllValid n s.queues
        × ((j : ℕ) → j < n → (s.queues j).inflight ≡ busy_with (s.pc j))
        × (s.added ≡ held n s.queues + total busy_with n s.pc + s.finished)
  no_task_lost n qs {s} r =
      let inv : Inv n s = Reach-Inv (launch_helpers-Inv n qs) r in
      (inv.valid, inv.flight, inv.tally)
