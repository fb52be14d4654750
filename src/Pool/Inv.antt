-- ===== src/Pool/Inv.antt =====
-- The invariant of the threads of src/transform.c in the first traversal.
use c_strider.Prelude.{
  ℕ, ◌+◌, ◌<◌, ◌≡◌, ◌≢◌, Bool, true, false, arith, update, total, total-update, total-zero, ap, ◌∙◌,
  ◌==◌, Bool-cases, inl, inr,
}
use c_strider.Queue.{Queue, QueueArray, start_dequeue, deq_task_finished}
use c_strider.Queue.IsValid.{IsValid, start_dequeue-IsValid, deq_task_finished-IsValid}
use c_strider.Queue.Effect.{Enqueued, Dequeued}
use c_strider.Queue.Array.{AllValid, held, update-AllValid}
use c_strider.Queue.Done.{IsIdle, AllIdle}
use c_strider.Pool.{
  Pc, waiting, fetching, working, left, System, after_start, after_finish, after_enqueue,
  after_dequeue,
}

module _ {A : Type 0} where
  -- `inflight` of a thread's home queue.
  abbrev pub busy_with : Pc A → ℕ
  busy_with (working _) = 1
  busy_with _ = 0

  -- `thread_started` of a thread's home queue.
  abbrev pub woken : Pc A → ℕ
  woken waiting = 0
  woken _ = 1

pub record Inv {A : Type 0} (n : ℕ) (s : System A) : Type 0 where
  pub valid : AllValid n s.queues
  pub flight : (j : ℕ) → j < n → (s.queues j).inflight ≡ busy_with (s.pc j)
  pub started : (j : ℕ) → j < n → (s.queues j).thread_started ≡ woken (s.pc j)
  pub done : s.allqdone ≡ true → AllIdle n s.queues
  pub exited : (j : ℕ) → s.pc j ≡ left → s.allqdone ≡ true
  pub tally : s.added ≡ held n s.queues + total busy_with n s.pc + s.finished

module _ {A : Type 0} {n : ℕ} {s : System A} (inv : Inv n s) where
  open inv use {valid, flight, started, done, exited, tally}

  -- While a thread that still has to start, or works on a task, `allqdone` is not set.
  pub not_done :
      (i : ℕ) → i < n → (p : Pc A) → s.pc i ≡ p → busy_with p + 1 ≢ woken p → s.allqdone ≡ false
  not_done i h p e ne = elim (Bool-cases s.allqdone) [
    | inl set ↦
        let idle : IsIdle (s.queues i) = done set i h in
        absurd (
          ne (
            omega (
              arith,
              idle.started,
              idle.settled,
              flight i h,
              started i h,
              ap busy_with e,
              ap woken e,
            )))
    | inr clear ↦ clear
  ]

  pub enqueue-Inv :
      {qs : QueueArray A} → s.allqdone ≡ false → Enqueued n s.queues qs → Inv n (after_enqueue s qs)
  enqueue-Inv clear e = record {
    valid = e.valid;
    flight = λ j h. e.flight j ∙ flight j h;
    started = λ j h. e.started j ∙ started j h;
    done = λ set. cc;
    exited = exited;
    tally = omega (arith, e.more, tally);
  }

  update-valid : (i : ℕ) → i < n → {q : Queue A} → IsValid q → AllValid n (update s.queues i q)
  update-valid i h v = update-AllValid n s.queues valid (omega arith) i v

  pub start-Inv : (i : ℕ) → i < n → s.pc i ≡ waiting → Inv n (after_start s i)
  unfolding start_dequeue
  start-Inv i h e = record {
    valid = update-valid i h (start_dequeue-IsValid (valid i h));
    flight = λ j b. ground (arith, flight j b);
    started = λ j b. ground (arith, started j b);
    done = λ set. cc (not_done i h waiting e (omega arith));
    exited = λ j l. exited j (ground arith);
    tally = omega (
      arith,
      total-update busy_with n s.pc i fetching h,
      total-update (λ q. q.count) n s.queues i (start_dequeue (s.queues i)) h,
      tally,
      ap busy_with e,
    );
  }

  pub finish-Inv : (i : ℕ) (x : A) → i < n → s.pc i ≡ working x → Inv n (after_finish s i)
  unfolding deq_task_finished
  finish-Inv i x h e = record {
    valid = update-valid i h (deq_task_finished-IsValid (valid i h));
    flight = λ j b. ground (arith, flight j b);
    started = λ j b. ground (arith, started j b);
    done = λ set. cc (not_done i h (working x) e (omega arith));
    exited = λ j l. exited j (ground arith);
    tally = omega (
      arith,
      total-update busy_with n s.pc i fetching h,
      total-update (λ q. q.count) n s.queues i (deq_task_finished (s.queues i)) h,
      tally,
      ap busy_with e,
    );
  }

  pub take-Inv :
      (i : ℕ) (x : A) {qs : QueueArray A}
      → i < n
      → s.pc i ≡ fetching
      → Dequeued n i s.queues qs
      → Inv n (after_dequeue s i x qs)
  take-Inv i x h e d = record {
    valid = d.valid;
    flight = λ j b. ground (arith, flight j b, d.flight j);
    started = λ j b. ground (arith, started j b, d.started j);
    done = λ set. absurd (
        omega (arith, d.fewer, total-zero (λ q. q.count) n s.queues (λ j b. (done set j b).empty)));
    exited = λ j l. exited j (ground arith);
    tally =
        omega
          (arith, total-update busy_with n s.pc i (working x) h, d.fewer, tally, ap busy_with e);
  }

  -- A thread moves on and the queues stay as they are.
  pub move-Inv :
      (i : ℕ) (p p' : Pc A) (d : Bool)
      → i < n
      → s.pc i ≡ p
      → busy_with p' ≡ busy_with p
      → woken p' ≡ woken p
      → (d ≡ true → AllIdle n s.queues)
      → (s.allqdone ≡ true → d ≡ true)
      → (p' ≡ left → d ≡ true)
      → Inv n (record s { allqdone = d; pc = update s.pc i p' })
  move-Inv i p p' d h e busy wake idle keep out = record {
    valid = valid;
    flight = λ j b. ground (arith, flight j b);
    started = λ j b. ground (arith, started j b);
    done = idle;
    exited = λ j l. elim (Bool-cases (i == j)) [
      | inl here ↦ out (ground arith)
      | inr other ↦ keep (exited j (ground arith))
    ];
    tally = omega (arith, total-update busy_with n s.pc i p' h, tally, busy, ap busy_with e);
  }
