-- ===== src/Queue/Effect.antt =====
-- What `enqueue` and `dequeue` of src/queue.c do to the counters of the queue array, for the proofs
-- about threads.
use c_strider.Prelude.{
  ℕ, ◌+◌, ◌%◌, ◌<◌, ◌≡◌, ◌≢◌, subst, none, some, arith, if◌then◌else◌, ◌==◌, update, total-update,
}
use c_strider.Queue.{
  QueueArray, queue_size, int_mod, next_free, push, pop, enqueue, dequeue, dequeue_from, take_off,
}
use c_strider.Queue.IsValid.{push-IsValid, pop-IsValid}
use c_strider.Queue.Choice.{lowest_first}
use c_strider.Queue.Array.{
  AllValid, held, target, charge, update-AllValid, charge-AllValid, target_in, dequeue_from_in,
}

-- `enqueue` added one element.
pub record Enqueued {A : Type 0} (n : ℕ) (qs qs' : QueueArray A) : Type 0 where
  pub valid : AllValid n qs'
  pub flight : (j : ℕ) → (qs' j).inflight ≡ (qs j).inflight
  pub started : (j : ℕ) → (qs' j).thread_started ≡ (qs j).thread_started
  pub more : held n qs' ≡ held n qs + 1

-- `dequeue` for `homeq` took one element.
pub record Dequeued {A : Type 0} (n homeq : ℕ) (qs qs' : QueueArray A) : Type 0 where
  pub valid : AllValid n qs'
  pub flight :
      (j : ℕ)
      → (qs' j).inflight ≡ (if j == homeq then ((qs j).inflight + 1) % int_mod else (qs j).inflight)
  pub started : (j : ℕ) → (qs' j).thread_started ≡ (qs j).thread_started
  pub fewer : held n qs' + 1 ≡ held n qs

module _ {A : Type 0} where
  Enqueued-push :
      (n k : ℕ) (qs : QueueArray A) (x : A)
      → AllValid n qs
      → k < n
      → (qs k).count < queue_size
      → (0 < n)
      → Enqueued n qs (update qs k (push (qs k) x))
  unfolding push
  Enqueued-push n k qs x v h room pos = record {
    valid = update-AllValid n qs v pos k (push-IsValid x room (v k h));
    flight = λ j. ground arith;
    started = λ j. ground arith;
    more = omega (arith, total-update (λ q. q.count) n qs k (push (qs k) x) h);
  }

  pub enqueue-Enqueued :
      (n : ℕ) (qs : QueueArray A) (x : A) (busy : ℕ) {qs' : QueueArray A}
      → 0 < n
      → AllValid n qs
      → enqueue qs n x busy ≡ some qs'
      → Enqueued n qs qs'
  unfolding enqueue
  enqueue-Enqueued n qs x busy {qs'} pos v e =
      let k = target n qs v pos busy in
      let room : (qs k).count < queue_size = ground arith in
      let same : update qs k (push (qs k) x) ≡ qs' = ground arith in
      subst (Enqueued n qs) same (Enqueued-push n k qs x v (target_in n qs v pos busy) room pos)

  held-charge : (n homeq : ℕ) (qs : QueueArray A) → homeq < n → held n (charge homeq qs) ≡ held n qs
  held-charge n homeq qs h =
      omega (arith, total-update (λ q. q.count) n qs homeq (take_off (qs homeq)) h)

  Dequeued-pop :
      (n homeq k : ℕ) (qs : QueueArray A)
      → AllValid n qs
      → 0 < n
      → homeq < n
      → k < n
      → (qs k).count ≢ 0
      → Dequeued n homeq qs (charge homeq (update qs k (pop (qs k))))
  unfolding pop
  Dequeued-pop n homeq k qs v pos hh h ne = record {
    valid = charge-AllValid homeq _ (update-AllValid n qs v pos k (pop-IsValid ne (v k h)));
    flight = λ j. ground arith;
    started = λ j. ground arith;
    fewer = omega (
      arith,
      held-charge n homeq (update qs k (pop (qs k))) hh,
      total-update (λ q. q.count) n qs k (pop (qs k)) h,
    );
  }

  pub dequeue-Dequeued :
      (n : ℕ) (qs : QueueArray A) (homeq busy : ℕ) {x : A} {qs' : QueueArray A}
      → homeq < n
      → AllValid n qs
      → dequeue qs n homeq busy ≡ (some x, qs')
      → Dequeued n homeq qs qs'
  unfolding dequeue
  dequeue-Dequeued n qs homeq busy {x} {qs'} hh v e =
      let k = dequeue_from qs n homeq busy in
      let ne : (qs k).count ≢ 0 = ground arith in
      let same : charge homeq (update qs k (pop (qs k))) ≡ qs' = ground arith in
      subst (Dequeued n homeq qs) same (
        Dequeued-pop n homeq k qs v (omega arith) hh
          (dequeue_from_in n qs v (omega arith) homeq busy hh) ne)

  pub dequeue-same :
      (n : ℕ) (qs : QueueArray A) (homeq busy : ℕ) {qs' : QueueArray A}
      → dequeue qs n homeq busy ≡ (none, qs')
      → qs' ≡ qs
  unfolding dequeue
  dequeue-same n qs homeq busy e = ground arith

  pub enqueue_first :
      (n : ℕ) (qs : QueueArray A) (x : A)
      → 0 < n
      → (qs 0).count ≡ 0
      → enqueue qs n x 0 ≡ some (update qs 0 (push (qs 0) x))
  unfolding enqueue next_free
  enqueue_first n qs x h e = rw (lowest_first qs n h e) (ground arith)
