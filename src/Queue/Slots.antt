-- ===== src/Queue/Slots.antt =====
-- What each slot of a queue array holds, before and after `enqueue` and `dequeue` of src/queue.c.
use c_strider.Prelude.{ℕ, ◌+◌, ◌%◌, ◌≡◌, subst, some, arith, ◌==◌, update, inl, inr, Bool-cases}
use c_strider.Queue.{
  Queue, QueueArray, queue_size, next_free, lowest, push, pop, enqueue, dequeue, dequeue_from,
  take_off, deq_task_finished,
}

module _ {A : Type 0} (P : A → Type 0) where
  abbrev pub EachSlot : QueueArray A → Type 0
  EachSlot qs = (j i : ℕ) → P ((qs j).content i)

  -- One queue of the array is replaced.
  pub update-EachSlot :
      (qs : QueueArray A) (k : ℕ) (q : Queue A)
      → EachSlot qs
      → ((i : ℕ) → P (q.content i))
      → EachSlot (update qs k q)
  update-EachSlot qs k q all one j i = elim (Bool-cases (k == j)) [
    | inl e ↦ rw e (one i)
    | inr e ↦ rw e (all j i)
  ]

  push-slots :
      (q : Queue A) (x : A) → ((i : ℕ) → P (q.content i)) → P x → (i : ℕ) → P ((push q x).content i)
  unfolding push
  push-slots q x all p i = elim (Bool-cases ((q.rear + 1) % queue_size == i)) [
    | inl e ↦ rw e p
    | inr e ↦ rw e (all i)
  ]

  pub enqueue-EachSlot :
      (qs : QueueArray A) (n : ℕ) (x : A) (busy : ℕ) {qs' : QueueArray A}
      → EachSlot qs
      → P x
      → enqueue qs n x busy ≡ some qs'
      → EachSlot qs'
  unfolding enqueue
  enqueue-EachSlot qs n x busy {qs'} all p e =
      let k : ℕ = next_free n busy (lowest qs n) in
      let same : update qs k (push (qs k) x) ≡ qs' = ground arith in
      subst EachSlot same (update-EachSlot qs k (push (qs k) x) all (push-slots (qs k) x (all k) p))

  pub dequeue-EachSlot :
      (qs : QueueArray A) (n homeq busy : ℕ) {x : A} {qs' : QueueArray A}
      → EachSlot qs
      → dequeue qs n homeq busy ≡ (some x, qs')
      → P x × EachSlot qs'
  unfolding dequeue pop
  dequeue-EachSlot qs n homeq busy {x} {qs'} all e =
      let k : ℕ = dequeue_from qs n homeq busy in
      let qs1 : QueueArray A = update qs k (pop (qs k)) in
      let taken : (qs k).content ((qs k).front) ≡ x = ground arith in
      let left : update qs1 homeq (take_off (qs1 homeq)) ≡ qs' = ground arith in
      let all1 : EachSlot qs1 = update-EachSlot qs k (pop (qs k)) all (all k) in
      (
        subst P taken (all k ((qs k).front)),
        subst EachSlot left (update-EachSlot qs1 homeq (take_off (qs1 homeq)) all1 (all1 homeq)),
      )

  pub finished-EachSlot :
      (qs : QueueArray A) (k : ℕ) → EachSlot qs → EachSlot (update qs k (deq_task_finished (qs k)))
  unfolding deq_task_finished
  finished-EachSlot qs k all = update-EachSlot qs k (deq_task_finished (qs k)) all (all k)
